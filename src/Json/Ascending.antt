-- ===== src/Json/Ascending.antt =====
-- Maps with distinct keys, and sorting their entries by key.
use thundercrab.Prelude.{◌≡◌, ◌≢◌, refl, sym, ap, ◌∙◌, true, Text, Bool-cases, inl, inr}
use thundercrab.Prelude.Eq.{text_same}
use thundercrab.Prelude.Sql.{text_le, text_le_total, text_le_trans}
use thundercrab.Json.{
  Json, Fields, end, field, insert_entry, sort_entries, sort_value, sort_children,
}

-- No entry has the key.
abbrev pub Lacks : Text → Fields → Type 0
Lacks k end = Unit
Lacks k (field j w fs) = (k ≢ j) × Lacks k fs

-- As in every map, no key stands twice.
abbrev pub HasDistinctKeys : Fields → Type 0
HasDistinctKeys end = Unit
HasDistinctKeys (field k v fs) = Lacks k fs × HasDistinctKeys fs

-- `k` comes before all keys.
abbrev pub Before : Text → Fields → Type 0
Before k end = Unit
Before k (field j w fs) = (text_le k j ≡ true) × Before k fs

abbrev pub IsAscending : Fields → Type 0
IsAscending end = Unit
IsAscending (field k v fs) = Before k fs × IsAscending fs

Lacks-insert_entry :
    (j k : Text) (v : Json) (fs : Fields) → j ≢ k → Lacks j fs → Lacks j (insert_entry k v fs)
unfolding insert_entry
Lacks-insert_entry j k v end n h = (n, tt)
Lacks-insert_entry j k v (field i w fs) n h = elim (Bool-cases (text_le k i)) [
  | inl t ↦ rw t (n, h)
  | inr f ↦ rw f (h.0, Lacks-insert_entry j k v fs n h.1)
]

Lacks-sort_entries : (j : Text) (fs : Fields) → Lacks j fs → Lacks j (sort_entries fs)
unfolding sort_entries
Lacks-sort_entries j end h = tt
Lacks-sort_entries j (field k v fs) h =
    Lacks-insert_entry j k v (sort_entries fs) h.0 (Lacks-sort_entries j fs h.1)

Lacks-sort_children : (j : Text) (fs : Fields) → Lacks j fs → Lacks j (sort_children fs)
unfolding sort_value
Lacks-sort_children j end h = tt
Lacks-sort_children j (field k v fs) h = (h.0, Lacks-sort_children j fs h.1)

insert_entry-HasDistinctKeys :
    (k : Text) (v : Json) (fs : Fields)
    → Lacks k fs
    → HasDistinctKeys fs
    → HasDistinctKeys (insert_entry k v fs)
unfolding insert_entry
insert_entry-HasDistinctKeys k v end l h = (tt, tt)
insert_entry-HasDistinctKeys k v (field i w fs) l h = elim (Bool-cases (text_le k i)) [
  | inl t ↦ rw t (l, h)
  | inr f ↦ rw f (
    Lacks-insert_entry i k v fs (λ e. l.0 (sym e)) h.0,
    insert_entry-HasDistinctKeys k v fs l.1 h.1,
  )
]

pub sort_entries-HasDistinctKeys :
    (fs : Fields) → HasDistinctKeys fs → HasDistinctKeys (sort_entries fs)
unfolding sort_entries
sort_entries-HasDistinctKeys end h = tt
sort_entries-HasDistinctKeys (field k v fs) h =
    insert_entry-HasDistinctKeys k v (sort_entries fs) (Lacks-sort_entries k fs h.0)
      (sort_entries-HasDistinctKeys fs h.1)

pub sort_children-HasDistinctKeys :
    (fs : Fields) → HasDistinctKeys fs → HasDistinctKeys (sort_children fs)
unfolding sort_value
sort_children-HasDistinctKeys end h = tt
sort_children-HasDistinctKeys (field k v fs) h =
    (Lacks-sort_children k fs h.0, sort_children-HasDistinctKeys fs h.1)

Before-insert_entry :
    (j k : Text) (v : Json) (fs : Fields)
    → text_le j k ≡ true
    → Before j fs
    → Before j (insert_entry k v fs)
unfolding insert_entry
Before-insert_entry j k v end t h = (t, tt)
Before-insert_entry j k v (field i w fs) t h = elim (Bool-cases (text_le k i)) [
  | inl e ↦ rw e (t, h)
  | inr e ↦ rw e (h.0, Before-insert_entry j k v fs t h.1)
]

Before-trans : (j k : Text) (fs : Fields) → text_le j k ≡ true → Before k fs → Before j fs
Before-trans j k end t h = tt
Before-trans j k (field i w fs) t h = (text_le_trans j k i t h.0, Before-trans j k fs t h.1)

insert_entry-IsAscending :
    (k : Text) (v : Json) (fs : Fields) → IsAscending fs → IsAscending (insert_entry k v fs)
unfolding insert_entry
insert_entry-IsAscending k v end h = (tt, tt)
insert_entry-IsAscending k v (field i w fs) h = elim (Bool-cases (text_le k i)) [
  | inl t ↦ rw t ((t, Before-trans k i fs t h.0), h)
  | inr f ↦
      rw f (
        Before-insert_entry i k v fs (text_le_total k i f) h.0,
        insert_entry-IsAscending k v fs h.1,
      )
]

pub sort_entries-IsAscending : (fs : Fields) → IsAscending (sort_entries fs)
unfolding sort_entries
sort_entries-IsAscending end = tt
sort_entries-IsAscending (field k v fs) =
    insert_entry-IsAscending k v (sort_entries fs) (sort_entries-IsAscending fs)

-- Sorting what ascends already changes nothing.
insert_entry_of_Before :
    (k : Text) (v : Json) (fs : Fields) → Before k fs → insert_entry k v fs ≡ field k v fs
unfolding insert_entry
insert_entry_of_Before k v end h = refl
insert_entry_of_Before k v (field j w fs) h = rw h.0

pub sort_entries_of_IsAscending : (fs : Fields) → IsAscending fs → sort_entries fs ≡ fs
unfolding sort_entries
sort_entries_of_IsAscending end h = refl
sort_entries_of_IsAscending (field k v fs) h =
    ap (insert_entry k v) (sort_entries_of_IsAscending fs h.1) ∙ insert_entry_of_Before k v fs h.0
