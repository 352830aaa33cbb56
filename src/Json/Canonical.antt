-- ===== src/Json/Canonical.antt =====
-- Canonical JSON values, and the map that `sort_value` fills.
use thundercrab.Prelude.{◌≡◌, ◌≢◌, refl, sym, ap, ◌∙◌, Text, Bool-cases, inl, inr}
use thundercrab.Prelude.Eq.{same, same_iff, text_same}
use thundercrab.Prelude.Sql.{text_le}
use thundercrab.Json.{
  Json, Items, Fields, null, bool, number, string, array, object, nil, cons, end, field,
  insert_entry, sort_entries, map_insert, insert_all,
}
use thundercrab.Json.Ascending.{
  Lacks, HasDistinctKeys, IsAscending, sort_entries-HasDistinctKeys, sort_entries-IsAscending,
}

append_fields : Fields → Fields → Fields
append_fields end fs = fs
append_fields (field k v out) fs = field k v (append_fields out fs)

append_fields-end : (fs : Fields) → append_fields fs end ≡ fs
unfolding append_fields
append_fields-end end = refl
append_fields-end (field k v fs) = ap (field k v) (append_fields-end fs)

append_fields_assoc :
    (a : Fields) (k : Text) (v : Json) (fs : Fields)
    → append_fields (append_fields a (field k v end)) fs ≡ append_fields a (field k v fs)
unfolding append_fields
append_fields_assoc end k v fs = refl
append_fields_assoc (field j w a) k v fs = ap (field j w) (append_fields_assoc a k v fs)

map_insert_of_Lacks :
    (k : Text) (v : Json) (out : Fields)
    → Lacks k out
    → map_insert k v out ≡ append_fields out (field k v end)
unfolding map_insert append_fields
map_insert_of_Lacks k v end h = refl
map_insert_of_Lacks k v (field j w out) h = elim (Bool-cases (same j k)) [
  | inl t ↦ absurd (h.0 (sym ((same_iff j k).0 t)))
  | inr f ↦ rw f (ap (field j w) (map_insert_of_Lacks k v out h.1))
]

-- The map so far has none of the keys that are left.
abbrev Misses : Fields → Fields → Type 0
Misses out end = Unit
Misses out (field k v fs) = Lacks k out × Misses out fs

Lacks-append_fields :
    (j k : Text) (v : Json) (out : Fields)
    → Lacks j out
    → j ≢ k
    → Lacks j (append_fields out (field k v end))
unfolding append_fields
Lacks-append_fields j k v end l n = (n, tt)
Lacks-append_fields j k v (field i w out) l n = (l.0, Lacks-append_fields j k v out l.1 n)

Misses-append_fields :
    (out : Fields) (k : Text) (v : Json) (fs : Fields)
    → Misses out fs
    → Lacks k fs
    → Misses (append_fields out (field k v end)) fs
Misses-append_fields out k v end m l = tt
Misses-append_fields out k v (field j w fs) m l =
    (Lacks-append_fields j k v out m.0 (λ e. l.0 (sym e)), Misses-append_fields out k v fs m.1 l.1)

insert_all-append_fields :
    (out fs : Fields)
    → Misses out fs
    → HasDistinctKeys fs
    → insert_all out fs ≡ append_fields out fs
unfolding insert_all
insert_all-append_fields out end m h = sym (append_fields-end out)
insert_all-append_fields out (field k v fs) m h =
    ap (λ o. insert_all o fs) (map_insert_of_Lacks k v out m.0)
    ∙ insert_all-append_fields (append_fields out (field k v end)) fs
        (Misses-append_fields out k v fs m.1 h.0) h.1
    ∙ append_fields_assoc out k v fs

Misses-end : (fs : Fields) → Misses end fs
Misses-end end = tt
Misses-end (field k v fs) = (tt, Misses-end fs)

-- Filling a new map with distinct keys keeps the entries as they are.
pub insert_all_of_distinct : (fs : Fields) → HasDistinctKeys fs → insert_all end fs ≡ fs
unfolding append_fields
insert_all_of_distinct fs h = insert_all-append_fields end fs (Misses-end fs) h

-- No object at any depth has a key twice.
unfoldable mutual
  pub IsWellFormed : Json → Type 0
  IsWellFormed null = Unit
  IsWellFormed (bool b) = Unit
  IsWellFormed (number n) = Unit
  IsWellFormed (string s) = Unit
  IsWellFormed (array xs) = AreWellFormed xs
  IsWellFormed (object fs) = HasDistinctKeys fs × HaveWellFormed fs

  pub AreWellFormed : Items → Type 0
  AreWellFormed nil = Unit
  AreWellFormed (cons x xs) = IsWellFormed x × AreWellFormed xs

  pub HaveWellFormed : Fields → Type 0
  HaveWellFormed end = Unit
  HaveWellFormed (field k v fs) = IsWellFormed v × HaveWellFormed fs

-- The keys of every object at any depth are distinct and ascend.
unfoldable mutual
  pub IsCanonical : Json → Type 0
  IsCanonical null = Unit
  IsCanonical (bool b) = Unit
  IsCanonical (number n) = Unit
  IsCanonical (string s) = Unit
  IsCanonical (array xs) = AreCanonical xs
  IsCanonical (object fs) = HasDistinctKeys fs × IsAscending fs × HaveCanonical fs

  pub AreCanonical : Items → Type 0
  AreCanonical nil = Unit
  AreCanonical (cons x xs) = IsCanonical x × AreCanonical xs

  pub HaveCanonical : Fields → Type 0
  HaveCanonical end = Unit
  HaveCanonical (field k v fs) = IsCanonical v × HaveCanonical fs

insert_entry-HaveCanonical :
    (k : Text) (v : Json) (fs : Fields)
    → IsCanonical v
    → HaveCanonical fs
    → HaveCanonical (insert_entry k v fs)
unfolding insert_entry IsCanonical
insert_entry-HaveCanonical k v end c h = (c, tt)
insert_entry-HaveCanonical k v (field j w fs) c h = elim (Bool-cases (text_le k j)) [
  | inl t ↦ rw t (c, h)
  | inr f ↦ rw f (h.0, insert_entry-HaveCanonical k v fs c h.1)
]

sort_entries-HaveCanonical : (fs : Fields) → HaveCanonical fs → HaveCanonical (sort_entries fs)
unfolding sort_entries IsCanonical
sort_entries-HaveCanonical end h = tt
sort_entries-HaveCanonical (field k v fs) h =
    insert_entry-HaveCanonical k v (sort_entries fs) h.0 (sort_entries-HaveCanonical fs h.1)

pub IsCanonical-object :
    (fs : Fields)
    → HasDistinctKeys fs
    → HaveCanonical fs
    → IsCanonical (object (insert_all end (sort_entries fs)))
unfolding IsCanonical
IsCanonical-object fs d h =
    rw (insert_all_of_distinct (sort_entries fs) (sort_entries-HasDistinctKeys fs d)) (
      sort_entries-HasDistinctKeys fs d,
      sort_entries-IsAscending fs,
      sort_entries-HaveCanonical fs h,
    )
