-- ===== src/Ledger/Store/Counts.antt =====
-- store.rs: how many installs corroborate a pattern before and after `upsert`.
use thundercrab.Prelude.{
  ◌+◌, ◌≡◌, refl, sym, ap, ◌∙◌, Bool, false, ◌&&◌, ◌||◌, none, List, [], ◌∷◌, ◌++◌, map, length,
  Bool-cases, inl, inr, arith, if◌then◌else◌, ok,
}
use mathlib.Core.Bool.{not}
use thundercrab.Prelude.Eq.{same, same_iff, text_same, pair_same, distinct}
use thundercrab.Prelude.Append.{contains, length-distinct-append}
use thundercrab.Ledger.Store.{
  Bytes, CorroborationRow, Store, key, has_key, upsert_row, upsert, members, count_public_keys,
}
use thundercrab.Ledger.Store.Rows.{keys-upsert_row}

-- The public keys beside a pattern hash.
unfoldable pub keys_for : Bytes → List (Bytes × Bytes) → List Bytes
keys_for h [] = []
keys_for h ((a, b) ∷ ks) = if same a h then b ∷ keys_for h ks else keys_for h ks

public_keys-members :
    (h : Bytes) (rows : List CorroborationRow)
    → map (λ r. r.public_key) (members h rows) ≡ keys_for h (map key rows)
unfolding members keys_for
public_keys-members h [] = refl
public_keys-members h (r ∷ rows) = elim (Bool-cases (same r.pattern_hash h)) [
  | inl t ↦ rw (t, public_keys-members h rows)
  | inr f ↦ rw (f, public_keys-members h rows)
]

keys_for-append :
    (h : Bytes) (ks : List (Bytes × Bytes)) (k : Bytes × Bytes)
    → keys_for h (ks ++ (k ∷ []))
      ≡ (if same k.0 h then keys_for h ks ++ (k.1 ∷ []) else keys_for h ks)
unfolding keys_for
keys_for-append h [] (c, d) = refl
keys_for-append h ((a, b) ∷ ks) (c, d) = ground (arith, keys_for-append h ks (c, d))

-- A key is new for its pattern exactly when the pair is new.
contains-keys_for :
    (k : Bytes × Bytes) (rows : List CorroborationRow)
    → contains k.1 (keys_for k.0 (map key rows)) ≡ has_key k rows
unfolding keys_for has_key
contains-keys_for k [] = refl
contains-keys_for k (r ∷ rows) = elim (Bool-cases (same r.pattern_hash k.0)) [
  | inl t ↦ rw t (ap (λ b. same r.public_key k.1 || b) (contains-keys_for k rows))
  | inr f ↦ rw f (contains-keys_for k rows)
]

pub count-keys_for :
    (h : Bytes) (rows : List CorroborationRow)
    → count_public_keys (members h rows) ≡ length (distinct (keys_for h (map key rows)))
unfolding count_public_keys
count-keys_for h rows = ap (λ l. length (distinct l)) (public_keys-members h rows)

length-keys_for-append :
    (h : Bytes) (ks : List (Bytes × Bytes)) (k : Bytes × Bytes)
    → contains k.1 (keys_for k.0 ks) ≡ false
    → length (distinct (keys_for h (ks ++ (k ∷ []))))
      ≡ length (distinct (keys_for h ks)) + (if same k.0 h then 1 else 0)
length-keys_for-append h ks k new = elim (Bool-cases (same k.0 h)) [
  | inl t ↦ rw (keys_for-append, t, length-distinct-append, ← (same_iff k.0 h).0 t, new) refl
  | inr f ↦ rw (keys_for-append, f) (omega arith)
]

module _ (row : CorroborationRow) (rows : List CorroborationRow) where
  -- The number of corroborators of a pattern after a submission.
  pub count_public_keys-upsert_row :
      (h : Bytes)
      → count_public_keys (members h (upsert_row row rows))
        ≡ count_public_keys (members h rows)
          + (if not (has_key (key row) rows) && same row.pattern_hash h then 1 else 0)
  count_public_keys-upsert_row h =
      count-keys_for h (upsert_row row rows) ∙ elim (Bool-cases (has_key (key row) rows)) [
        | inl t ↦ rw (keys-upsert_row row rows, t) (sym (count-keys_for h rows) ∙ omega arith)
        | inr f ↦
            rw (keys-upsert_row row rows, f)
              (length-keys_for-append h (map key rows) (key row)
                  (contains-keys_for (key row) rows ∙ f)
                ∙ ap (λ n. n + (if same row.pattern_hash h then 1 else 0))
                    (sym (count-keys_for h rows)))
      ]

-- When both statements run, `upsert` reports a new corroborator exactly when the install's key had
-- no row for the pattern; only then does the pattern's count of distinct public keys grow, by one,
-- and no other pattern's count changes.
pub upsert-counts :
    (row : CorroborationRow) (s t : Store) (new : Bool)
    → upsert none none row s ≡ ok (new, t)
    → (new ≡ not (has_key (key row) s.corroborations))
      × ((h : Bytes)
          → count_public_keys (members h t.corroborations)
            ≡ count_public_keys (members h s.corroborations)
              + (if new && same row.pattern_hash h then 1 else 0))
unfolding upsert
upsert-counts row s t new e =
    (cc, λ h. rw (← same_rows, ← same_new) (count_public_keys-upsert_row row s.corroborations h))
  where
    same_rows : upsert_row row s.corroborations ≡ t.corroborations
    same_rows = ground arith

    same_new : not (has_key (key row) s.corroborations) ≡ new
    same_new = ground arith
