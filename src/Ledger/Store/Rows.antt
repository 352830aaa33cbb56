-- ===== src/Ledger/Store/Rows.antt =====
-- The table of store.rs as a map from its primary key.
use mathlib.Core.Path.{subst}
use thundercrab.Prelude.{
  ◌≡◌, refl, sym, ap, ◌∙◌, false, ◌||◌, Option, none, some, List, [], ◌∷◌, ◌++◌, map, Bool-cases,
  inl, inr, if◌then◌else◌, ◌≢◌, ◌⊎◌, true, arith, Option-cases,
}
use thundercrab.Prelude.Int.{◌≤ℤ◌, leb_ℤ}
use thundercrab.Prelude.Eq.{same, same_iff, same_refl, text_same, pair_same, Distinct}
use thundercrab.Prelude.Append.{contains, cons-if, Distinct-append}
use thundercrab.Ledger.Store.{Bytes, CorroborationRow, key, has_key, on_conflict, upsert_row}

-- The row of a key.
unfoldable pub find_row : Bytes × Bytes → List CorroborationRow → Option CorroborationRow
find_row k [] = none
find_row k (r ∷ rows) = if same (key r) k then some r else find_row k rows

-- What a submission leaves under its key.
abbrev pub merged : Option CorroborationRow → CorroborationRow → CorroborationRow
merged none row = row
merged (some old) row = on_conflict old row

-- What a submission leaves under its key if a row stood there.
pub record IsRenewed (old row : CorroborationRow) (after : Option CorroborationRow) : Type 0 where
  pub now : CorroborationRow
  pub found : after ≡ some now
  pub hash : now.pattern_hash ≡ row.pattern_hash
  pub public : now.public_key ≡ row.public_key
  pub signature : now.signature ≡ row.signature
  pub body : now.rule_json ≡ row.rule_json
  pub not_after_old : now.submitted_day ≤ℤ old.submitted_day
  pub not_after_row : now.submitted_day ≤ℤ row.submitted_day
  pub one_of_them :
      (now.submitted_day ≡ old.submitted_day) ⊎ (now.submitted_day ≡ row.submitted_day)

-- What a submission makes of what stood under its key before.
abbrev pub IsUpserted :
    Option CorroborationRow → CorroborationRow → Option CorroborationRow → Type 0
IsUpserted none row after = after ≡ some row
IsUpserted (some old) row after = IsRenewed old row after

find_row-key :
    (k : Bytes × Bytes) (rows : List CorroborationRow) (r : CorroborationRow)
    → find_row k rows ≡ some r
    → key r ≡ k
unfolding find_row
find_row-key k [] r h = absurd (ground arith)
find_row-key k (x ∷ rows) r h = elim (Bool-cases (same (key x) k)) [
  | inl t ↦
      let e : some x ≡ some r = rw t at h in
      let same_row : x ≡ r = ground arith in ap key (sym same_row) ∙ (same_iff (key x) k).0 t
  | inr f ↦ let rest = rw f at h in find_row-key k rows r rest
]

module _ (row : CorroborationRow) where
  find_row-upsert_row_self :
      (rows : List CorroborationRow)
      → find_row (key row) (upsert_row row rows) ≡ some (merged (find_row (key row) rows) row)
  unfolding find_row upsert_row
  find_row-upsert_row_self [] = rw (same_refl (key row))
  find_row-upsert_row_self (r ∷ rows) = elim (Bool-cases (same (key r) (key row))) [
    | inl t ↦ rw (t, t)
    | inr f ↦ rw (f, f) (find_row-upsert_row_self rows)
  ]

  -- The keys of the table after a submission.
  pub keys-upsert_row :
      (rows : List CorroborationRow)
      → map key (upsert_row row rows)
        ≡ (if has_key (key row) rows then map key rows else map key rows ++ (key row ∷ []))
  unfolding upsert_row has_key
  keys-upsert_row [] = refl
  keys-upsert_row (r ∷ rows) = elim (Bool-cases (same (key r) (key row))) [
    | inl t ↦ rw t
    | inr f ↦ rw f (
        ap (λ l. key r ∷ l) (keys-upsert_row rows)
        ∙ cons-if (has_key (key row) rows) (key r) (map key rows) (map key rows ++ (key row ∷ [])))
  ]

  find_row-upsert_row_ne :
      (k : Bytes × Bytes) (rows : List CorroborationRow)
      → same (key row) k ≡ false
      → find_row k (upsert_row row rows) ≡ find_row k rows
  unfolding find_row upsert_row
  find_row-upsert_row_ne k [] h = rw h
  find_row-upsert_row_ne k (r ∷ rows) h = elim (Bool-cases (same (key r) (key row))) [
    | inl t ↦ rw (t, subst (λ z. same z k ≡ false) (sym ((same_iff (key r) (key row)).0 t)) h)
    | inr f ↦
        rw f (ap (λ o. if same (key r) k then some r else o) (find_row-upsert_row_ne k rows h))
  ]

  on_conflict-IsUpserted :
      (old : CorroborationRow)
      → key old ≡ key row
      → IsUpserted (some old) row (some (on_conflict old row))
  on_conflict-IsUpserted old e = record {
    now = on_conflict old row;
    found = refl;
    hash = ap (λ k. k.0) e;
    public = ap (λ k. k.1) e;
    signature = refl;
    body = refl;
    not_after_old = ground arith;
    not_after_row = ground arith;
    one_of_them = elim (Bool-cases (leb_ℤ old.submitted_day row.submitted_day)) [
      | inl t ↦ inl (rw t)
      | inr f ↦ inr (rw f)
    ];
  }

  merged-IsUpserted :
      (rows : List CorroborationRow)
      → IsUpserted (find_row (key row) rows) row (some (merged (find_row (key row) rows) row))
  merged-IsUpserted rows = elim (Option-cases (find_row (key row) rows)) [
    | inl e ↦ rw e refl
    | inr (old, e) ↦ rw e (on_conflict-IsUpserted old (find_row-key (key row) rows old e))
  ]

  -- A submission changes the row of its own key alone. A new key gets the submitted row; under a known
  -- key stands one row of this key with the new signature and rule body, whose day is the day of the
  -- old row or of the submitted one and after neither.
  pub find_row-upsert_row :
      (k : Bytes × Bytes) (rows : List CorroborationRow)
      → ((k ≡ key row) × IsUpserted (find_row k rows) row (find_row k (upsert_row row rows)))
        ⊎ ((k ≢ key row) × (find_row k (upsert_row row rows) ≡ find_row k rows))
  find_row-upsert_row k rows = elim (Bool-cases (same (key row) k)) [
    | inl t ↦
        let e : k ≡ key row = sym ((same_iff (key row) k).0 t) in
        inl (e, rw (e, find_row-upsert_row_self rows) (merged-IsUpserted rows))
    | inr f ↦ inr (
      (λ e. absurd (differs (sym ((same_iff (key row) k).1 (sym e)) ∙ f))),
      find_row-upsert_row_ne k rows f,
    )
  ]
    where
      differs : true ≡ false → ⊥
      differs h = ground arith

pub has_key-contains :
    (k : Bytes × Bytes) (rows : List CorroborationRow) → contains k (map key rows) ≡ has_key k rows
unfolding has_key
has_key-contains k [] = refl
has_key-contains k (r ∷ rows) = ap (λ b. same (key r) k || b) (has_key-contains k rows)

-- The primary key stays unique under every submission.
pub upsert_row-Distinct :
    (row : CorroborationRow) (rows : List CorroborationRow)
    → Distinct (map key rows)
    → Distinct (map key (upsert_row row rows))
upsert_row-Distinct row rows h = elim (Bool-cases (has_key (key row) rows)) [
  | inl t ↦ rw (keys-upsert_row row rows, t) h
  | inr f ↦
      rw (keys-upsert_row row rows, f)
        (Distinct-append (map key rows) (key row) h (has_key-contains (key row) rows ∙ f))
]
