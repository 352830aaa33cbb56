-- ===== src/Db/Schema.antt =====
-- `init` of db.rs: the version check of an existing file.
use thundercrab.Prelude.{
  ◌≡◌, refl, ap, ◌∙◌, false, List, [], ◌∷◌, ◌++◌, ok, err, Option, none, some, arith, Bool-cases,
  inl, inr, ◌⊎◌,
}
use thundercrab.Prelude.Int.{ℤ, pos, negsuc, ltb_ℤ, ◌<ℤ◌, ◌≤ℤ◌}
use thundercrab.Db.{greater, max_version, unwrap_or, init}
use thundercrab.Db.State.{schema_too_new, Db}

-- The version that `init` finds.
abbrev pub version_of : Db → ℤ
version_of db = unwrap_or (max_version db.versions) (pos 0)

-- No version reaches 1.
abbrev Below : Option ℤ → Type 0
Below none = Unit
Below (some m) = m <ℤ pos 1

Below-greater : (v : ℤ) (o : Option ℤ) → Below (greater v o) → (v <ℤ pos 1) × Below o
Below-greater v none h = (h, tt)
Below-greater v (some m) h = ground (arith, h)

greater_one : (v : ℤ) → v <ℤ pos 1 → greater v (some (pos 1)) ≡ some (pos 1)
greater_one v h = ground arith

-- Recording the supported version in a file with older ones makes it the greatest.
max_version-append :
    (vs : List ℤ) → Below (max_version vs) → max_version (vs ++ (pos 1 ∷ [])) ≡ some (pos 1)
unfolding max_version
max_version-append [] h = refl
max_version-append (v ∷ vs) h =
    let (low, rest) = Below-greater v (max_version vs) h in
    ap (greater v) (max_version-append vs rest) ∙ greater_one v low

Below-unwrap_or : (o : Option ℤ) → unwrap_or o (pos 0) <ℤ pos 1 → Below o
Below-unwrap_or none h = tt
Below-unwrap_or (some m) h = h

same_version : (v : ℤ) → ltb_ℤ (pos 1) v ≡ false → ltb_ℤ v (pos 1) ≡ false → v ≡ pos 1
same_version (pos n) h k = ap pos (ground arith)
same_version (negsuc n) h k = ground arith

-- When its statements run, `init` refuses a file exactly when the file's version is above 1, with that
-- version in the error. Otherwise it succeeds, the file has version 1, rules and events are as they
-- were, and a second `init` changes nothing.
pub init_lem :
    (db : Db)
    → (pos 1 <ℤ version_of db) × (init none none db ≡ err (schema_too_new (version_of db) (pos 1)))
      ⊎ ((t : Db) × (version_of db ≤ℤ pos 1)
          × (init none none db ≡ ok t)
          × (version_of t ≡ pos 1)
          × (t.rules ≡ db.rules)
          × (t.flag_events ≡ db.flag_events)
          × (init none none t ≡ ok t))
unfolding init
init_lem db = elim (Bool-cases (ltb_ℤ (pos 1) (version_of db))) [
  | inl t ↦ inl (ground arith, rw t refl)
  | inr f ↦ elim (Bool-cases (ltb_ℤ (version_of db) (pos 1))) [
    | inl old ↦
        let next : Db = record db { versions = db.versions ++ (pos 1 ∷ []) } in
        let known : version_of next ≡ pos 1 =
          ap (λ o. unwrap_or o (pos 0))
            (max_version-append db.versions
              (Below-unwrap_or (max_version db.versions) (ground arith))) in
        inr (next, ground arith, rw (f, old) refl, known, refl, refl, rw known refl)
    | inr new ↦ inr (
      db,
      ground arith,
      rw (f, new) refl,
      same_version (version_of db) f new,
      refl,
      refl,
      rw (f, new) refl,
    )
  ]
]
