-- ===== src/Derive/Conflicts.antt =====
-- derive.rs: the dominance threshold, and rules for one domain.
use thundercrab.Prelude.{
  ℕ, ◌+◌, ◌^◌, ◌≤◌, ◌<◌, ◌≡◌, ◌≢◌, refl, sym, ap, Bool, true, List, [], ◌∷◌, map, filter, Text,
  text_eq, text_eq_iff, text_eq_refl, Bool-cases, inl, inr, arith, All,
}
use thundercrab.Prelude.Int.{ℤ, pos, negsuc, ◌≤ℤ◌, ◌<ℤ◌, ◌+ℤ◌, int_laws}
use thundercrab.Prelude.Eq.{Distinct}
use thundercrab.Rule.{MatchExpr}
use thundercrab.Derive.{derived_rule, derive_rule_candidates}
use thundercrab.Derive.Float.{F64}
use thundercrab.Derive.Sums.{FlagCount, domain_total, wrap_i64_of_small}
use thundercrab.Derive.Laws.{passes, qualifies, derive_rule_candidates-derived_rule}

abbrev pub IsCount : FlagCount → Type 0
IsCount (domain, dest, count) = pos 0 ≤ℤ count

-- The condition of the rule that a row gives.
abbrev condition : FlagCount → MatchExpr
condition row = (derived_rule row).rule.when

domain_total-nonneg :
    (d : Text) (rows : List FlagCount) → All IsCount rows → pos 0 ≤ℤ domain_total d rows
unfolding domain_total
domain_total-nonneg d [] h = omega arith
domain_total-nonneg d ((k, t, c) ∷ rows) h = elim (Bool-cases (text_eq k d)) [
  | inl e ↦ rw e (omega (int_laws, domain_total-nonneg d rows h.1))
  | inr e ↦ rw e (domain_total-nonneg d rows h.1)
]

condition-inj : (r s : FlagCount) → condition r ≡ condition s → r.0 ≡ s.0
unfolding derived_rule
condition-inj (d, t, c) (k, u, e) h = cc

module _ (f : F64) where
  open f use {F, of_i64, div, lt}

  -- A share of at most one half is below the threshold. Integers below 2^53 are exact as floats.
  abbrev pub IsMajority : F → Type 0
  IsMajority threshold =
      (c t : ℕ)
      → 0 < t
      → c + c ≤ t
      → t < 2 ^ 53
      → lt (div (of_i64 (pos c)) (of_i64 (pos t))) threshold ≡ true

module _ (f : F64) (min_observations : ℤ) where
  open f use {F}

  module _ (threshold : F) (majority : IsMajority f threshold) where
    pub passes-majority :
        (count total : ℤ)
        → pos 0 ≤ℤ count
        → pos 0 ≤ℤ total
        → total <ℤ pos (2 ^ 53)
        → passes f min_observations threshold count total ≡ true
        → total <ℤ count +ℤ count
    unfolding passes ◌+ℤ◌
    passes-majority (pos c) (pos t) h k l p = ground (arith, majority c t)
    passes-majority (negsuc c) t h k l p = absurd (omega arith)
    passes-majority (pos c) (negsuc t) h k l p = absurd (omega arith)

    module _ (all : List FlagCount) (small : (d : Text) → domain_total d all <ℤ pos (2 ^ 53))
        (counts : All IsCount all) where
      abbrev chosen : FlagCount → Bool
      chosen = qualifies f all min_observations threshold

      chosen-majority :
          (d t : Text) (c : ℤ) → pos 0 ≤ℤ c → chosen (d, t, c) ≡ true → domain_total d all <ℤ c +ℤ c
      chosen-majority d t c h p =
          passes-majority c (domain_total d all) h (domain_total-nonneg d all counts) (small d) (
            rw
              (wrap_i64_of_small (domain_total d all) (domain_total-nonneg d all counts)
                (omega (arith, small d)))
              at p)

      -- The rows behind a chosen row of the same domain are too few to be chosen as well.
      others :
          (d t : Text) (c : ℤ) (rows : List FlagCount)
          → pos 0 ≤ℤ c
          → chosen (d, t, c) ≡ true
          → All IsCount rows
          → c +ℤ domain_total d rows ≤ℤ domain_total d all
          → All (λ w. condition (d, t, c) ≢ w) (map condition (filter chosen rows))
      unfolding domain_total
      others d t c [] h p hs room = tt
      others d t c ((k, u, e) ∷ rows) h p hs room = elim (Bool-cases (text_eq k d)) [
        | inl same ↦
            let rest =
              others d t c rows h p hs.1
                (let room' = rw (same, domain_total) at room in omega (int_laws, room')) in
            elim (Bool-cases (chosen (k, u, e))) [
              | inl q ↦ absurd (
                  let room' = rw (same, domain_total) at room in
                  omega (
                    int_laws,
                    room',
                    domain_total-nonneg d rows hs.1,
                    chosen-majority d t c h p,
                    rw ((text_eq_iff k d).0 same) at (chosen-majority k u e hs.0 q),
                  ))
              | inr q ↦ rw q rest
            ]
        | inr other ↦
            let rest = others d t c rows h p hs.1 (rw (other, domain_total) at room) in
            elim (Bool-cases (chosen (k, u, e))) [
              | inl q ↦ rw q (
                λ w. cc (other, (text_eq_iff k d).1 (sym (condition-inj (d, t, c) (k, u, e) w))),
                rest,
              )
              | inr q ↦ rw q rest
            ]
      ]

      Distinct-conditions :
          (rows : List FlagCount)
          → All IsCount rows
          → ((d : Text) → domain_total d rows ≤ℤ domain_total d all)
          → Distinct (map condition (filter chosen rows))
      unfolding domain_total
      Distinct-conditions [] hs room = tt
      Distinct-conditions ((d, t, c) ∷ rows) hs room =
          let rest = Distinct-conditions rows hs.1 (λ k. elim (Bool-cases (text_eq d k)) [
            | inl e ↦ let room' = rw (e, domain_total) at (room k) in omega (int_laws, room', hs.0)
            | inr e ↦ rw (e, domain_total) at (room k)
          ]) in
          elim (Bool-cases (chosen (d, t, c))) [
            | inl q ↦ rw q (
              others d t c rows hs.0 q hs.1 (rw (text_eq_refl d, domain_total) at (room d)),
              rest,
            )
            | inr q ↦ rw q rest
          ]

conditions_of :
    (rows : List FlagCount) → map (λ d. d.rule.when) (map derived_rule rows) ≡ map condition rows
conditions_of [] = refl
conditions_of (r ∷ rows) = ap (λ l. condition r ∷ l) (conditions_of rows)

-- If counts are not negative, each domain's total is below 2^53 and the threshold is above one half
-- (a share of at most one half is below it), then no two derived rules have the same condition: at
-- most one destination is proposed for a domain.
pub derive_rule_candidates-Distinct :
    (f : F64) (rows : List FlagCount) (min_observations : ℤ) (threshold : f.F)
    → IsMajority f threshold
    → ((d : Text) → domain_total d rows <ℤ pos (2 ^ 53))
    → All IsCount rows
    → Distinct (map (λ d. d.rule.when) (derive_rule_candidates f rows min_observations threshold))
derive_rule_candidates-Distinct f rows m t majority small counts =
    rw (derive_rule_candidates-derived_rule, conditions_of)
      (Distinct-conditions f m t majority rows small counts rows counts (λ d. omega arith))
