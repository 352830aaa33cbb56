-- ===== src/Derive/Laws.antt =====
-- `derive_rule_candidates` against its description: the rows that qualify, in order.
use mathlib.Core.Bool.{not}
use thundercrab.Prelude.{◌≡◌, refl, Bool, ◌&&◌, List, [], ◌∷◌, map, filter, arith, ok, ◌↔◌, true}
use thundercrab.Prelude.Int.{ℤ, pos, ltb_ℤ, eqb_ℤ}
use thundercrab.Prelude.Sorting.{Related}
use thundercrab.Rule.{federated, from_domain_in, file_into, user}
use thundercrab.Safety.{apply_suggestion, clamp}
use thundercrab.Safety.Effects.{files, effects, IsPermitted}
use thundercrab.Safety.Laws.{apply_suggestion-eq-ok_iff}
use thundercrab.Derive.{DerivedRule, derived_rule, candidates, derive_rule_candidates}
use thundercrab.Derive.Float.{F64}
use thundercrab.Derive.Sums.{
  FlagCount, totals_of, domain_total, wrap_i64, totals_of-eq-domain_total,
}

-- The rule files the mail of the domain into the destination.
pub record IsFiling (d : DerivedRule) (row : FlagCount) : Type 0 where
  pub when : d.rule.when ≡ from_domain_in (row.0 ∷ [])
  pub action : d.rule.action ≡ file_into row.1
  pub score : d.rule.score ≡ pos 30
  pub ends : d.rule.stop_on_match ≡ true
  pub origin : d.rule.origin ≡ user
  pub evidence : d.local_evidence_count ≡ row.2

pub derived_rule-IsFiling : (row : FlagCount) → IsFiling (derived_rule row) row
unfolding derived_rule
derived_rule-IsFiling (domain, dest, count) = record {
  when = refl;
  action = refl;
  score = refl;
  ends = refl;
  origin = refl;
  evidence = refl;
}

derived-IsFiling : (rows : List FlagCount) → Related IsFiling (map derived_rule rows) rows
derived-IsFiling [] = tt
derived-IsFiling (row ∷ rows) = (derived_rule-IsFiling row, derived-IsFiling rows)

module _ (f : F64) where
  open f use {F, of_i64, div, lt}

  -- The test of a row against the total of its domain.
  unfoldable pub passes : ℤ → F → ℤ → ℤ → Bool
  passes min_observations threshold count total =
      not (ltb_ℤ count min_observations)
      && (not (eqb_ℤ total (pos 0)) && not (lt (div (of_i64 count) (of_i64 total)) threshold))

  -- A row of `rows` with enough observations whose domain total is not 0 and whose share of that
  -- total is not below the threshold.
  abbrev pub qualifies : List FlagCount → ℤ → F → FlagCount → Bool
  qualifies rows min_observations threshold (domain, dest, count) =
      passes min_observations threshold count (wrap_i64 (domain_total domain rows))

  candidates-eq :
      (all rows : List FlagCount) (min_observations : ℤ) (threshold : F)
      → candidates f (totals_of all) min_observations threshold rows
        ≡ map derived_rule (filter (qualifies all min_observations threshold) rows)
  unfolding candidates passes
  candidates-eq all [] m t = refl
  candidates-eq all ((domain, dest, count) ∷ rows) m t =
      ground (arith, totals_of-eq-domain_total domain all, candidates-eq all rows m t)

  -- The result is made of the qualifying rows alone.
  pub derive_rule_candidates-derived_rule :
      (rows : List FlagCount) (min_observations : ℤ) (threshold : F)
      → derive_rule_candidates f rows min_observations threshold
        ≡ map derived_rule (filter (qualifies rows min_observations threshold) rows)
  unfolding derive_rule_candidates
  derive_rule_candidates-derived_rule rows m t = candidates-eq rows rows m t

  -- The result holds one rule for each qualifying row, in the order of the input, and each files the
  -- mail of the row's domain into its destination with score 30 and ends the run, as a rule of the
  -- user with the row's count for evidence. A row qualifies if it has enough observations, and the
  -- 64-bit sum of the counts of its domain is not 0, and its share of that sum is not below the
  -- threshold: a share that equals the threshold qualifies.
  pub derive_rule_candidates-eq :
      (rows : List FlagCount) (min_observations : ℤ) (threshold : F)
      → Related IsFiling
          (derive_rule_candidates f rows min_observations threshold)
          (filter (qualifies rows min_observations threshold) rows)
  derive_rule_candidates-eq rows m t =
      rw (derive_rule_candidates-derived_rule rows m t)
        (derived-IsFiling (filter (qualifies rows m t) rows))

-- A derived rule passes the federated guards exactly when its destination is not protected, and then
-- only its origin changes: its score, 30, lies within the federated band.
pub derived_rule-apply_suggestion :
    (row : FlagCount)
    → (apply_suggestion (derived_rule row).rule
        ≡ ok (record (derived_rule row).rule { origin = federated }))
      ↔ IsPermitted (files row.1)
unfolding derived_rule clamp effects
derived_rule-apply_suggestion row =
    let (to, from) = apply_suggestion-eq-ok_iff (derived_rule row).rule in
    (λ e. (to e).0, λ h. from (h, tt))
