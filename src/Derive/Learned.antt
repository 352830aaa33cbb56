-- ===== src/Derive/Learned.antt =====
-- The rules that `derive_rule_candidates` of thundercrab-suggestions/src/derive.rs makes of the counts
-- that `flag_counts_by_domain_dest` of thundercrab-core/src/db.rs gives.
pub mod Totals
mod Tests
use thundercrab.Prelude.{
  ℕ, ◌+◌, ◌^◌, ◌≤◌, ◌<◌, ◌≡◌, ◌≢◌, refl, sym, ap, ◌∙◌, Bool, true, none, Text, List, [], ◌∷◌, map,
  filter, length, ok, All, arith, Bool-cases, inl, inr,
}
use thundercrab.Prelude.Int.{ℤ, pos, ◌≤ℤ◌, ◌<ℤ◌, ◌+ℤ◌, int_laws}
use thundercrab.Prelude.Eq.{same, text_same, pair_same, Distinct, All-filter}
use thundercrab.Db.{pair_of, pair_counts, flag_counts_by_domain_dest}
use thundercrab.Db.State.{FlagRow, Db}
use thundercrab.Db.Flags.{IsCounted, pair_counts_lem}
use thundercrab.Derive.{DerivedRule, derived_rule, derive_rule_candidates}
use thundercrab.Derive.Float.{F64}
use thundercrab.Derive.Sums.{FlagCount, domain_total, wrap_i64_of_small}
use thundercrab.Derive.Laws.{
  passes, qualifies, IsFiling, derived_rule-IsFiling, derive_rule_candidates-derived_rule,
}
use thundercrab.Derive.Conflicts.{
  IsMajority, IsCount, passes-majority, derive_rule_candidates-Distinct,
}
use thundercrab.Derive.Learned.Totals.{answered, in_domain, total_le, total-eq}

-- The rule files the mail of a named domain into the destination where `n` of the flag events put it: at least as many as
-- are asked for, and more than half of the events of that domain.
pub record IsLearned (rows : List FlagRow) (min_observations : ℤ) (rule : DerivedRule)
    : Type 0 where
  pub domain : Text
  pub destination : Text
  pub n : ℕ
  pub files : IsFiling rule (domain, destination, pos n)
  pub named : domain ≢ []
  pub observed : n ≡ length (filter (λ r. same (pair_of r) (domain, destination)) rows)
  pub enough : min_observations ≤ℤ pos n
  pub most : length (filter (in_domain domain) rows) < n + n

counts-IsCount : (gs : List ((Text × Text) × ℕ)) → All IsCount (map answered gs)
counts-IsCount [] = tt
counts-IsCount (g ∷ gs) = (omega arith, counts-IsCount gs)

module _ (f : F64) (min_observations : ℤ) (threshold : f.F)
    (majority : IsMajority f threshold) where
  passes-enough :
      (count total : ℤ)
      → passes f min_observations threshold count total ≡ true
      → min_observations ≤ℤ count
  unfolding passes
  passes-enough count total h = ground arith

  module _ (rows : List FlagRow) (few : length rows < 2 ^ 53) where
    abbrev chosen : FlagCount → Bool
    chosen = qualifies f (map answered (pair_counts rows)) min_observations threshold

    group-IsLearned :
        (g : (Text × Text) × ℕ)
        → IsCounted rows g
        → chosen (answered g) ≡ true
        → IsLearned rows min_observations (derived_rule (answered g))
    group-IsLearned ((d, t), n) (counted, named, x) h =
        let m = length (filter (in_domain d) rows) in
        let total = total-eq d rows named in
        let small : pos m <ℤ pos (2 ^ 53) = rw total at (total_le d rows (2 ^ 53) few) in
        let fits = wrap_i64_of_small (pos m) (omega arith) (omega (arith, small)) in
        let passed : passes f min_observations threshold (pos n) (pos m) ≡ true =
          rw (total, fits) at h in
        let most =
          passes-majority f min_observations threshold majority (pos n) (pos m) (omega arith)
            (omega arith) small passed in
        record {
          domain = d;
          destination = t;
          n = n;
          files = derived_rule-IsFiling (d, t, pos n);
          named = named;
          observed = counted;
          enough = passes-enough (pos n) (pos m) passed;
          most = omega (int_laws, most);
        }

    groups-IsLearned :
        (gs : List ((Text × Text) × ℕ))
        → All (IsCounted rows) gs
        → All (IsLearned rows min_observations) (map derived_rule (filter chosen (map answered gs)))
    groups-IsLearned [] h = tt
    groups-IsLearned (g ∷ gs) h = elim (Bool-cases (chosen (answered g))) [
      | inl t ↦ rw t (group-IsLearned g h.0 t, groups-IsLearned gs h.1)
      | inr x ↦ rw x (groups-IsLearned gs h.1)
    ]

  -- With fewer than 2^53 flag events and a threshold above one half, the counts of the local store
  -- lead to rules with different conditions, each of which files the mail of a domain into the
  -- destination where more than half of the events of that domain, and at least as many as asked for,
  -- have put it, with score 30 and their number for evidence.
  pub derive_rule_candidates-IsLearned :
      (db : Db) (counts : List FlagCount)
      → length db.flag_events < 2 ^ 53
      → flag_counts_by_domain_dest none db ≡ ok counts
      → (let rules = derive_rule_candidates f counts min_observations threshold in
          All (IsLearned db.flag_events min_observations) rules
          × Distinct (map (λ d. d.rule.when) rules))
  unfolding flag_counts_by_domain_dest
  derive_rule_candidates-IsLearned db counts few h =
      let given : counts ≡ map answered (pair_counts db.flag_events) = cc in
      rw given (
        rw derive_rule_candidates-derived_rule (
            groups-IsLearned db.flag_events few (pair_counts db.flag_events)
              (pair_counts_lem db.flag_events).0),
        derive_rule_candidates-Distinct f (map answered (pair_counts db.flag_events))
            min_observations threshold majority (λ d. total_le d db.flag_events (2 ^ 53) few)
            (counts-IsCount (pair_counts db.flag_events)),
      )
