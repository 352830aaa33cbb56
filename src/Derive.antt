-- ===== src/Derive.antt =====
-- thundercrab-suggestions/src/derive.rs: candidate rules from the counts of flag events.
pub mod Float
pub mod Sums
pub mod Ids
pub mod Laws
pub mod Conflicts
pub mod Learned
mod Tests
use thundercrab.Prelude.{
  ℕ, Bool, true, List, [], ◌∷◌, ◌++◌, map, Text, codes, text_eq, ascii_lower, is_ascii_alphanumeric,
  Option, none, some, if◌then◌else◌,
}
use thundercrab.Prelude.Int.{ℤ, pos, ltb_ℤ, eqb_ℤ}
use thundercrab.Rule.{from_domain_in, file_into, user, CrabRule}
use thundercrab.Derive.Float.{F64}
use thundercrab.Derive.Sums.{Totals, FlagCount, get, unwrap_or, totals_of}

pub record DerivedRule : Type 0 where
  pub rule : CrabRule
  pub local_evidence_count : ℤ

-- One character of `sanitize_id`.
unfoldable pub sanitize_char : ℕ → ℕ
sanitize_char c = if is_ascii_alphanumeric c then ascii_lower c else b'_'

unfoldable pub sanitize_id : Text → Text
sanitize_id s = map sanitize_char s

-- The rule that the loop pushes for a row.
unfoldable pub derived_rule : FlagCount → DerivedRule
derived_rule (domain, dest, count) = record {
  rule = record {
    id = codes "derived_" ++ (sanitize_id domain ++ (codes "_to_" ++ sanitize_id dest));
    display_name = dest ++ (codes " (derived from " ++ (domain ++ codes ")"));
    when = from_domain_in (domain ∷ []);
    action = file_into dest;
    score = pos 30;
    stop_on_match = true;
    origin = user;
  };
  local_evidence_count = count;
}

module _ (f : F64) where
  open f use {F, of_i64, div, lt}

  -- The second loop. `totals` is complete when it starts.
  unfoldable pub candidates : Totals → ℤ → F → List FlagCount → List DerivedRule
  candidates totals min_observations dominance_threshold [] = []
  candidates totals min_observations dominance_threshold ((domain, dest, count) ∷ rows) =
      let rest = candidates totals min_observations dominance_threshold rows in
      let total = unwrap_or (get domain totals) (pos 0) in
      if ltb_ℤ count min_observations
      then rest
      else if eqb_ℤ total (pos 0)
      then rest
      else if lt (div (of_i64 count) (of_i64 total)) dominance_threshold
      then rest
      else derived_rule (domain, dest, count) ∷ rest

  unfoldable pub derive_rule_candidates : List FlagCount → ℤ → F → List DerivedRule
  derive_rule_candidates flag_counts min_observations dominance_threshold =
      candidates (totals_of flag_counts) min_observations dominance_threshold flag_counts
