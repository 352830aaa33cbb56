-- ===== src/Derive/Learned/Tests.antt =====
-- A learned rule at concrete events.
use thundercrab.Prelude.{
  ◌≡◌, refl, false, none, Text, codes, text_eq, List, [], ◌∷◌, map, ok, All, arith,
}
use thundercrab.Prelude.Int.{pos}
use thundercrab.Prelude.Eq.{distinct, Distinct}
use thundercrab.Prelude.Sorting.{sort_by}
use thundercrab.Db.{count_pair, pair_counts, flag_counts_by_domain_dest}
use thundercrab.Db.State.{FlagRow, Db}
use thundercrab.Derive.{derive_rule_candidates}
use thundercrab.Derive.Sums.{FlagCount}
use thundercrab.Derive.Tests.{fractions, seven_tenths-IsMajority}
use thundercrab.Derive.Learned.{IsLearned, derive_rule_candidates-IsLearned}

abbrev moved : Text → Text → FlagRow
moved hash destination = record {
  message_hash = hash;
  source = codes "manual_move";
  destination = destination;
  from_domain_with_at = codes "@a";
  list_id = none;
  has_list_unsubscribe = false;
  subject_tokens_json = [];
  priority_high = false;
  observed_at = pos 5;
}

abbrev db : Db
db = record {
  versions = [];
  rules = [];
  flag_events =
      moved (codes "1") (codes "Updates")
      ∷ moved (codes "2") (codes "Updates")
      ∷ moved (codes "3") (codes "Updates")
      ∷ moved (codes "4") (codes "Other")
      ∷ [];
}

abbrev counts : List FlagCount
counts = (codes "@a", codes "Updates", pos 3) ∷ (codes "@a", codes "Other", pos 1) ∷ []

counted : flag_counts_by_domain_dest none db ≡ ok counts
unfolding flag_counts_by_domain_dest pair_counts count_pair sort_by distinct text_eq
counted = refl

derive_rule_candidates-IsLearned_example :
    (let rules = derive_rule_candidates fractions counts (pos 3) (7, 10) in
      All (IsLearned db.flag_events (pos 3)) rules × Distinct (map (λ d. d.rule.when) rules))
derive_rule_candidates-IsLearned_example =
    derive_rule_candidates-IsLearned fractions (pos 3) (7, 10) seven_tenths-IsMajority db counts
      (omega arith) counted
