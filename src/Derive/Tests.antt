-- ===== src/Derive/Tests.antt =====
-- Runs of the derivation over fractions, and its theorems at concrete counts.
use thundercrab.Prelude.{
  ℕ, ◌*◌, ◌^◌, ◌≡◌, refl, List, [], ◌∷◌, map, filter, Text, codes, text_eq, ascii_lower,
  is_ascii_alphanumeric, arith, ltb, ◌↔◌, ok,
}
use thundercrab.Prelude.Int.{pos, pos_part, ◌<ℤ◌, ◌+ℤ◌}
use thundercrab.Rule.{federated, file_into}
use thundercrab.Safety.{apply_suggestion}
use thundercrab.Safety.Effects.{files, IsPermitted}
use thundercrab.Derive.{
  sanitize_char, sanitize_id, derived_rule, candidates, derive_rule_candidates,
}
use thundercrab.Derive.Float.{F64}
use thundercrab.Derive.Sums.{FlagCount, get, entry_add, totals_of, domain_total, wrap_i64}
use thundercrab.Prelude.Sorting.{Related}
use thundercrab.Derive.Laws.{
  IsFiling, qualifies, derive_rule_candidates-eq, derived_rule-apply_suggestion,
}
use thundercrab.Derive.Conflicts.{IsMajority}

-- Fractions of natural numbers, for counts that are not negative.
abbrev pub fractions : F64
fractions = record {
  F = ℕ × ℕ;
  of_i64 = λ z. (pos_part z, 1);
  div = λ p q. (p.0 * q.1, p.1 * q.0);
  lt = λ p q. ltb (p.0 * q.1) (q.0 * p.1);
}

runs : Unit {0}
unfolding derive_rule_candidates candidates derived_rule sanitize_id sanitize_char totals_of get
    wrap_i64 ◌+ℤ◌ text_eq ascii_lower is_ascii_alphanumeric domain_total entry_add
runs = tt

abbrev clear_signal : List FlagCount
clear_signal =
    (codes "@clear.com", codes "Promotions", pos 9)
    ∷ (codes "@clear.com", codes "Updates", pos 1)
    ∷ []

abbrev mixed_signal : List FlagCount
mixed_signal = (codes "@ambig.com", codes "A", pos 4) ∷ (codes "@ambig.com", codes "B", pos 6) ∷ []

dominance_filters_mixed_signal : derive_rule_candidates fractions mixed_signal (pos 3) (7, 10) ≡ []
unfolding runs
dominance_filters_mixed_signal = refl

clear_signal_produces_rule :
    derive_rule_candidates fractions clear_signal (pos 3) (7, 10)
    ≡ derived_rule (codes "@clear.com", codes "Promotions", pos 9) ∷ []
unfolding runs
clear_signal_produces_rule = refl

clear_signal_id :
    (derived_rule (codes "@clear.com", codes "Promotions", pos 9)).rule.id
    ≡ codes "derived__clear_com_to_promotions"
unfolding runs
clear_signal_id = refl

-- Ten events of which seven went to one destination.
abbrev exact_share : List FlagCount
exact_share = (codes "@a.com", codes "A", pos 7) ∷ (codes "@a.com", codes "B", pos 3) ∷ []

share_at_the_threshold :
    map (λ d. d.rule.action) (derive_rule_candidates fractions exact_share (pos 3) (7, 10))
    ≡ file_into (codes "A") ∷ []
unfolding runs
share_at_the_threshold = refl

derive_rule_candidates-eq_example :
    Related IsFiling
      (derive_rule_candidates fractions mixed_signal (pos 3) (1, 2))
      (filter (qualifies fractions mixed_signal (pos 3) (1, 2)) mixed_signal)
derive_rule_candidates-eq_example = derive_rule_candidates-eq fractions mixed_signal (pos 3) (1, 2)

derived_rule-apply_suggestion_example :
    (apply_suggestion (derived_rule (codes "@x.com", codes "Updates", pos 5)).rule
      ≡ ok (record (derived_rule (codes "@x.com", codes "Updates", pos 5)).rule {
        origin = federated;
      }))
    ↔ IsPermitted (files (codes "Updates"))
derived_rule-apply_suggestion_example =
    derived_rule-apply_suggestion (codes "@x.com", codes "Updates", pos 5)

pub seven_tenths-IsMajority : IsMajority fractions (7, 10)
seven_tenths-IsMajority c t h k l = ground arith

clear_signal-total : (d : Text) → domain_total d clear_signal <ℤ pos (2 ^ 53)
unfolding domain_total ◌+ℤ◌
clear_signal-total d = ground arith
