-- ===== src/Safety/Tests.antt =====
-- Runs of the safety guards, and their theorems at concrete rules.
use thundercrab.Prelude.{◌≡◌, refl, true, All, ok, err, codes, text_eq, ascii_lower, ◌↔◌}
use thundercrab.Prelude.Int.{pos, negsuc, ◌≤ℤ◌}
use thundercrab.Rule.{
  Action, has_header, file_into, set_flag, sequence, nil, cons, user, federated, CrabRule,
}
use thundercrab.Safety.{
  apply_suggestion, clamp, is_safe_match, check_action, is_protected_folder, is_protected_flag,
  eq_ignore_ascii_case,
}
use thundercrab.Safety.Errors.{protected_folder, nested}
use thundercrab.Safety.Effects.{effects, IsPermitted, cause}
use thundercrab.Safety.Checks.{IsFirstForbidden}
use thundercrab.Safety.Laws.{
  as_federated, apply_suggestion-IsSafe, apply_suggestion-eq-ok_iff, apply_suggestion-eq-err,
}

abbrev sample : Action → CrabRule
sample action = record {
  id = codes "t";
  display_name = codes "T";
  when = has_header (codes "List-Unsubscribe");
  action = action;
  score = pos 1000;
  stop_on_match = true;
  origin = user;
}

abbrev promotions : CrabRule
promotions = sample (file_into (codes "Promotions"))

abbrev promoting : CrabRule
promoting =
    sample (sequence (cons (file_into (codes "Updates")) (cons (file_into (codes "iNbOx")) nil)))

runs : Unit {0}
unfolding apply_suggestion is_safe_match check_action is_protected_folder is_protected_flag
    eq_ignore_ascii_case text_eq ascii_lower clamp
runs = tt

abbrev promotions_applied : CrabRule
promotions_applied = record promotions { origin = federated; score = pos 49 }

safe_rule_clamps_score : apply_suggestion promotions ≡ ok promotions_applied
unfolding runs
safe_rule_clamps_score = refl

nested_inbox : apply_suggestion promoting ≡ err (nested (protected_folder (codes "iNbOx")))
unfolding runs
nested_inbox = refl

clamp_negative : clamp (negsuc 9) (pos 1) (pos 49) ≡ pos 1
unfolding runs
clamp_negative = refl

-- Flags are compared exactly, so another case of a protected flag is accepted.
flag_in_lower_case :
    apply_suggestion (sample (set_flag (codes "\\flagged")))
    ≡ ok (as_federated (sample (set_flag (codes "\\flagged"))))
unfolding runs
flag_in_lower_case = refl

apply_suggestion-IsSafe_example :
    All IsPermitted (effects promotions_applied.action)
    × (promotions_applied ≡ as_federated promotions)
    × (promotions_applied.origin ≡ federated)
    × (pos 1 ≤ℤ promotions_applied.score)
    × (promotions_applied.score ≤ℤ pos 49)
apply_suggestion-IsSafe_example =
    apply_suggestion-IsSafe promotions promotions_applied safe_rule_clamps_score

apply_suggestion-eq-ok_iff_example :
    (apply_suggestion promoting ≡ ok (as_federated promoting))
    ↔ All IsPermitted (effects promoting.action)
apply_suggestion-eq-ok_iff_example = apply_suggestion-eq-ok_iff promoting

apply_suggestion-eq-err_example :
    IsFirstForbidden (effects promoting.action) (cause (nested (protected_folder (codes "iNbOx"))))
apply_suggestion-eq-err_example =
    apply_suggestion-eq-err promoting (nested (protected_folder (codes "iNbOx"))) nested_inbox
