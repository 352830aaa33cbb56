-- ===== src/Safety/Laws.antt =====
-- What `apply_suggestion` lets through, what it writes, and what its errors say.
use mathlib.Core.Path.{subst}
use thundercrab.Prelude.{◌≡◌, refl, sym, ap, ◌∙◌, All, Result, ok, err, ◌>>◌, ◌↔◌, arith}
use thundercrab.Prelude.Int.{ℤ, pos, ◌≤ℤ◌}
use thundercrab.Rule.{CrabRule, federated}
use thundercrab.Safety.{check_action, clamp, apply_suggestion}
use thundercrab.Safety.Errors.{SafetyError}
use thundercrab.Safety.Effects.{effects, IsPermitted, cause}
use thundercrab.Safety.Checks.{
  Verdict, Verdict-check_action, IsFirstForbidden, IsFirstForbidden-not_All,
}
use thundercrab.Safety.Matches.{safe_match}

-- The copy of a rule that the local store receives.
abbrev pub as_federated : CrabRule → CrabRule
as_federated rule = record rule { origin = federated; score = clamp rule.score (pos 1) (pos 49) }

clamp_bounds : (x : ℤ) → (pos 1 ≤ℤ clamp x (pos 1) (pos 49)) × (clamp x (pos 1) (pos 49) ≤ℤ pos 49)
unfolding clamp
clamp_bounds x = ground arith

clamp_in_range : (x : ℤ) → pos 1 ≤ℤ x → x ≤ℤ pos 49 → clamp x (pos 1) (pos 49) ≡ x
unfolding clamp
clamp_in_range x h k = ground arith

clamp_idem : (x : ℤ) → clamp (clamp x (pos 1) (pos 49)) (pos 1) (pos 49) ≡ clamp x (pos 1) (pos 49)
clamp_idem x = clamp_in_range (clamp x (pos 1) (pos 49)) (clamp_bounds x).0 (clamp_bounds x).1

as_federated_idem : (rule : CrabRule) → as_federated (as_federated rule) ≡ as_federated rule
as_federated_idem rule =
    ap (λ (z : ℤ). record rule { origin = federated; score = z }) (clamp_idem rule.score)

-- The match test never fails, so the action alone decides.
apply_suggestion-eq :
    (rule : CrabRule) → apply_suggestion rule ≡ (check_action rule.action >> ok (as_federated rule))
unfolding apply_suggestion
apply_suggestion-eq rule = rw (safe_match rule.when)

-- The check of an action and the rest of `apply_suggestion`, on both outcomes.
module _ (rule : CrabRule) where
  abbrev finish : Result (Unit {0}) SafetyError → Result CrabRule SafetyError
  finish r = r >> ok (as_federated rule)

  finish-ok :
      (r : Result (Unit {0}) SafetyError) (applied : CrabRule)
      → Verdict r (effects rule.action)
      → finish r ≡ ok applied
      → All IsPermitted (effects rule.action) × (as_federated rule ≡ applied)
  finish-ok (ok _) applied v e = (v, cc)
  finish-ok (err x) applied v e = cc

  finish-err :
      (r : Result (Unit {0}) SafetyError) (x : SafetyError)
      → Verdict r (effects rule.action)
      → finish r ≡ err x
      → IsFirstForbidden (effects rule.action) (cause x)
  finish-err (ok _) x v e = cc
  finish-err (err y) x v e =
      let same : y ≡ x = cc in subst (λ z. IsFirstForbidden (effects rule.action) (cause z)) same v

  finish-permitted :
      (r : Result (Unit {0}) SafetyError)
      → Verdict r (effects rule.action)
      → All IsPermitted (effects rule.action)
      → finish r ≡ ok (as_federated rule)
  finish-permitted (ok _) v h = refl
  finish-permitted (err x) v h = absurd (IsFirstForbidden-not_All v h)

-- An accepted suggestion is the given rule with `origin` set to federated and the score clamped,
-- its score lies between 1 and 49, and none of its effects, however deep in sequences, files into
-- INBOX or Important in any case or sets one of the three protected flags.
pub apply_suggestion-IsSafe :
    (rule applied : CrabRule)
    → apply_suggestion rule ≡ ok applied
    → All IsPermitted (effects applied.action)
      × (applied ≡ as_federated rule)
      × (applied.origin ≡ federated)
      × (pos 1 ≤ℤ applied.score)
      × (applied.score ≤ℤ pos 49)
apply_suggestion-IsSafe rule applied e =
    let (clean, same) =
      finish-ok rule (check_action rule.action) applied (Verdict-check_action rule.action)
        (sym (apply_suggestion-eq rule) ∙ e) in
    subst
      (λ (a : CrabRule).
        All IsPermitted (effects a.action)
        × (a ≡ as_federated rule)
        × (a.origin ≡ federated)
        × (pos 1 ≤ℤ a.score)
        × (a.score ≤ℤ pos 49))
      same (clean, refl, refl, (clamp_bounds rule.score).0, (clamp_bounds rule.score).1)

-- A suggestion is accepted exactly when all its effects are permitted; what comes out then is the
-- rule marked as federated.
pub apply_suggestion-eq-ok_iff :
    (rule : CrabRule)
    → (apply_suggestion rule ≡ ok (as_federated rule)) ↔ All IsPermitted (effects rule.action)
apply_suggestion-eq-ok_iff rule = (
  λ e.
      (finish-ok rule (check_action rule.action) (as_federated rule)
        (Verdict-check_action rule.action) (sym (apply_suggestion-eq rule) ∙ e)).0,
  λ h.
      apply_suggestion-eq rule
      ∙ finish-permitted rule (check_action rule.action) (Verdict-check_action rule.action) h,
)

-- A rejection names, below its nesting, the first forbidden effect of the action in the order in
-- which the effects would run; in particular it is never the unsafe-match error.
pub apply_suggestion-eq-err :
    (rule : CrabRule) (e : SafetyError)
    → apply_suggestion rule ≡ err e
    → IsFirstForbidden (effects rule.action) (cause e)
apply_suggestion-eq-err rule e h =
    finish-err rule (check_action rule.action) e (Verdict-check_action rule.action)
      (sym (apply_suggestion-eq rule) ∙ h)

-- Importing an accepted suggestion a second time accepts it and changes nothing.
pub apply_suggestion_idem :
    (rule applied : CrabRule)
    → apply_suggestion rule ≡ ok applied
    → apply_suggestion applied ≡ ok applied
apply_suggestion_idem rule applied h =
    let (clean, same, _, _, _) = apply_suggestion-IsSafe rule applied h in
    (apply_suggestion-eq-ok_iff applied).1 clean
    ∙ ap (λ (a : CrabRule). ok a) (ap as_federated same ∙ as_federated_idem rule ∙ sym same)
