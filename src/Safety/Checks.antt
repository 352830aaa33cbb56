-- ===== src/Safety/Checks.antt =====
-- `check_action` of safety.rs against the list of effects.
use mathlib.Core.List.{append_assoc}
use thundercrab.Prelude.{
  ◌≡◌, refl, some, List, [], ◌∷◌, ◌++◌, map, Text, codes, text_eq_iff, ascii_lower, arith, inl, inr,
  Bool-cases, true, false, All, All-append, All-append_inv, Result, ok, err, Option,
}
use thundercrab.Rule.{Action, Actions, file_into, set_flag, sequence, nil, cons}
use thundercrab.Safety.{
  is_protected_folder, is_protected_flag, eq_ignore_ascii_case, check_action, check_actions,
}
use thundercrab.Safety.Errors.{SafetyError, nested}
use thundercrab.Safety.Effects.{Effect, files, flags, effects, effects_of, IsPermitted, cause}

-- `reported` is the first forbidden effect of the list.
pub record IsFirstForbidden (l : List Effect) (reported : Option Effect) : Type 0 where
  pub before : List Effect
  pub bad : Effect
  pub after : List Effect
  pub split : l ≡ before ++ (bad ∷ after)
  pub clean : All IsPermitted before
  pub forbidden : ¬ (IsPermitted bad)
  pub named : reported ≡ some bad

closed_folder : (f : Text) → is_protected_folder f ≡ true → ¬ (IsPermitted (files f))
unfolding is_protected_folder eq_ignore_ascii_case ascii_lower
closed_folder f h p = ground (
  arith,
  text_eq_iff (codes "inbox") (map ascii_lower f),
  text_eq_iff (codes "important") (map ascii_lower f),
)

open_folder : (f : Text) → is_protected_folder f ≡ false → IsPermitted (files f)
unfolding is_protected_folder eq_ignore_ascii_case ascii_lower
open_folder f h = ground (
  arith,
  text_eq_iff (codes "inbox") (map ascii_lower f),
  text_eq_iff (codes "important") (map ascii_lower f),
)

closed_flag : (f : Text) → is_protected_flag f ≡ true → ¬ (IsPermitted (flags f))
unfolding is_protected_flag
closed_flag f h p = ground (
  arith,
  text_eq_iff (codes "\\Flagged") f,
  text_eq_iff (codes "$Important") f,
  text_eq_iff (codes "$Label1") f,
)

open_flag : (f : Text) → is_protected_flag f ≡ false → IsPermitted (flags f)
unfolding is_protected_flag
open_flag f h = ground (
  arith,
  text_eq_iff (codes "\\Flagged") f,
  text_eq_iff (codes "$Important") f,
  text_eq_iff (codes "$Label1") f,
)

IsFirstForbidden-append :
    (l r : List Effect) (o : Option Effect) → IsFirstForbidden l o → IsFirstForbidden (l ++ r) o
IsFirstForbidden-append l r o w = record {
  before = w.before;
  bad = w.bad;
  after = w.after ++ r;
  split = rw (w.split, append_assoc);
  clean = w.clean;
  forbidden = w.forbidden;
  named = w.named;
}

IsFirstForbidden-after :
    (l r : List Effect) (o : Option Effect)
    → All IsPermitted l
    → IsFirstForbidden r o
    → IsFirstForbidden (l ++ r) o
IsFirstForbidden-after l r o h w = record {
  before = l ++ w.before;
  bad = w.bad;
  after = w.after;
  split = rw (w.split, append_assoc);
  clean = All-append IsPermitted l w.before h w.clean;
  forbidden = w.forbidden;
  named = w.named;
}

IsFirstForbidden-one : (x : Effect) → ¬ (IsPermitted x) → IsFirstForbidden (x ∷ []) (some x)
IsFirstForbidden-one x h = record {
  before = [];
  bad = x;
  after = [];
  split = refl;
  clean = tt;
  forbidden = h;
  named = refl;
}

-- A list with a forbidden effect is not permitted throughout.
pub IsFirstForbidden-not_All :
    {l : List Effect} {o : Option Effect} → IsFirstForbidden l o → All IsPermitted l → ⊥
IsFirstForbidden-not_All w h =
    w.forbidden (All-append_inv IsPermitted w.before (w.bad ∷ w.after) (rw w.split at h)).1.0

-- What the check of an action with these effects returns.
abbrev pub Verdict : Result (Unit {0}) SafetyError → List Effect → Type 0
Verdict (ok _) l = All IsPermitted l
Verdict (err e) l = IsFirstForbidden l (cause e)

Verdict-folder : (f : Text) → Verdict (check_action (file_into f)) (files f ∷ [])
unfolding check_action cause
Verdict-folder f = elim (Bool-cases (is_protected_folder f)) [
  | inl h ↦ rw h (IsFirstForbidden-one (files f) (closed_folder f h))
  | inr h ↦ rw h (open_folder f h, tt)
]

Verdict-flag : (f : Text) → Verdict (check_action (set_flag f)) (flags f ∷ [])
unfolding check_action cause
Verdict-flag f = elim (Bool-cases (is_protected_flag f)) [
  | inl h ↦ rw h (IsFirstForbidden-one (flags f) (closed_flag f h))
  | inr h ↦ rw h (open_flag f h, tt)
]

abbrev then_rest : Result (Unit {0}) SafetyError → Actions → Result (Unit {0}) SafetyError
then_rest r rest = elim r [ ok _ ↦ check_actions rest | err e ↦ err (nested e) ]

Verdict-cons :
    (r : Result (Unit {0}) SafetyError) (l : List Effect) (rest : Actions)
    → Verdict r l
    → Verdict (check_actions rest) (effects_of rest)
    → Verdict (then_rest r rest) (l ++ effects_of rest)
unfolding cause
Verdict-cons (err e) l rest h _ = IsFirstForbidden-append l (effects_of rest) (cause e) h
Verdict-cons (ok _) l rest h k = after (check_actions rest) k
  where
    after :
        (q : Result (Unit {0}) SafetyError)
        → Verdict q (effects_of rest)
        → Verdict q (l ++ effects_of rest)
    after (ok _) k' = All-append IsPermitted l (effects_of rest) h k'
    after (err e) k' = IsFirstForbidden-after l (effects_of rest) (cause e) h k'

mutual
  unfolding check_action effects

  pub Verdict-check_action : (a : Action) → Verdict (check_action a) (effects a)
  Verdict-check_action (file_into f) = Verdict-folder f
  Verdict-check_action (set_flag f) = Verdict-flag f
  Verdict-check_action (sequence actions) = Verdict-check_actions actions

  Verdict-check_actions : (list : Actions) → Verdict (check_actions list) (effects_of list)
  Verdict-check_actions nil = tt
  Verdict-check_actions (cons a rest) =
      Verdict-cons (check_action a) (effects a) rest (Verdict-check_action a)
        (Verdict-check_actions rest)
