-- ===== src/Safety.antt =====
-- thundercrab-suggestions/src/safety.rs: the guards that a federated suggestion passes through.
pub mod Errors
pub mod Effects
mod Checks
mod Matches
pub mod Laws
mod Tests
use thundercrab.Prelude.{
  Bool, true, ◌&&◌, List, [], ◌∷◌, map, Text, codes, text_eq, ascii_lower, any, Result, ok, err,
  if◌then◌else◌, ◌>>◌,
}
use thundercrab.Prelude.Int.{ℤ, pos, ltb_ℤ}
use thundercrab.Rule
use thundercrab.Rule.{
  MatchExpr, MatchExprs, Action, Actions, always, header_contains, has_header, from_domain_in,
  subject_contains_any, all, not, file_into, set_flag, sequence, nil, cons, federated, CrabRule,
}
use thundercrab.Safety.Errors.{SafetyError, unsafe_match, protected_folder, protected_flag, nested}

abbrev pub protected_folders : List Text
protected_folders = codes "INBOX" ∷ codes "Inbox" ∷ codes "Important" ∷ []

abbrev pub protected_flags : List Text
protected_flags = codes "\\Flagged" ∷ codes "$Important" ∷ codes "$Label1" ∷ []

-- `str::eq_ignore_ascii_case`
unfoldable pub eq_ignore_ascii_case : Text → Text → Bool
eq_ignore_ascii_case a b = text_eq (map ascii_lower a) (map ascii_lower b)

unfoldable mutual
  pub is_safe_match : MatchExpr → Bool
  is_safe_match always = true
  is_safe_match (header_contains header substring) = true
  is_safe_match (has_header header) = true
  is_safe_match (from_domain_in domains) = true
  is_safe_match (subject_contains_any needles) = true
  is_safe_match (all exprs) = are_safe_matches exprs
  is_safe_match (MatchExpr.any exprs) = are_safe_matches exprs
  is_safe_match (not expr) = is_safe_match expr

  -- `exprs.iter().all(is_safe_match)`
  pub are_safe_matches : MatchExprs → Bool
  are_safe_matches nil = true
  are_safe_matches (cons expr exprs) = is_safe_match expr && are_safe_matches exprs

unfoldable pub is_protected_folder : Text → Bool
is_protected_folder folder = any (λ p. eq_ignore_ascii_case p folder) protected_folders

unfoldable pub is_protected_flag : Text → Bool
is_protected_flag flag = any (λ p. text_eq p flag) protected_flags

unfoldable mutual
  pub check_action : Action → Result (Unit {0}) SafetyError
  check_action (file_into folder) =
      if is_protected_folder folder then err (protected_folder folder) else ok tt
  check_action (set_flag flag) = if is_protected_flag flag then err (protected_flag flag) else ok tt
  check_action (sequence actions) = check_actions actions

  -- The loop over a sequence: it stops at the first failure, which it wraps.
  pub check_actions : Actions → Result (Unit {0}) SafetyError
  check_actions nil = ok tt
  check_actions (cons inner rest) = elim (check_action inner) [
    | ok _ ↦ check_actions rest
    | err e ↦ err (nested e)
  ]

-- `Ord::clamp`
unfoldable pub clamp : ℤ → ℤ → ℤ → ℤ
clamp x lo hi = if ltb_ℤ x lo then lo else if ltb_ℤ hi x then hi else x

unfoldable pub apply_suggestion : CrabRule → Result CrabRule SafetyError
apply_suggestion rule =
    if is_safe_match rule.when
    then (check_action rule.action
        >> ok (record rule { origin = federated; score = clamp rule.score (pos 1) (pos 49) }))
    else err unsafe_match
