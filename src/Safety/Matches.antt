-- ===== src/Safety/Matches.antt =====
-- `is_safe_match` of safety.rs over the schema of crab_rule.rs.
use thundercrab.Prelude.{◌≡◌, refl, true}
use thundercrab.Rule.{
  MatchExpr, MatchExprs, always, header_contains, has_header, from_domain_in, subject_contains_any,
  all, not, nil, cons,
}
use thundercrab.Safety.{is_safe_match, are_safe_matches}

mutual
  unfolding is_safe_match

  pub safe_match : (e : MatchExpr) → is_safe_match e ≡ true
  safe_match always = refl
  safe_match (header_contains h s) = refl
  safe_match (has_header h) = refl
  safe_match (from_domain_in d) = refl
  safe_match (subject_contains_any n) = refl
  safe_match (all exprs) = safe_matches exprs
  safe_match (MatchExpr.any exprs) = safe_matches exprs
  safe_match (not e) = safe_match e

  safe_matches : (es : MatchExprs) → are_safe_matches es ≡ true
  safe_matches nil = refl
  safe_matches (cons e es) = cc (safe_match e, safe_matches es)
