-- ===== src/Rule.antt =====
-- thundercrab-core/src/crab_rule.rs: the rule schema. A list of sub-expressions or of actions is
-- a type of its own, since it stands inside the type that it holds.
use thundercrab.Prelude.{Bool, List, Text}
use thundercrab.Prelude.Int.{ℤ}

mutual
  pub data MatchExpr : Type 0 where
    always : MatchExpr
    header_contains : (header substring : Text) → MatchExpr
    has_header : (header : Text) → MatchExpr
    from_domain_in : (domains : List Text) → MatchExpr
    subject_contains_any : (needles : List Text) → MatchExpr
    all : (exprs : MatchExprs) → MatchExpr
    any : (exprs : MatchExprs) → MatchExpr
    not : (expr : MatchExpr) → MatchExpr

  pub data MatchExprs : Type 0 where
    nil : MatchExprs
    cons : MatchExpr → MatchExprs → MatchExprs

mutual
  pub data Action : Type 0 where
    file_into : (folder : Text) → Action
    set_flag : (flag : Text) → Action
    sequence : (actions : Actions) → Action

  pub data Actions : Type 0 where
    nil : Actions
    cons : Action → Actions → Actions

pub data RuleOrigin : Type 0 where
  user platform federated : RuleOrigin

pub record CrabRule : Type 0 where
  pub id : Text
  pub display_name : Text
  pub when : MatchExpr
  pub action : Action
  pub score : ℤ
  pub stop_on_match : Bool
  pub origin : RuleOrigin
