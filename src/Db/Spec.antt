-- ===== src/Db/Spec.antt =====
-- What the rule table promises: a finite map from ids to rules, read in the order of evaluation.
use mathlib.Core.Bool.{not}
use thundercrab.Prelude.{
  Bool, ◌&&◌, ◌||◌, Text, List, [], ◌∷◌, filter, Result, ok, ◌>>=◌, none, if◌then◌else◌,
}
use thundercrab.Prelude.Int.{ℤ, ltb_ℤ, eqb_ℤ}
use thundercrab.Prelude.Eq.{same, text_same}
use thundercrab.Prelude.Sql.{text_le}
use thundercrab.Rule.{CrabRule}
use thundercrab.Db.State.{DbError, Db, Encoding}
use thundercrab.Db.{save_rule, delete_rule}

-- Calls that change the table.
pub data Command : Type 0 where
  save : (now : ℤ) → CrabRule → Command
  delete : (id : Text) → Command

-- The rules after a save: the rule takes the place of the one with its id, or goes to the end.
unfoldable pub put : CrabRule → List CrabRule → List CrabRule
put rule [] = rule ∷ []
put rule (r ∷ rules) = if same r.id rule.id then rule ∷ rules else r ∷ put rule rules

unfoldable pub remove : Text → List CrabRule → List CrabRule
remove id rules = filter (λ r. not (same r.id id)) rules

unfoldable pub after : List Command → List CrabRule → List CrabRule
after [] rules = rules
after (save now rule ∷ cs) rules = after cs (put rule rules)
after (delete id ∷ cs) rules = after cs (remove id rules)

-- The higher score first, and the lower id among equal scores.
abbrev pub rule_before : CrabRule → CrabRule → Bool
rule_before a b = ltb_ℤ b.score a.score || eqb_ℤ b.score a.score && text_le a.id b.id

-- The calls one after another; the first failure ends the run.
unfoldable pub execute : Encoding → List Command → Db → Result Db DbError
execute e [] db = ok db
execute e (save now rule ∷ cs) db = do db' ← save_rule e none now rule db; execute e cs db'
execute e (delete id ∷ cs) db = do (removed, db') ← delete_rule none id db; execute e cs db'
