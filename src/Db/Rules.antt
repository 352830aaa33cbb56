-- ===== src/Db/Rules.antt =====
-- The rule table of db.rs against its specification.
use mathlib.Core.Bool.{not}
use thundercrab.Prelude.{
  ◌≡◌, refl, sym, ◌∙◌, Text, List, [], ◌∷◌, map, filter, ok, none, Bool-cases, inl, inr,
}
use thundercrab.Prelude.Int.{ℤ}
use thundercrab.Prelude.Eq.{same, text_same}
use thundercrab.Prelude.Sorting.{sort_by, Related, sort_by-Related}
use thundercrab.Rule.{CrabRule}
use thundercrab.Db.{
  origin_name, put_row, row_before, save_rule, decode_all, load_rules, delete_rule,
}
use thundercrab.Db.State.{RuleRow, Db, Encoding}
use thundercrab.Db.Spec.{Command, save, delete, put, remove, after, rule_before, execute}

module _ (e : Encoding) where
  open e use {encode_rule, decode_rule}

  -- The rule has an encoding, which is read back.
  abbrev pub RoundTrips : CrabRule → Type 0
  RoundTrips rule = (t : Text) × (encode_rule rule ≡ ok t) × (decode_rule t ≡ ok rule)

  -- So has every rule that is saved.
  abbrev pub AllRoundTrip : List Command → Type 0
  AllRoundTrip [] = Unit
  AllRoundTrip (save now rule ∷ cs) = RoundTrips rule × AllRoundTrip cs
  AllRoundTrip (delete id ∷ cs) = AllRoundTrip cs

  -- The row stores the rule.
  abbrev Stores : RuleRow → CrabRule → Type 0
  Stores row rule = (decode_rule row.json ≡ ok rule) × (row.id ≡ rule.id) × (row.score ≡ rule.score)

  put_row-Related :
      (row : RuleRow) (rule : CrabRule) (rows : List RuleRow) (rules : List CrabRule)
      → Stores row rule
      → Related Stores rows rules
      → Related Stores (put_row row rows) (put rule rules)
  unfolding put_row put
  put_row-Related row rule [] [] s h = (s, tt)
  put_row-Related row rule [] (x ∷ rules) s h = absurd h
  put_row-Related row rule (r ∷ rows) [] s h = absurd h
  put_row-Related row rule (r ∷ rows) (x ∷ rules) s h =
      let agree : same r.id row.id ≡ same x.id rule.id = cc (h.0.1, s.1) in
      elim (Bool-cases (same r.id row.id)) [
        | inl t ↦ rw (t, sym agree ∙ t) (s, h.1)
        | inr f ↦ rw (f, sym agree ∙ f) (h.0, put_row-Related row rule rows rules s h.1)
      ]

  remove-Related :
      (id : Text) (rows : List RuleRow) (rules : List CrabRule)
      → Related Stores rows rules
      → Related Stores (filter (λ r. not (same r.id id)) rows) (remove id rules)
  unfolding remove
  remove-Related id [] [] h = tt
  remove-Related id [] (x ∷ rules) h = absurd h
  remove-Related id (r ∷ rows) [] h = absurd h
  remove-Related id (r ∷ rows) (x ∷ rules) h =
      let agree : same r.id id ≡ same x.id id = cc (h.0.1) in
      elim (Bool-cases (same r.id id)) [
        | inl t ↦ rw (t, sym agree ∙ t) (remove-Related id rows rules h.1)
        | inr f ↦ rw (f, sym agree ∙ f) (h.0, remove-Related id rows rules h.1)
      ]

  decode_all_of_Related :
      (rows : List RuleRow) (rules : List CrabRule)
      → Related Stores rows rules
      → decode_all e (map (λ r. r.json) rows) ≡ ok rules
  unfolding decode_all
  decode_all_of_Related [] [] h = refl
  decode_all_of_Related [] (x ∷ rules) h = absurd h
  decode_all_of_Related (r ∷ rows) [] h = absurd h
  decode_all_of_Related (r ∷ rows) (x ∷ rules) h =
      rw (h.0.0, decode_all_of_Related rows rules h.1) refl

  load_rules_of_Related :
      (db : Db) (rules : List CrabRule)
      → Related Stores db.rules rules
      → load_rules e none db ≡ ok (sort_by rule_before rules)
  unfolding load_rules
  load_rules_of_Related db rules h =
      decode_all_of_Related (sort_by row_before db.rules) (sort_by rule_before rules) (
        sort_by-Related Stores row_before rule_before (λ a c b d r s. cc (r.1, r.2, s.1, s.2))
          db.rules rules h)

  -- Saving a rule succeeds, and the table then stores what the specification says.
  save_rule-Related :
      (now : ℤ) (rule : CrabRule) (db : Db) (rules : List CrabRule)
      → RoundTrips rule
      → Related Stores db.rules rules
      → (t : Db) × (save_rule e none now rule db ≡ ok t) × Related Stores t.rules (put rule rules)
  unfolding save_rule
  save_rule-Related now rule db rules back h =
      let (text, encoded, decoded) = back in
      let row : RuleRow = record {
        id = rule.id;
        json = text;
        origin = origin_name rule.origin;
        score = rule.score;
        updated_at = now;
      } in
      (
        record db { rules = put_row row db.rules },
        rw encoded refl,
        put_row-Related row rule db.rules rules (decoded, refl, refl) h,
      )

  execute-Related :
      (cs : List Command) (db : Db) (rules : List CrabRule)
      → AllRoundTrip cs
      → Related Stores db.rules rules
      → (t : Db) × (execute e cs db ≡ ok t) × Related Stores t.rules (after cs rules)
  unfolding execute after delete_rule
  execute-Related [] db rules back h = (db, refl, h)
  execute-Related (save now rule ∷ cs) db rules back h =
      let (u, saved, g) = save_rule-Related now rule db rules back.0 h in
      let (t, ran, k) = execute-Related cs u (put rule rules) back.1 g in (t, rw saved ran, k)
  execute-Related (delete id ∷ cs) db rules back h =
      execute-Related cs (record db { rules = filter (λ r. not (same r.id id)) db.rules })
        (remove id rules) back (remove-Related id db.rules rules h)

  -- Any run of saves and deletes on an empty rule table succeeds, and `load_rules` then returns the
  -- rules of the specified map, the highest score first and by id among equal scores. Every saved
  -- rule must have an encoding that is read back.
  pub load_rules-execute :
      (cs : List Command) (db : Db)
      → AllRoundTrip cs
      → db.rules ≡ []
      → (t : Db) × (execute e cs db ≡ ok t)
        × (load_rules e none t ≡ ok (sort_by rule_before (after cs [])))
  load_rules-execute cs db back empty =
      let (t, ran, h) = execute-Related cs db [] back (rw empty tt) in
      (t, ran, load_rules_of_Related t (after cs []) h)
