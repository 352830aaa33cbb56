-- ===== src/Ledger/Store/Listing.antt =====
-- The grouped query of store.rs: its entries and the rows.
use mathlib.Core.List.{Memᴰ}
use mathlib.Core.Path.{subst}
use thundercrab.Prelude.{
  ◌≡◌, refl, sym, ap, ◌∙◌, Bool, true, Option, none, some, List, [], ◌∷◌, map, filter, Bool-cases,
  inl, inr, arith, All, Text, ◌⊎◌,
}
use thundercrab.Prelude.Int.{ℤ, pos, ◌≤ℤ◌, leb_ℤ}
use thundercrab.Prelude.Eq.{same_iff, text_same, distinct, mem_of_filter, All-filter, All-of_mem}
use thundercrab.Prelude.Sorting.{sort_by, sort_by-IsSorted, sort_by-All}
use thundercrab.Prelude.Sql.{text_le, min_ℤ, min_text}
use thundercrab.Ledger.Store.Ranking.{
  IsRanked, IsSorted-IsRanked, listed_before-total, listed_before_trans,
}
use thundercrab.Ledger.Store.{
  Bytes, CorroborationRow, Group, members, min_rule_json, min_submitted_day, count_public_keys,
  aggregate, cons_some, groups_of, groups, having, listed_before, i64_min, unwrap_or, listing,
}

min_submitted_day-le :
    (d : ℤ) (rows : List CorroborationRow)
    → (min_submitted_day d rows ≤ℤ d) × All (λ r. min_submitted_day d rows ≤ℤ r.submitted_day) rows
unfolding min_submitted_day
min_submitted_day-le d [] = (omega arith, tt)
min_submitted_day-le d (r ∷ rows) =
    let (first, rest) = min_submitted_day-le (min_ℤ d r.submitted_day) rows in
    (ground (arith, first), (ground (arith, first), rest))

-- The minimum is the day of the first row or of a later one.
min_submitted_day-mem :
    (d : ℤ) (rows : List CorroborationRow)
    → (min_submitted_day d rows ≡ d)
      ⊎ ((r : CorroborationRow) × Memᴰ r rows × (r.submitted_day ≡ min_submitted_day d rows))
unfolding min_submitted_day
min_submitted_day-mem d [] = inl refl
min_submitted_day-mem d (r ∷ rows) = elim (min_submitted_day-mem (min_ℤ d r.submitted_day) rows) [
  | inl e ↦ elim (Bool-cases (leb_ℤ d r.submitted_day)) [
    | inl t ↦ inl (e ∙ rw t)
    | inr f ↦ inr (r, Memᴰ.head refl, sym (e ∙ rw f))
  ]
  | inr (x, m, e) ↦ inr (x, Memᴰ.tail m, e)
]

min_rule_json-mem :
    (j : Text) (rows : List CorroborationRow)
    → (min_rule_json j rows ≡ j)
      ⊎ ((r : CorroborationRow) × Memᴰ r rows × (r.rule_json ≡ min_rule_json j rows))
unfolding min_rule_json
min_rule_json-mem j [] = inl refl
min_rule_json-mem j (r ∷ rows) = elim (min_rule_json-mem (min_text j r.rule_json) rows) [
  | inl e ↦ elim (Bool-cases (text_le j r.rule_json)) [
    | inl t ↦ inl (e ∙ rw t)
    | inr f ↦ inr (r, Memᴰ.head refl, sym (e ∙ rw f))
  ]
  | inr (x, m, e) ↦ inr (x, Memᴰ.tail m, e)
]

-- What an entry of the listing says of the table.
pub record IsAggregate (rows : List CorroborationRow) (g : Group) : Type 0 where
  pub counted : g.corroborators ≡ count_public_keys (members g.pattern_hash rows)
  pub seen : All (λ r. g.first_seen_day ≤ℤ r.submitted_day) (members g.pattern_hash rows)
  pub seen_by : CorroborationRow
  pub seen_in : Memᴰ seen_by rows
  pub seen_for : seen_by.pattern_hash ≡ g.pattern_hash
  pub seen_on : seen_by.submitted_day ≡ g.first_seen_day
  pub body_by : CorroborationRow
  pub body_in : Memᴰ body_by rows
  pub body_for : body_by.pattern_hash ≡ g.pattern_hash
  pub body_is : body_by.rule_json ≡ g.rule_json

abbrev IsAggregate? : List CorroborationRow → Option Group → Type 0
IsAggregate? rows none = Unit
IsAggregate? rows (some g) = IsAggregate rows g

member_of :
    (h : Bytes) (ms rows : List CorroborationRow) (x : CorroborationRow)
    → ms ≡ members h rows
    → Memᴰ x ms
    → Memᴰ x rows × (x.pattern_hash ≡ h)
unfolding members
member_of h ms rows x e m =
    let (k, t) = mem_of_filter _ rows (subst (λ l. Memᴰ x l) e m) in
    (k, (same_iff x.pattern_hash h).0 t)

first_day :
    (r : CorroborationRow) (ms : List CorroborationRow)
    → (x : CorroborationRow) × Memᴰ x (r ∷ ms)
      × (x.submitted_day ≡ min_submitted_day r.submitted_day ms)
first_day r ms = elim (min_submitted_day-mem r.submitted_day ms) [
  | inl e ↦ (r, Memᴰ.head refl, sym e)
  | inr (x, m, e) ↦ (x, Memᴰ.tail m, e)
]

least_body :
    (r : CorroborationRow) (ms : List CorroborationRow)
    → (x : CorroborationRow) × Memᴰ x (r ∷ ms) × (x.rule_json ≡ min_rule_json r.rule_json ms)
least_body r ms = elim (min_rule_json-mem r.rule_json ms) [
  | inl e ↦ (r, Memᴰ.head refl, sym e)
  | inr (x, m, e) ↦ (x, Memᴰ.tail m, e)
]

aggregate-IsAggregate :
    (h : Bytes) (ms rows : List CorroborationRow)
    → ms ≡ members h rows
    → IsAggregate? rows (aggregate h ms)
unfolding aggregate
aggregate-IsAggregate h [] rows e = tt
aggregate-IsAggregate h (r ∷ ms) rows e =
    let (x, mx, ex) = first_day r ms in
    let (y, my, ey) = least_body r ms in
    let (x_in, x_for) = member_of h (r ∷ ms) rows x e mx in
    let (y_in, y_for) = member_of h (r ∷ ms) rows y e my in
    record {
      counted = ap count_public_keys e;
      seen =
          subst (λ l. All (λ r'. min_submitted_day r.submitted_day ms ≤ℤ r'.submitted_day) l) e
            (min_submitted_day-le r.submitted_day ms);
      seen_by = x;
      seen_in = x_in;
      seen_for = x_for;
      seen_on = ex;
      body_by = y;
      body_in = y_in;
      body_for = y_for;
      body_is = ey;
    }

All-cons_some :
    (rows : List CorroborationRow) (o : Option Group) (gs : List Group)
    → IsAggregate? rows o
    → All (IsAggregate rows) gs
    → All (IsAggregate rows) (cons_some o gs)
All-cons_some rows none gs h k = k
All-cons_some rows (some g) gs h k = (h, k)

pub groups_of-IsAggregate :
    (hs : List Bytes) (rows : List CorroborationRow) → All (IsAggregate rows) (groups_of hs rows)
unfolding groups_of
groups_of-IsAggregate [] rows = tt
groups_of-IsAggregate (h ∷ hs) rows =
    All-cons_some rows (aggregate h (members h rows)) (groups_of hs rows)
      (aggregate-IsAggregate h (members h rows) rows refl) (groups_of-IsAggregate hs rows)

-- What the filter lets through.
abbrev pub Passes : ℤ → Option ℤ → Group → Type 0
Passes min_corroborators since_day g =
    (min_corroborators ≤ℤ pos g.corroborators) × (unwrap_or since_day i64_min ≤ℤ g.first_seen_day)

having-Passes :
    (m : ℤ) (d : Option ℤ) (g : Group) → having m (unwrap_or d i64_min) g ≡ true → Passes m d g
having-Passes m d g h = ground arith

pub Passes-having :
    (m : ℤ) (d : Option ℤ) (g : Group) → Passes m d g → having m (unwrap_or d i64_min) g ≡ true
Passes-having m d g h = ground arith

-- Every listed entry counts the distinct keys of its pattern's rows, gives their earliest day and the
-- rule body of one of them, and passes both filters; each entry has more corroborators than every
-- later one, or as many and a hash that does not come after the later one's.
pub listing_sound :
    (min_corroborators : ℤ) (since_day : Option ℤ) (rows : List CorroborationRow)
    → All (IsAggregate rows) (listing min_corroborators since_day rows)
      × All (Passes min_corroborators since_day) (listing min_corroborators since_day rows)
      × IsRanked (listing min_corroborators since_day rows)
unfolding listing groups
listing_sound m d rows = (
  sort_by-All listed_before (IsAggregate rows) (filter p gs)
      (All-filter (IsAggregate rows) p gs (groups_of-IsAggregate hashes rows)),
  sort_by-All listed_before (Passes m d) (filter p gs)
      (All-of_mem (Passes m d) (filter p gs) λ g n. having-Passes m d g (mem_of_filter p gs n).1),
  IsSorted-IsRanked (sort_by listed_before (filter p gs))
      (sort_by-IsSorted listed_before listed_before-total listed_before_trans (filter p gs)),
)
  where
    hashes : List Bytes
    hashes = distinct (map (λ r. r.pattern_hash) rows)

    gs : List Group
    gs = groups_of hashes rows

    p : Group → Bool
    p = having m (unwrap_or d i64_min)
