-- ===== src/Ledger/Store/Complete.antt =====
-- store.rs: which patterns `list_aggregated` lists, and `total_unique_patterns`.
use mathlib.Core.List.{Memᴰ}
use mathlib.Core.List.Memᴰ
use mathlib.Core.Path.{subst}
use thundercrab.Prelude.{
  suc, ◌≤◌, ◌≡◌, refl, sym, ap, ◌∙◌, Bool, true, Option, none, some, List, [], ◌∷◌, map, filter,
  length, arith, All, ok,
}
use thundercrab.Prelude.Int.{ℤ, pos, ◌≤ℤ◌}
use thundercrab.Prelude.Eq.{
  same, same_iff, same_refl, text_same, distinct, mem-distinct, mem_of_distinct, mem-filter,
  All-mem, All-of_mem,
}
use thundercrab.Prelude.Append.{filter_of_All}
use thundercrab.Prelude.Sorting.{mem-sort_by, length-sort_by}
use thundercrab.Ledger.Store.{
  Bytes, CorroborationRow, Store, Group, AggregatedSuggestion, members, count_public_keys,
  aggregate, cons_some, groups_of, groups, having, i64_min, unwrap_or, listing, listed_before,
  list_aggregated, total_unique_patterns, as_suggestion,
}
use thundercrab.Ledger.Store.Listing.{IsAggregate, groups_of-IsAggregate, Passes-having}

-- A pattern with a row has a group.
abbrev Present : List CorroborationRow → Bytes → Type 0
Present rows h =
    (g : Group) × (aggregate h (members h rows) ≡ some g)
    × (g.pattern_hash ≡ h)
    × (1 ≤ g.corroborators)

aggregate_of_cons :
    (h : Bytes) (ms : List CorroborationRow) {x : CorroborationRow}
    → Memᴰ x ms
    → (g : Group) × (aggregate h ms ≡ some g) × (g.pattern_hash ≡ h) × (1 ≤ g.corroborators)
unfolding aggregate count_public_keys distinct
aggregate_of_cons h [] m = elim m [ ]
aggregate_of_cons h (r ∷ ms) m = (_, refl, refl, omega arith)

present :
    (r : CorroborationRow) (rows : List CorroborationRow)
    → Memᴰ r rows
    → Present rows r.pattern_hash
unfolding members
present r rows m =
    aggregate_of_cons r.pattern_hash (members r.pattern_hash rows)
      (mem-filter (λ x. same x.pattern_hash r.pattern_hash) rows m (same_refl r.pattern_hash))

Present-hashes :
    (rows : List CorroborationRow) → All (Present rows) (distinct (map (λ r. r.pattern_hash) rows))
Present-hashes rows = All-of_mem (Present rows) hashes λ h m.
    let (r, k, e) =
      Memᴰ.of_map (λ r. r.pattern_hash) rows (mem_of_distinct (map (λ r. r.pattern_hash) rows) m) in
    subst (Present rows) e (present r rows k)
  where
    hashes : List Bytes
    hashes = distinct (map (λ r. r.pattern_hash) rows)

mem-cons_some :
    (o : Option Group) (gs : List Group) {g : Group} → Memᴰ g gs → Memᴰ g (cons_some o gs)
mem-cons_some none gs m = m
mem-cons_some (some x) gs m = Memᴰ.tail m

mem-groups_of :
    (rows : List CorroborationRow) (hs : List Bytes) {h : Bytes} (g : Group)
    → Memᴰ h hs
    → aggregate h (members h rows) ≡ some g
    → Memᴰ g (groups_of hs rows)
unfolding groups_of
mem-groups_of rows [] g m e = elim m [ ]
mem-groups_of rows (k ∷ hs) g (Memᴰ.head p) e =
    rw (subst (λ z. aggregate z (members z rows) ≡ some g) p e) (Memᴰ.head refl)
mem-groups_of rows (k ∷ hs) g (Memᴰ.tail m) e =
    mem-cons_some (aggregate k (members k rows)) (groups_of hs rows) (mem-groups_of rows hs g m e)

-- A pattern with a row in the table is listed if its number of distinct keys reaches the minimum and
-- none of its own rows is earlier than the given day.
pub listing_complete :
    (min_corroborators : ℤ) (since_day : Option ℤ) (rows : List CorroborationRow)
    (r : CorroborationRow)
    → Memᴰ r rows
    → min_corroborators ≤ℤ pos (count_public_keys (members r.pattern_hash rows))
    → All (λ x. unwrap_or since_day i64_min ≤ℤ x.submitted_day) (members r.pattern_hash rows)
    → (g : Group) × Memᴰ g (listing min_corroborators since_day rows)
      × (g.pattern_hash ≡ r.pattern_hash)
unfolding listing groups members
listing_complete m d rows r k enough late =
    let (g, e, same_hash, _) = present r rows k in
    let listed =
      mem-groups_of rows hashes g
        (mem-distinct (map (λ r. r.pattern_hash) rows) (Memᴰ.map (λ r. r.pattern_hash) k)) e in
    let a =
      All-mem (IsAggregate rows) (groups_of hashes rows) (groups_of-IsAggregate hashes rows)
        listed in
    (
      g,
      mem-sort_by listed_before (filter p (groups_of hashes rows)) (
          mem-filter p (groups_of hashes rows) listed
            (Passes-having m d g (reaches g a same_hash, day g a same_hash))),
      same_hash,
    )
  where
    hashes : List Bytes
    hashes = distinct (map (λ r. r.pattern_hash) rows)

    p : Group → Bool
    p = having m (unwrap_or d i64_min)

    reaches :
        (g : Group)
        → IsAggregate rows g
        → g.pattern_hash ≡ r.pattern_hash
        → m ≤ℤ pos g.corroborators
    reaches g a q =
        subst (λ n. m ≤ℤ pos n) (sym (a.counted ∙ ap (λ h. count_public_keys (members h rows)) q))
          enough

    day :
        (g : Group)
        → IsAggregate rows g
        → g.pattern_hash ≡ r.pattern_hash
        → unwrap_or d i64_min ≤ℤ g.first_seen_day
    day g a q =
        subst (λ z. unwrap_or d i64_min ≤ℤ z) a.seen_on
          (All-mem (λ x. unwrap_or d i64_min ≤ℤ x.submitted_day) (members r.pattern_hash rows) late
            (mem-filter (λ x. same x.pattern_hash r.pattern_hash) rows a.seen_in
              ((same_iff a.seen_by.pattern_hash r.pattern_hash).1 (a.seen_for ∙ q))))

length-groups_of :
    (rows : List CorroborationRow) (hs : List Bytes)
    → All (Present rows) hs
    → (length (groups_of hs rows) ≡ length hs) × All (λ g. 1 ≤ g.corroborators) (groups_of hs rows)
unfolding groups_of
length-groups_of rows [] h = (refl, tt)
length-groups_of rows (k ∷ hs) ((g, e, _, n), h) =
    let (same_length, rest) = length-groups_of rows hs h in rw e (ap suc same_length, (n, rest))

length-map_suggestions : (gs : List Group) → length (map as_suggestion gs) ≡ length gs
length-map_suggestions [] = refl
length-map_suggestions (g ∷ gs) = ap suc (length-map_suggestions gs)

length-listing :
    (rows : List CorroborationRow)
    → All (λ x. i64_min ≤ℤ x.submitted_day) rows
    → length (listing (pos 1) none rows) ≡ length (distinct (map (λ r. r.pattern_hash) rows))
unfolding listing groups
length-listing rows late =
    length-sort_by listed_before (filter p gs)
    ∙ ap length (filter_of_All p gs all_pass)
    ∙ (length-groups_of rows hashes (Present-hashes rows)).0
  where
    hashes : List Bytes
    hashes = distinct (map (λ r. r.pattern_hash) rows)

    gs : List Group
    gs = groups_of hashes rows

    p : Group → Bool
    p = having (pos 1) i64_min

    passes : (g : Group) → Memᴰ g gs → p g ≡ true
    passes g m =
        let a = All-mem (IsAggregate rows) gs (groups_of-IsAggregate hashes rows) m in
        let n =
          All-mem (λ g. 1 ≤ g.corroborators) gs
            (length-groups_of rows hashes (Present-hashes rows)).1 m in
        let day =
          subst (λ z. i64_min ≤ℤ z) a.seen_on
            (All-mem (λ x. i64_min ≤ℤ x.submitted_day) rows late a.seen_in) in
        Passes-having (pos 1) none g (n_le g n, day)
      where
        n_le : (g : Group) → 1 ≤ g.corroborators → pos 1 ≤ℤ pos g.corroborators
        n_le g n = omega arith

    all_pass : All (λ g. p g ≡ true) gs
    all_pass = All-of_mem (λ g. p g ≡ true) gs passes

-- When the statements run and every stored day is a 64-bit integer, the health total is the number
-- of entries that a listing with a minimum of one corroborator and no earliest day returns.
pub total_unique_patterns-eq-length :
    (s : Store) (listed : List AggregatedSuggestion)
    → All (λ x. i64_min ≤ℤ x.submitted_day) s.corroborations
    → list_aggregated none (pos 1) none s ≡ ok listed
    → total_unique_patterns none s ≡ ok (pos (length listed))
unfolding list_aggregated total_unique_patterns
total_unique_patterns-eq-length s listed late e =
    ap (λ n. ok (pos n))
      (sym (length-listing s.corroborations late)
        ∙ sym (length-map_suggestions (listing (pos 1) none s.corroborations))
        ∙ ap length same_list)
  where
    same_list : map as_suggestion (listing (pos 1) none s.corroborations) ≡ listed
    same_list = cc
