-- ===== src/Db/Flags.antt =====
-- The flag events of db.rs: recording an observation, and the counts.
use mathlib.Core.Bool.{not}
use mathlib.Core.List.{Memᴰ, map-append}
use mathlib.Core.List.Memᴰ
use mathlib.Core.Path.{subst}
use thundercrab.Prelude.{
  ℕ, ◌+◌, ◌≡◌, ◌≢◌, refl, sym, ap, ◌∙◌, Bool, true, ◌&&◌, ◌||◌, Text, List, [], ◌∷◌, ◌++◌, map,
  filter, any, length, ok, none, if◌then◌else◌, arith, Bool-cases, Result-cases, inl, inr, All,
  length-append, ltb,
}
use thundercrab.Prelude.Int.{pos}
use thundercrab.Prelude.Eq.{
  same, same_iff, same_refl, text_same, pair_same, distinct, mem-filter, mem_of_filter,
  mem-distinct, mem_of_distinct, Distinct,
}
use thundercrab.Prelude.Append.{filter-append, contains, Distinct-append}
use thundercrab.Prelude.Sorting.{IsSorted, sort_by-All, sort_by-IsSorted, mem-sort_by}
use thundercrab.Db.{
  source_name, flag_row, unique_key, insert_or_ignore, with_destination, pair_of, count_pair,
  has_domain, pair_counts, record_flag, count_flags_to,
}
use thundercrab.Db.State.{FlagEvent, FlagRow, Db, Encoding}

-- The unique columns of an event's row.
abbrev pub event_key : FlagEvent → List ℕ × (Text × Text)
event_key ev = (ev.message_hash, (source_name ev.source, ev.destination))

-- The observation has a row.
abbrev pub is_recorded : List ℕ × (Text × Text) → List FlagRow → Bool
is_recorded k rows = any (λ r. same (unique_key r) k) rows

module _ (row : FlagRow) where
  length-insert_or_ignore :
      (d : Text) (rows : List FlagRow)
      → length (with_destination d (insert_or_ignore row rows))
        ≡ length (with_destination d rows)
          + (if not (is_recorded (unique_key row) rows) && same row.destination d then 1 else 0)
  unfolding insert_or_ignore
  length-insert_or_ignore d rows = elim (Bool-cases (is_recorded (unique_key row) rows)) [
    | inl t ↦ rw t (omega arith)
    | inr f ↦ elim (Bool-cases (same row.destination d)) [
      | inl t ↦ rw (f, filter-append, t) (length-append (with_destination d rows) (row ∷ []))
      | inr g ↦ rw (f, filter-append, g) (length-append (with_destination d rows) [])
    ]
  ]

  is_recorded-append :
      (rows : List FlagRow) → is_recorded (unique_key row) (rows ++ (row ∷ [])) ≡ true
  is_recorded-append [] = rw (same_refl (unique_key row)) refl
  is_recorded-append (r ∷ rows) =
      ap (λ b. same (unique_key r) (unique_key row) || b) (is_recorded-append rows)
      ∙ or_true (same (unique_key r) (unique_key row))
    where
      or_true : (b : Bool) → b || true ≡ true
      or_true b = ground arith

  is_recorded-insert_or_ignore :
      (rows : List FlagRow) → is_recorded (unique_key row) (insert_or_ignore row rows) ≡ true
  unfolding insert_or_ignore
  is_recorded-insert_or_ignore rows = elim (Bool-cases (is_recorded (unique_key row) rows)) [
    | inl t ↦ rw (t, t) refl
    | inr f ↦ rw f (is_recorded-append rows)
  ]

is_recorded-contains :
    (k : List ℕ × (Text × Text)) (rows : List FlagRow)
    → contains k (map unique_key rows) ≡ is_recorded k rows
is_recorded-contains k [] = refl
is_recorded-contains k (r ∷ rows) =
    ap (λ b. same (unique_key r) k || b) (is_recorded-contains k rows)

insert_or_ignore-Distinct :
    (row : FlagRow) (rows : List FlagRow)
    → Distinct (map unique_key rows)
    → Distinct (map unique_key (insert_or_ignore row rows))
unfolding insert_or_ignore
insert_or_ignore-Distinct row rows h = elim (Bool-cases (is_recorded (unique_key row) rows)) [
  | inl t ↦ rw t h
  | inr f ↦
      rw (f, map-append unique_key rows (row ∷ []))
        (Distinct-append (map unique_key rows) (unique_key row) h
          (is_recorded-contains (unique_key row) rows ∙ f))
]

insert_or_ignore_of_recorded :
    (other : FlagRow) (rows : List FlagRow)
    → is_recorded (unique_key other) rows ≡ true
    → insert_or_ignore other rows ≡ rows
unfolding insert_or_ignore
insert_or_ignore_of_recorded other rows seen = rw seen refl

module _ (e : Encoding) where
  record_flag-rows :
      (ev : FlagEvent) (db t : Db)
      → record_flag e none ev db ≡ ok t
      → (tokens : Text) × (t
          ≡ record db { flag_events = insert_or_ignore (flag_row ev tokens) db.flag_events })
  unfolding record_flag
  record_flag-rows ev db t h = elim (Result-cases (e.encode_tokens ev.subject_tokens)) [
    | inl (tokens, q) ↦ (tokens, ground arith)
    | inr (x, q) ↦ absurd (ground arith)
  ]

  recorded_again :
      (row other : FlagRow) (rows : List FlagRow)
      → unique_key other ≡ unique_key row
      → insert_or_ignore other (insert_or_ignore row rows) ≡ insert_or_ignore row rows
  recorded_again row other rows k =
      let seen : is_recorded (unique_key other) (insert_or_ignore row rows) ≡ true =
        subst (λ z. is_recorded z (insert_or_ignore row rows) ≡ true) (sym k)
          (is_recorded-insert_or_ignore row rows) in
      insert_or_ignore_of_recorded other (insert_or_ignore row rows) seen

  -- Recording an event keeps the observations unique. It raises the count of its destination by one if
  -- the observation is new, and no count otherwise; a second event with the same message, source and
  -- destination, whatever its other fields, then changes nothing.
  pub record_flag-counts :
      (ev again : FlagEvent) (db t u : Db)
      → record_flag e none ev db ≡ ok t
      → event_key again ≡ event_key ev
      → record_flag e none again t ≡ ok u
      → Distinct (map unique_key db.flag_events)
      → Distinct (map unique_key t.flag_events)
        × ((d : Text) (n : ℕ)
            → count_flags_to none d db ≡ ok (pos n)
            → count_flags_to none d t
              ≡ ok (
                  pos (
                    n
                    + (if not (is_recorded (event_key ev) db.flag_events) && same ev.destination d
                        then 1
                        else 0))))
        × (u ≡ t)
  unfolding count_flags_to
  record_flag-counts ev again db t u h k g d =
      let (tokens, stored) = record_flag-rows ev db t h in
      let (others, repeated) = record_flag-rows again t u g in
      let rows : t.flag_events ≡ insert_or_ignore (flag_row ev tokens) db.flag_events =
        ap (λ x. x.flag_events) stored in
      (
        subst (λ l. Distinct (map unique_key l)) (sym rows)
            (insert_or_ignore-Distinct (flag_row ev tokens) db.flag_events d),
        (λ to n q.
            ground (arith, rows, length-insert_or_ignore (flag_row ev tokens) to db.flag_events)),
        (repeated
            ∙ ap (λ l. record t { flag_events = l })
                (ap (insert_or_ignore (flag_row again others)) rows
                  ∙ recorded_again (flag_row ev tokens) (flag_row again others) db.flag_events k
                  ∙ sym rows)),
      )

-- The greater count first.
abbrev pub more_first : (Text × Text) × ℕ → (Text × Text) × ℕ → Bool
more_first a b = not (ltb a.1 b.1)

module _ (rows : List FlagRow) where
  -- What a counted pair says of the events.
  abbrev pub IsCounted : (Text × Text) × ℕ → Type 0
  IsCounted (k, n) =
      (n ≡ length (filter (λ r. same (pair_of r) k) rows))
      × (k.0 ≢ [])
      × ((r : FlagRow) × Memᴰ r rows × (pair_of r ≡ k))

  All-IsCounted :
      (ks : List (Text × Text))
      → ((k : Text × Text) → Memᴰ k ks → IsCounted (k, count_pair k rows))
      → All IsCounted (map (λ k. (k, count_pair k rows)) ks)
  All-IsCounted [] h = tt
  All-IsCounted (k ∷ ks) h = (h k (Memᴰ.head refl), All-IsCounted ks (λ j m. h j (Memᴰ.tail m)))

  pairs : List (Text × Text)
  pairs = distinct (map pair_of (filter has_domain rows))

  pair-IsCounted : (k : Text × Text) → Memᴰ k pairs → IsCounted (k, count_pair k rows)
  unfolding pairs count_pair
  pair-IsCounted k m =
      let (r, n, e) =
        Memᴰ.of_map pair_of (filter has_domain rows)
          (mem_of_distinct (map pair_of (filter has_domain rows)) m) in
      let (stored, named) = mem_of_filter has_domain rows n in
      (refl, (λ q. domain_ne r named (ap (λ z. z.0) e ∙ q)), (r, stored, e))
    where
      domain_ne : (r : FlagRow) → has_domain r ≡ true → r.from_domain_with_at ≢ []
      domain_ne r named q = ground (arith, same_iff r.from_domain_with_at [])

  -- The grouped counts: each is the number of events with that domain and destination, none has an
  -- empty domain, the greatest come first, and no event with a domain is left out.
  pub pair_counts_lem :
      All IsCounted (pair_counts rows)
      × IsSorted more_first (pair_counts rows)
      × ((r : FlagRow)
          → Memᴰ r rows
          → r.from_domain_with_at ≢ []
          → Memᴰ (pair_of r, count_pair (pair_of r) rows) (pair_counts rows))
  unfolding pair_counts pairs
  pair_counts_lem = (
    sort_by-All more_first IsCounted (map counted pairs) (All-IsCounted pairs pair-IsCounted),
    sort_by-IsSorted more_first (λ a b h. ground arith) (λ a b c h k. ground arith)
        (map counted pairs),
    (λ r m named. mem-sort_by more_first (map counted pairs) (
        Memᴰ.map counted (
          mem-distinct (map pair_of (filter has_domain rows))
            (Memᴰ.map pair_of (mem-filter has_domain rows m (has_domain_of_ne r named)))))),
  )
    where
      counted : Text × Text → (Text × Text) × ℕ
      counted k = (k, count_pair k rows)

      has_domain_of_ne : (r : FlagRow) → r.from_domain_with_at ≢ [] → has_domain r ≡ true
      has_domain_of_ne r named = ground (arith, same_iff r.from_domain_with_at [])
