-- ===== src/Derive/Sums.antt =====
-- thundercrab-suggestions/src/derive.rs: the first loop, which sums the counts of each domain in a
-- hash map. The map is an association list; nothing iterates over it. The sums are `i64`, which
-- wrap around in a release build.
use thundercrab.Prelude.{
  ℕ, ◌-◌, ◌%◌, ◌^◌, ◌≡◌, refl, sym, ap, ◌∙◌, List, [], ◌∷◌, Text, text_eq, text_eq_iff, Option,
  none, some, arith, ltb, if◌then◌else◌, Bool-cases, inl, inr,
}
use thundercrab.Prelude.Int.{ℤ, pos, negsuc, ◌+ℤ◌, ◌≤ℤ◌, ◌<ℤ◌, int_laws}

-- A row `(domain, destination, count)`.
abbrev pub FlagCount : Type 0
FlagCount = Text × Text × ℤ

abbrev pub Totals : Type 0
Totals = List (Text × ℤ)

-- The value of a 64-bit pattern as a two's complement number.
unfoldable pub of_bits64 : ℕ → ℤ
of_bits64 n = if ltb n (2 ^ 63) then pos n else negsuc (2 ^ 64 - 1 - n)

unfoldable pub wrap_i64 : ℤ → ℤ
unfolding of_bits64
wrap_i64 (pos n) = of_bits64 (n % 2 ^ 64)
wrap_i64 (negsuc n) = of_bits64 (2 ^ 64 - 1 - n % 2 ^ 64)

-- `*totals.entry(domain).or_insert(0) += count`
unfoldable pub entry_add : Text → ℤ → Totals → Totals
entry_add domain count [] = (domain, wrap_i64 (pos 0 +ℤ count)) ∷ []
entry_add domain count ((d, n) ∷ m) =
    if text_eq d domain then (d, wrap_i64 (n +ℤ count)) ∷ m else (d, n) ∷ entry_add domain count m

-- `totals.get(domain)`
unfoldable pub get : Text → Totals → Option ℤ
get domain [] = none
get domain ((d, n) ∷ m) = if text_eq d domain then some n else get domain m

abbrev pub unwrap_or : Option ℤ → ℤ → ℤ
unwrap_or none d = d
unwrap_or (some n) d = n

-- The loop, from the totals so far.
unfoldable pub add_rows : Totals → List FlagCount → Totals
add_rows totals [] = totals
add_rows totals ((domain, dest, count) ∷ rows) = add_rows (entry_add domain count totals) rows

unfoldable pub totals_of : List FlagCount → Totals
unfolding add_rows
totals_of rows = add_rows [] rows

-- The specification: the sum of a domain's counts.
unfoldable pub domain_total : Text → List FlagCount → ℤ
domain_total domain [] = pos 0
domain_total domain ((d, dest, count) ∷ rows) =
    if text_eq d domain then count +ℤ domain_total domain rows else domain_total domain rows

wrap_wrap_add : (a b : ℤ) → wrap_i64 (wrap_i64 a +ℤ b) ≡ wrap_i64 (a +ℤ b)
unfolding wrap_i64 ◌+ℤ◌
wrap_wrap_add (pos a) (pos b) = ground arith
wrap_wrap_add (pos a) (negsuc b) = ground arith
wrap_wrap_add (negsuc a) (pos b) = ground arith
wrap_wrap_add (negsuc a) (negsuc b) = ground arith

-- What the map holds for a domain, 0 for a domain that it does not hold.
abbrev at : Text → Totals → ℤ
at domain m = unwrap_or (get domain m) (pos 0)

at-entry_add :
    (k j : Text) (c : ℤ) (m : Totals)
    → at j (entry_add k c m) ≡ (if text_eq k j then wrap_i64 (at k m +ℤ c) else at j m)
unfolding entry_add get
at-entry_add k j c [] = ground arith
at-entry_add k j c ((d, n) ∷ m) =
    ground (arith, at-entry_add k j c m, text_eq_iff d k, text_eq_iff d j, text_eq_iff k j)

+ℤ_zero : (a : ℤ) → a +ℤ pos 0 ≡ a
+ℤ_zero a = omega int_laws

+ℤ_assoc : (a b c : ℤ) → a +ℤ b +ℤ c ≡ a +ℤ (b +ℤ c)
+ℤ_assoc a b c = omega int_laws

wrap_idem : (a : ℤ) → wrap_i64 (wrap_i64 a) ≡ wrap_i64 a
wrap_idem a =
    ap wrap_i64 (sym (+ℤ_zero (wrap_i64 a))) ∙ wrap_wrap_add a (pos 0) ∙ ap wrap_i64 (+ℤ_zero a)

-- Every value of the map is a 64-bit integer.
IsWrapped : Totals → Type 0
IsWrapped m = (d : Text) → wrap_i64 (at d m) ≡ at d m

entry_add-IsWrapped : (k : Text) (c : ℤ) (m : Totals) → IsWrapped m → IsWrapped (entry_add k c m)
unfolding IsWrapped
entry_add-IsWrapped k c m h d = elim (Bool-cases (text_eq k d)) [
  | inl t ↦ rw (at-entry_add, t) (wrap_idem (at k m +ℤ c))
  | inr f ↦ rw (at-entry_add, f) (h d)
]

at-add_rows :
    (d : Text) (m : Totals) (rows : List FlagCount)
    → IsWrapped m
    → at d (add_rows m rows) ≡ wrap_i64 (at d m +ℤ domain_total d rows)
unfolding add_rows domain_total IsWrapped
at-add_rows d m [] h = rw +ℤ_zero (sym (h d))
at-add_rows d m ((k, dest, c) ∷ rows) h =
    at-add_rows d (entry_add k c m) rows (entry_add-IsWrapped k c m h) ∙ step
  where
    step :
        wrap_i64 (at d (entry_add k c m) +ℤ domain_total d rows)
        ≡ wrap_i64 (at d m +ℤ domain_total d ((k, dest, c) ∷ rows))
    step = elim (Bool-cases (text_eq k d)) [
      | inl t ↦
          rw (at-entry_add, t)
            (wrap_wrap_add (at k m +ℤ c) (domain_total d rows)
              ∙ ap wrap_i64 (+ℤ_assoc (at k m) c (domain_total d rows))
              ∙ ap (λ j. wrap_i64 (at j m +ℤ (c +ℤ domain_total d rows))) ((text_eq_iff k d).0 t))
      | inr f ↦ rw (at-entry_add, f)
    ]

-- After the loop the map has, for every domain, the sum of the counts of that domain's rows, wrapped
-- to 64 bits; a domain with no row reads as 0.
pub totals_of-eq-domain_total :
    (domain : Text) (rows : List FlagCount)
    → unwrap_or (get domain (totals_of rows)) (pos 0) ≡ wrap_i64 (domain_total domain rows)
unfolding totals_of IsWrapped get wrap_i64 of_bits64
totals_of-eq-domain_total domain rows =
    at-add_rows domain [] rows empty-IsWrapped ∙ ap wrap_i64 (zero_+ℤ (domain_total domain rows))
  where
    empty-IsWrapped : IsWrapped []
    empty-IsWrapped d = refl

    zero_+ℤ : (a : ℤ) → at domain [] +ℤ a ≡ a
    zero_+ℤ a = omega int_laws

-- A sum that fits in 64 bits is not changed.
pub wrap_i64_of_small : (a : ℤ) → pos 0 ≤ℤ a → a <ℤ pos (2 ^ 63) → wrap_i64 a ≡ a
unfolding wrap_i64
wrap_i64_of_small (pos n) h k = ground arith
wrap_i64_of_small (negsuc n) h k = absurd (omega arith)
