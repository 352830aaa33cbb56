-- ===== src/Sieve/Response/Lines.antt =====
-- thundercrab-imap/src/managesieve.rs: which lines end a response, and which announce a literal.
use thundercrab.Prelude.{
  ℕ, ◌*◌, ◌+◌, ◌-◌, ◌≡◌, refl, ap, ◌∙◌, Text, codes, Option, none, some, [], ◌∷◌, ◌++◌, arith, All,
  Bool-cases, Option-cases, inl, inr, ◌⊎◌, ◌==◌, ==_iff, true,
}
use mathlib.Core.Path.{subst}
use thundercrab.Prelude.Strings.{is_empty, trim, trim_end_by, strip_prefix, split_last, Lacks}
use thundercrab.Prelude.Decimal.{IsDigit}
use thundercrab.Sieve.Response.{
  Reply, okay, no, bye, is_plus, parse_digits, parse_usize, parse_literal_marker, terminator,
}

-- The text begins with the first one.
abbrev pub StartsWith : Text → Text → Type 0
StartsWith [] s = Unit
StartsWith (c ∷ p) [] = ⊥
StartsWith (c ∷ p) (d ∷ s) = (c ≡ d) × StartsWith p s

-- A line that does not begin with one of the three words that end a response.
abbrev pub IsMiddle : Text → Type 0
IsMiddle s =
    (¬ StartsWith (codes "OK") s) × (¬ StartsWith (codes "NO") s) × (¬ StartsWith (codes "BYE") s)

-- The line that ends a response, by RFC 5804: one of the three words, with what stands behind it.
pub data Ending : Type 0 where
  okay_line no_line bye_line : (behind : Text) → Ending

abbrev pub ending_text : Ending → Text
ending_text (okay_line behind) = codes "OK" ++ behind
ending_text (no_line behind) = codes "NO" ++ behind
ending_text (bye_line behind) = codes "BYE" ++ behind

-- What the line answers; a reason stands without the spaces around it.
abbrev pub answer : Ending → Reply
answer (okay_line behind) = okay
answer (no_line behind) = no (trim behind)
answer (bye_line behind) = bye (trim behind)

abbrev pub IsSign : ℕ → Type 0
IsSign c = IsDigit c ⊎ (c ≡ b'+')

-- Nowhere in the line do braces hold only digits and plus signs.
abbrev pub IsUnmarked : Text → Type 0
IsUnmarked s =
    (before inner after : Text)
    → s ≡ before ++ (b'{' ∷ (inner ++ (b'}' ∷ after)))
    → ¬ All IsSign inner

strip_prefix-StartsWith : (p s rest : Text) → strip_prefix p s ≡ some rest → StartsWith p s
unfolding strip_prefix
strip_prefix-StartsWith [] s rest h = tt
strip_prefix-StartsWith (c ∷ p) [] rest h = absurd (ground arith)
strip_prefix-StartsWith (c ∷ p) (d ∷ s) rest h = elim (Bool-cases (c == d)) [
  | inl t ↦ ((==_iff c d).0 t, strip_prefix-StartsWith p s rest (rw t at h))
  | inr f ↦ absurd (ground arith)
]

strip_prefix_none : (p s : Text) → ¬ StartsWith p s → strip_prefix p s ≡ none
strip_prefix_none p s h = elim (Option-cases (strip_prefix p s)) [
  | inl e ↦ e
  | inr (rest, e) ↦ absurd (h (strip_prefix-StartsWith p s rest e))
]

pub terminator_of_IsMiddle : (s : Text) → IsMiddle s → terminator s ≡ none
unfolding terminator strip_prefix
terminator_of_IsMiddle s (a, b, c) =
    rw
      (
        strip_prefix_none (codes "OK") s a,
        strip_prefix_none (codes "NO") s b,
        strip_prefix_none (codes "BYE") s c,
      )
      refl

pub terminator-ending_text : (e : Ending) → terminator (ending_text e) ≡ some (answer e)
unfolding terminator strip_prefix
terminator-ending_text (okay_line behind) = refl
terminator-ending_text (no_line behind) = refl
terminator-ending_text (bye_line behind) = refl

same_parts :
    (o : Option (Text × Text)) (x y a b : Text)
    → o ≡ some (x, y)
    → o ≡ some (a, b)
    → (x ≡ a) × (y ≡ b)
same_parts o x y a b h k = (ground arith, ground arith)

split_last_lem : (d : ℕ) (s a b : Text) → split_last d s ≡ some (a, b) → s ≡ a ++ (d ∷ b)
unfolding split_last
split_last_lem d [] a b h = absurd (ground arith)
split_last_lem d (c ∷ s) a b h = elim (Option-cases (split_last d s)) [
  | inr ((x, y), e) ↦
      let (first, second) = same_parts (split_last d (c ∷ s)) (c ∷ x) y a b (rw e refl) h in
      ap (λ l. c ∷ l) (split_last_lem d s x y e)
      ∙ ap (λ l. l ++ (d ∷ y)) first
      ∙ ap (λ l. a ++ (d ∷ l)) second
  | inl e ↦ elim (Bool-cases (c == d)) [
    | inl t ↦
        let (first, second) = same_parts (split_last d (c ∷ s)) [] s a b (rw (e, t) refl) h in
        ap (λ l. l ∷ s) ((==_iff c d).0 t)
        ∙ ap (λ l. l ++ (d ∷ s)) first
        ∙ ap (λ l. a ++ (d ∷ l)) second
    | inr f ↦ absurd (ground arith)
  ]
]

parse_digits-IsSign : (n : ℕ) (s : Text) (m : ℕ) → parse_digits n s ≡ some m → All IsSign s
unfolding parse_digits
parse_digits-IsSign n [] m h = tt
parse_digits-IsSign n (c ∷ s) m h =
    (inl (ground arith), parse_digits-IsSign (n * 10 + (c - b'0')) s m (ground arith))

parse_usize-IsSign : (s : Text) (m : ℕ) → parse_usize s ≡ some m → All IsSign s
unfolding parse_usize
parse_usize-IsSign [] m h = tt
parse_usize-IsSign (c ∷ []) m h = parse_digits-IsSign 0 (c ∷ []) m h
parse_usize-IsSign (c ∷ d ∷ s) m h = elim (Bool-cases (c == b'+')) [
  | inl t ↦ (inr ((==_iff c b'+').0 t), parse_digits-IsSign 0 (d ∷ s) m (rw t at h))
  | inr f ↦ parse_digits-IsSign 0 (c ∷ d ∷ s) m (rw f at h)
]

All_of_trim_end_by : (s : Text) → All IsSign (trim_end_by is_plus s) → All IsSign s
unfolding trim_end_by
All_of_trim_end_by [] h = tt
All_of_trim_end_by (c ∷ s) h = elim (Bool-cases (c == b'+')) [
  | inl t ↦ elim (Bool-cases (is_empty (trim_end_by is_plus s))) [
    | inl u ↦ (
      inr ((==_iff c b'+').0 t),
      All_of_trim_end_by s (All_of_is_empty (trim_end_by is_plus s) u),
    )
    | inr v ↦ let k = rw (t, v) at h in (k.0, All_of_trim_end_by s k.1)
  ]
  | inr f ↦ let k = rw f at h in (k.0, All_of_trim_end_by s k.1)
]
  where
    All_of_is_empty : (x : Text) → is_empty x ≡ true → All IsSign x
    All_of_is_empty [] e = tt
    All_of_is_empty (d ∷ x) e = absurd (ground arith)

++_assoc : (a b c : Text) → (a ++ b) ++ c ≡ a ++ (b ++ c)
++_assoc [] b c = refl
++_assoc (x ∷ a) b c = ap (λ l. x ∷ l) (++_assoc a b c)

pub parse_literal_marker_of_IsUnmarked : (s : Text) → IsUnmarked s → parse_literal_marker s ≡ none
unfolding parse_literal_marker
parse_literal_marker_of_IsUnmarked s h = elim (Option-cases (split_last b'}' s)) [
  | inl e ↦ rw (e, parse_literal_marker) refl
  | inr ((head, after), e) ↦ elim (Option-cases (split_last b'{' head)) [
    | inl f ↦ rw (e, f, parse_literal_marker) refl
    | inr ((before, inner), f) ↦ elim (Option-cases (parse_usize (trim_end_by is_plus inner))) [
      | inl g ↦ rw (e, f, parse_literal_marker) g
      | inr (n, g) ↦ absurd (
          h before inner after
            (split_last_lem b'}' s head after e
              ∙ ap (λ l. l ++ (b'}' ∷ after)) (split_last_lem b'{' head before inner f)
              ∙ ++_assoc before (b'{' ∷ inner) (b'}' ∷ after))
            (All_of_trim_end_by inner (parse_usize-IsSign (trim_end_by is_plus inner) n g)))
    ]
  ]
]

-- A line without an opening brace announces nothing.
pub Lacks-IsUnmarked : (s : Text) → Lacks b'{' s → IsUnmarked s
Lacks-IsUnmarked s l before inner after e h =
    stands before (inner ++ (b'}' ∷ after)) (subst (Lacks b'{') e l)
  where
    stands : (x y : Text) → Lacks b'{' (x ++ (b'{' ∷ y)) → ⊥
    stands [] y k = k.0 refl
    stands (c ∷ x) y k = stands x y k.1
