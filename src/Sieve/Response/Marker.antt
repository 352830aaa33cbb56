-- ===== src/Sieve/Response/Marker.antt =====
-- `parse_literal_marker` of managesieve.rs against the markers that RFC 5804 writes.
use thundercrab.Prelude.{
  ℕ, ◌+◌, ◌-◌, ◌*◌, ◌^◌, ◌<◌, ◌≡◌, ◌≢◌, refl, sym, ap, ◌∙◌, Bool, true, false, Text, some, [], ◌∷◌,
  ◌++◌, arith, All, All-append, if◌then◌else◌,
}
use mathlib.Core.List.{append_assoc, append-nil}
use thundercrab.Prelude.Decimal.{show, IsDigit, decimal-IsDigit, decimal_ind}
use thundercrab.Prelude.Strings.{
  split_last, split_last-append, trim_end_by, Lacks, is_empty, is_empty-append,
}
use thundercrab.Sieve.Response.{parse_digits, parse_usize, is_plus, parse_literal_marker}

-- How a literal of `n` bytes is announced: `{n}` or `{n+}`.
abbrev pub marker : ℕ → Bool → Text
marker n plus = b'{' ∷ (show n ++ (if plus then b'+' ∷ b'}' ∷ [] else b'}' ∷ []))

-- The digits are read as the number, and reading goes on behind them.
abbrev Reads : ℕ → Text → Type 0
Reads n s = n < 2 ^ 64 → (more : Text) → parse_digits 0 (s ++ more) ≡ parse_digits n more

Reads-digit : (d : ℕ) → d < 10 → Reads d ((b'0' + d) ∷ [])
unfolding parse_digits
Reads-digit d h small more = ground arith

Reads-more : (n d : ℕ) (s : Text) → d < 10 → Reads n s → Reads (10 * n + d) (s ++ ((b'0' + d) ∷ []))
unfolding parse_digits
Reads-more n d s h r small more =
    rw (append_assoc s ((b'0' + d) ∷ []) more, r (omega arith) ((b'0' + d) ∷ more))
      (digit_step n d more h small)
  where
    digit_step :
        (n d : ℕ) (more : Text)
        → d < 10
        → 10 * n + d < 2 ^ 64
        → parse_digits n ((b'0' + d) ∷ more) ≡ parse_digits (10 * n + d) more
    digit_step n d more h small =
        let same : n * 10 + ((b'0' + d) - b'0') ≡ 10 * n + d = omega arith in ground (arith, same)

Reads-show : (n : ℕ) → n < 2 ^ 64 → Reads n (show n)
Reads-show n h = decimal_ind Reads Reads-digit Reads-more 19 n (omega arith)

show-ne-nil : (n : ℕ) → n < 2 ^ 64 → is_empty (show n) ≡ false
show-ne-nil n h =
    decimal_ind (λ n s. is_empty s ≡ false) (λ d l. refl)
      (λ n d s l k. is_empty-append s (b'0' + d) []) 19 n (omega arith)

parse_usize_of_digits :
    (s : Text) → All IsDigit s → is_empty s ≡ false → parse_usize s ≡ parse_digits 0 s
unfolding parse_usize
parse_usize_of_digits [] h k = cc
parse_usize_of_digits (c ∷ []) h k = refl
parse_usize_of_digits (c ∷ d ∷ s) h k = ground arith

-- Digits lack every other character, and lose none to the trimming of plus signs.
Lacks-of_digits : (d : ℕ) (s : Text) → b'9' < d → All IsDigit s → Lacks d s
Lacks-of_digits d [] l h = tt
Lacks-of_digits d (c ∷ s) l h = ((λ e. omega (arith, e)), Lacks-of_digits d s l h.1)

trim_digits :
    (s : Text) (t : Text)
    → All IsDigit s
    → trim_end_by is_plus t ≡ []
    → trim_end_by is_plus (s ++ t) ≡ s
unfolding trim_end_by
trim_digits [] t h k = k
trim_digits (c ∷ s) t h k = rw (trim_digits s t h.1 k) (ground arith)

parse_usize-show : (n : ℕ) → n < 2 ^ 64 → parse_usize (show n) ≡ some n
unfolding parse_digits
parse_usize-show n h =
    parse_usize_of_digits (show n) (decimal-IsDigit 20 n) (show-ne-nil n h)
    ∙ ap (parse_digits 0) (sym (append-nil (show n)))
    ∙ Reads-show n h h []

braces :
    (line head after before inner : Text)
    → split_last b'}' line ≡ some (head, after)
    → split_last b'{' head ≡ some (before, inner)
    → parse_literal_marker line ≡ parse_usize (trim_end_by is_plus inner)
unfolding parse_literal_marker
braces line head after before inner h k = ground arith

parse_announced :
    (n : ℕ) (before plus : Text)
    → n < 2 ^ 64
    → Lacks b'{' plus
    → trim_end_by is_plus plus ≡ []
    → parse_literal_marker (before ++ (b'{' ∷ (show n ++ (plus ++ (b'}' ∷ []))))) ≡ some n
parse_announced n before plus h l t =
    let head = before ++ (b'{' ∷ (show n ++ plus)) in
    let regroup : before ++ (b'{' ∷ (show n ++ (plus ++ (b'}' ∷ [])))) ≡ head ++ (b'}' ∷ []) =
      ap (λ x. before ++ (b'{' ∷ x)) (sym (append_assoc (show n) plus (b'}' ∷ [])))
      ∙ sym (append_assoc before (b'{' ∷ (show n ++ plus)) (b'}' ∷ [])) in
    let open_brace = split_last-append b'{' before (show n ++ plus) (
      All-append (λ c. c ≢ b'{') (show n) plus
        (Lacks-of_digits b'{' (show n) (omega arith) (decimal-IsDigit 20 n)) l) in
    ap parse_literal_marker regroup
    ∙ braces (head ++ (b'}' ∷ [])) head [] before (show n ++ plus)
        (split_last-append b'}' head [] tt) open_brace
    ∙ ap parse_usize (trim_digits (show n) plus (decimal-IsDigit 20 n) t)
    ∙ parse_usize-show n h

-- A line that ends in the marker of a literal announces its length: any text may stand before
-- `{n}` or `{n+}`, for every 64-bit number `n`.
pub parse_literal_marker-marker :
    (before : Text) (n : ℕ) (plus : Bool)
    → n < 2 ^ 64
    → parse_literal_marker (before ++ marker n plus) ≡ some n
unfolding trim_end_by
parse_literal_marker-marker before n true h =
    parse_announced n before (b'+' ∷ []) h ((λ e. omega arith), tt) refl
parse_literal_marker-marker before n false h = parse_announced n before [] h tt refl
