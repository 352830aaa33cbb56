-- ===== src/Prelude/Strings.antt =====
-- The methods of Rust's `str` that the clients use, on texts as lists of characters.
use thundercrab.Prelude.{
  List, ℕ, zero, suc, ◌-◌, length, ◌≡◌, ◌≢◌, refl, Bool, true, false, ◌&&◌, ◌||◌, Text, Option,
  none, some, [], ◌∷◌, ◌++◌, leb, ◌==◌, if◌then◌else◌, arith, All,
}

abbrev pub Bytes : Type 0
Bytes = List ℕ

abbrev pub is_empty : Text → Bool
is_empty [] = true
is_empty (c ∷ s) = false

-- `char::is_whitespace`: the property White_Space of Unicode.
unfoldable pub is_whitespace : ℕ → Bool
is_whitespace c =
    leb 9 c && leb c 13
    || c == 32
    || c == 133
    || c == 160
    || c == 5760
    || leb 8192 c && leb c 8202
    || c == 8232
    || c == 8233
    || c == 8239
    || c == 8287
    || c == 12288

-- `trim_start_matches` and `trim_end_matches`, by a test on characters.
unfoldable pub trim_start_by : (ℕ → Bool) → Text → Text
trim_start_by p [] = []
trim_start_by p (c ∷ s) = let rest = trim_start_by p s in if p c then rest else c ∷ s

unfoldable pub trim_end_by : (ℕ → Bool) → Text → Text
trim_end_by p [] = []
trim_end_by p (c ∷ s) = let rest = trim_end_by p s in if p c && is_empty rest then [] else c ∷ rest

abbrev pub trim : Text → Text
trim s = trim_end_by is_whitespace (trim_start_by is_whitespace s)

unfoldable pub strip_prefix : Text → Text → Option Text
strip_prefix [] s = some s
strip_prefix (c ∷ p) [] = none
strip_prefix (c ∷ p) (d ∷ s) = let rest = strip_prefix p s in if c == d then rest else none

abbrev pub before_split : ℕ → Option (Text × Text) → Option (Text × Text)
before_split c none = none
before_split c (some (a, b)) = some (c ∷ a, b)

-- `split_once`: what stands before the first occurrence of the character and what follows it.
unfoldable pub split_once : ℕ → Text → Option (Text × Text)
split_once d [] = none
split_once d (c ∷ s) =
    let rest = before_split c (split_once d s) in if c == d then some ([], s) else rest

-- `rfind`, with the texts on both sides of the last occurrence.
unfoldable pub split_last : ℕ → Text → Option (Text × Text)
split_last d [] = none
split_last d (c ∷ s) = elim (split_last d s) [
  | some (a, b) ↦ some (c ∷ a, b)
  | none ↦ if c == d then some ([], s) else none
]

-- The character does not stand in the text.
abbrev pub Lacks : ℕ → Text → Type 0
Lacks d s = All (λ c. c ≢ d) s

pub split_last_of_Lacks : (d : ℕ) (s : Text) → Lacks d s → split_last d s ≡ none
unfolding split_last
split_last_of_Lacks d [] h = refl
split_last_of_Lacks d (c ∷ s) h = rw (split_last_of_Lacks d s h.1) (ground (arith, h.0))

pub split_last-append : (d : ℕ) (a b : Text) → Lacks d b → split_last d (a ++ (d ∷ b)) ≡ some (a, b)
unfolding split_last
split_last-append d [] b h = rw (split_last_of_Lacks d b h) (ground arith)
split_last-append d (c ∷ a) b h = rw (split_last-append d a b h) refl

pub is_empty-append : (s : Text) (c : ℕ) (t : Text) → is_empty (s ++ (c ∷ t)) ≡ false
is_empty-append [] c t = refl
is_empty-append (d ∷ s) c t = refl

-- Nothing is trimmed from a text that ends in a character to be kept.
pub trim_end_by-append :
    (p : ℕ → Bool) (s : Text) (c : ℕ) (t : Text)
    → p c ≡ false
    → trim_end_by p t ≡ []
    → trim_end_by p (s ++ (c ∷ t)) ≡ s ++ (c ∷ [])
unfolding trim_end_by
trim_end_by-append p [] c t h k = rw (h, k) refl
trim_end_by-append p (d ∷ s) c t h k =
    rw (trim_end_by-append p s c t h k) (ground (arith, is_empty-append s c []))

-- Nothing is trimmed from characters that are all to be kept.
pub trim_end_by_of_kept :
    (p : ℕ → Bool) (s t : Text)
    → All (λ c. p c ≡ false) s
    → trim_end_by p t ≡ []
    → trim_end_by p (s ++ t) ≡ s
unfolding trim_end_by
trim_end_by_of_kept p [] t h k = k
trim_end_by_of_kept p (c ∷ s) t h k = rw (trim_end_by_of_kept p s t h.1 k) (ground (arith, h.0))

abbrev pub spaces : ℕ → Text
spaces zero = []
spaces (suc n) = b' ' ∷ spaces n

-- `{:>w}`
abbrev pub aligned : ℕ → Text → Text
aligned w s = spaces (w - length s) ++ s
