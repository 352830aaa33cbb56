-- ===== src/Sieve/Base64.antt =====
-- thundercrab-imap/src/managesieve.rs: `base64_encode`, against a decoder.
use mathlib.Core.Bool.{not}
use thundercrab.Prelude.{
  ℕ, zero, suc, ◌+◌, ◌*◌, ◌/◌, ◌%◌, Bool, true, ◌&&◌, Text, codes, List, [], ◌∷◌, ◌==◌,
  if◌then◌else◌, ◌-◌, leb,
}

-- `CHARS`
abbrev pub chars : Text
chars = codes "ABCDEFGHIJKLMNOPQRSTUVWXYZabcdefghijklmnopqrstuvwxyz0123456789+/"

-- `CHARS[n]`; every index below is less than 64.
unfoldable pub char_at : ℕ → Text → ℕ
char_at n [] = 0
char_at zero (c ∷ cs) = c
char_at (suc n) (c ∷ cs) = char_at n cs

abbrev pub sextet : ℕ → ℕ
sextet n = char_at n chars

-- Three bytes at a time, then the remainder. `b >> k` is a division by a power of two, `b & m` a
-- remainder, and the operands of each `|` have no bit in common, so that it is a sum.
unfoldable pub base64_encode : List ℕ → Text
base64_encode [] = []
base64_encode (b0 ∷ []) = sextet (b0 / 4) ∷ sextet (b0 % 4 * 16) ∷ b'=' ∷ b'=' ∷ []
base64_encode (b0 ∷ b1 ∷ []) =
    sextet (b0 / 4) ∷ sextet (b0 % 4 * 16 + b1 / 16) ∷ sextet (b1 % 16 * 4) ∷ b'=' ∷ []
base64_encode (b0 ∷ b1 ∷ b2 ∷ bytes) =
    sextet (b0 / 4)
    ∷ sextet (b0 % 4 * 16 + b1 / 16)
    ∷ sextet (b1 % 16 * 4 + b2 / 64)
    ∷ sextet (b2 % 64)
    ∷ base64_encode bytes

-- The value of a character by RFC 4648: the letters, the digits, `+` and `/`, in this order.
abbrev pub value : ℕ → ℕ
value c =
    if leb b'a' c && leb c b'z'
    then c - b'a' + 26
    else if leb b'A' c && leb c b'Z'
    then c - b'A'
    else if leb b'0' c && leb c b'9'
    then c - b'0' + 52
    else if c == b'+'
    then 62
    else 63

-- Four characters at a time; a `=` ends the text with one byte or two.
unfoldable pub base64_decode : Text → List ℕ
base64_decode (c0 ∷ c1 ∷ c2 ∷ c3 ∷ cs) =
    let rest = base64_decode cs in
    let b0 = value c0 * 4 + value c1 / 16 in
    let b1 = value c1 % 16 * 16 + value c2 / 4 in
    let b2 = value c2 % 4 * 64 + value c3 in
    if c2 == b'=' then b0 ∷ [] else if c3 == b'=' then b0 ∷ b1 ∷ [] else b0 ∷ b1 ∷ b2 ∷ rest
base64_decode _ = []

-- The test holds of all numbers below `k`.
below : ℕ → (ℕ → Bool) → Bool
below zero p = true
below (suc k) p = p k && below k p

abbrev reads_back : ℕ → Bool
reads_back n = value (sextet n) == n && not (sextet n == b'=')
