-- ===== src/Prelude/Hex.antt =====
-- `format!("{b:02x}")` of each byte: two lower-case hexadecimal digits.
use thundercrab.Prelude.{
  ℕ, ◌+◌, ◌-◌, ◌*◌, ◌/◌, ◌%◌, ◌<◌, ◌≡◌, refl, List, [], ◌∷◌, Text, arith, All, length, ltb,
  if◌then◌else◌,
}

unfoldable pub hex_digit : ℕ → ℕ
hex_digit n = if ltb n 10 then b'0' + n else b'a' + (n - 10)

unfoldable pub hex : List ℕ → Text
hex [] = []
hex (b ∷ bytes) = hex_digit (b / 16) ∷ hex_digit (b % 16) ∷ hex bytes

-- A byte is two digits.
abbrev pub IsByte : ℕ → Type 0
IsByte b = b < 256

hex_digit-inj : (m n : ℕ) → m < 16 → n < 16 → hex_digit m ≡ hex_digit n → m ≡ n
unfolding hex_digit
hex_digit-inj m n h k e = ground arith

pub length-hex : (bytes : List ℕ) → length (hex bytes) ≡ 2 * length bytes
unfolding hex
length-hex [] = refl
length-hex (b ∷ bytes) = omega (arith, length-hex bytes)

-- Different byte strings have different hexadecimal texts.
pub hex-inj : (a b : List ℕ) → All IsByte a → All IsByte b → hex a ≡ hex b → a ≡ b
unfolding hex
hex-inj [] [] h k e = refl
hex-inj [] (y ∷ b) h k e = cc
hex-inj (x ∷ a) [] h k e = cc
hex-inj (x ∷ a) (y ∷ b) h k e =
    ground (arith, hex-inj a b, hex_digit-inj (x / 16) (y / 16), hex_digit-inj (x % 16) (y % 16))
