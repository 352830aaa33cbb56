-- ===== src/Ledger/Pow/Bits.antt =====
-- `leading_zero_bits` of api.rs against the bits of the digest.
use thundercrab.Prelude.{
  ℕ, zero, suc, ◌+◌, ◌/◌, ◌%◌, ◌<◌, ◌≤◌, ◌⊎◌, inl, inr, ◌≡◌, refl, Bool, true, false, List, [], ◌∷◌,
  ◌++◌, length, leb, ◌==◌, ==_iff, if◌then◌else◌, arith, All,
}
use thundercrab.Prelude.Hex.{IsByte}
use thundercrab.Signing.Wire.{Bytes}
use thundercrab.Ledger.Pow.{leading_zeros, leading_zero_bits_from, leading_zero_bits}

-- The bits of a byte, the most significant one first; `true` is a one.
unfoldable pub bits : ℕ → List Bool
bits b =
    leb 1 (b / 128 % 2)
    ∷ leb 1 (b / 64 % 2)
    ∷ leb 1 (b / 32 % 2)
    ∷ leb 1 (b / 16 % 2)
    ∷ leb 1 (b / 8 % 2)
    ∷ leb 1 (b / 4 % 2)
    ∷ leb 1 (b / 2 % 2)
    ∷ leb 1 (b % 2)
    ∷ []

unfoldable pub digest_bits : Bytes → List Bool
digest_bits [] = []
digest_bits (b ∷ bytes) = bits b ++ digest_bits bytes

-- The number of zeros before the first one.
unfoldable pub zeros_before_one : List Bool → ℕ
zeros_before_one [] = 0
zeros_before_one (true ∷ l) = 0
zeros_before_one (false ∷ l) = suc (zeros_before_one l)

byte_test : ℕ → Bool
byte_test b = zeros_before_one (bits b) == (if b == 0 then 8 else leading_zeros b)

-- The test holds at `count` bytes from `first` on.
agrees : (first count : ℕ) → Bool
agrees first zero = true
agrees first (suc count) =
    let later = agrees (suc first) count in if byte_test first then later else false

every_byte : agrees 0 256 ≡ true
unfolding agrees byte_test zeros_before_one bits leading_zeros
every_byte = refl

agrees-byte_test :
    (first count b : ℕ)
    → first ≤ b
    → b < first + count
    → agrees first count ≡ true
    → byte_test b ≡ true
unfolding agrees
agrees-byte_test first zero b low high e = absurd (omega (arith, low, high))
agrees-byte_test first (suc count) b low high e = elim (le_cases first b low) [
  | inl q ↦ rw (← q) (ground arith)
  | inr above ↦ agrees-byte_test (suc first) count b above (omega arith) (ground arith)
]
  where
    le_cases : (m n : ℕ) → m ≤ n → (m ≡ n) ⊎ (suc m ≤ n)
    le_cases m n h = ground arith

zeros_of_byte :
    (b : ℕ) → b < 256 → zeros_before_one (bits b) ≡ (if b == 0 then 8 else leading_zeros b)
unfolding byte_test
zeros_of_byte b h = (==_iff _ _).0 (agrees-byte_test 0 256 b (omega arith) h every_byte)

length-bits : (b : ℕ) → length (bits b) ≡ 8
unfolding bits
length-bits b = refl

zeros-append :
    (l r : List Bool)
    → zeros_before_one (l ++ r) ≡ (
        if zeros_before_one l == length l
        then zeros_before_one l + zeros_before_one r
        else zeros_before_one l)
unfolding zeros_before_one
zeros-append [] r = omega arith
zeros-append (true ∷ l) r = ground arith
zeros-append (false ∷ l) r = ground (arith, zeros-append l r)

leading_zeros-lt : (b : ℕ) → leading_zeros b < 8
unfolding leading_zeros
leading_zeros-lt b = ground arith

leading_zero_bits_from-eq :
    (total : ℕ) (bytes : Bytes)
    → All IsByte bytes
    → leading_zero_bits_from total bytes ≡ total + zeros_before_one (digest_bits bytes)
unfolding leading_zero_bits_from digest_bits
leading_zero_bits_from-eq total [] h = unfold zeros_before_one in omega arith
leading_zero_bits_from-eq total (b ∷ bytes) h = ground (
  arith,
  zeros-append (bits b) (digest_bits bytes),
  zeros_of_byte b h.0,
  length-bits b,
  leading_zeros-lt b,
  leading_zero_bits_from-eq (total + 8) bytes h.1,
)

-- For every string of bytes, `leading_zero_bits` is the number of zero bits before the first one bit,
-- the most significant bit of each byte first; it is 8 for each byte if all are 0.
pub leading_zero_bits-eq :
    (bytes : Bytes)
    → All IsByte bytes
    → leading_zero_bits bytes ≡ zeros_before_one (digest_bits bytes)
unfolding leading_zero_bits
leading_zero_bits-eq bytes h = omega (arith, leading_zero_bits_from-eq 0 bytes h)
