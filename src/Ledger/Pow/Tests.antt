-- ===== src/Ledger/Pow/Tests.antt =====
-- Runs of the proof-of-work gate, and its theorems at concrete bytes.
use thundercrab.Prelude.{ℕ, ◌≡◌, refl, [], ◌∷◌, ◌++◌, arith}
use thundercrab.Ledger.Pow.{leading_zeros, leading_zero_bits_from, leading_zero_bits, le_bytes}
use thundercrab.Ledger.Pow.Bits.{digest_bits, zeros_before_one, leading_zero_bits-eq}
use thundercrab.Signing.Wire.{Bytes}

runs : Unit {0}
unfolding leading_zeros leading_zero_bits_from leading_zero_bits le_bytes
runs = tt

twelve_zero_bits : leading_zero_bits (0 ∷ 15 ∷ 255 ∷ []) ≡ 12
unfolding runs
twelve_zero_bits = refl

no_zero_bit : leading_zero_bits (128 ∷ 0 ∷ []) ≡ 0
unfolding runs
no_zero_bit = refl

little_endian : le_bytes 8 258 ≡ 2 ∷ 1 ∷ 0 ∷ 0 ∷ 0 ∷ 0 ∷ 0 ∷ 0 ∷ []
unfolding runs
little_endian = refl

abbrev digest : Bytes
digest = 0 ∷ 15 ∷ 255 ∷ []

leading_zero_bits-eq_example : leading_zero_bits digest ≡ zeros_before_one (digest_bits digest)
leading_zero_bits-eq_example = leading_zero_bits-eq digest (omega arith)

abbrev eight : ℕ → Bytes
eight b = b ∷ b ∷ b ∷ b ∷ b ∷ b ∷ b ∷ b ∷ []

abbrev nonce : ℕ
nonce = 5

abbrev bytes : ℕ → Bytes
bytes b = eight b ++ (eight b ++ (eight b ++ eight b))
