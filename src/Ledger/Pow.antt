-- ===== src/Ledger/Pow.antt =====
-- crab-ledger/src/api.rs: the proof-of-work gate.
pub mod Bits
pub mod Preimage
mod Tests
use thundercrab.Prelude.{
  ℕ, suc, ◌+◌, ◌/◌, ◌%◌, ◌^◌, Bool, List, [], ◌∷◌, ◌++◌, ltb, leb, ◌==◌, if◌then◌else◌,
}
use thundercrab.Signing.Wire.{Bytes, Crypto}

-- `u8::leading_zeros` of a byte other than 0.
unfoldable pub leading_zeros : ℕ → ℕ
leading_zeros b =
    if ltb b 2
    then 7
    else if ltb b 4
    then 6
    else if ltb b 8
    then 5
    else if ltb b 16
    then 4
    else if ltb b 32
    then 3
    else if ltb b 64
    then 2
    else if ltb b 128
    then 1
    else 0

-- The loop, with `total` so far; `break` at the first byte that is not 0.
unfoldable pub leading_zero_bits_from : ℕ → Bytes → ℕ
leading_zero_bits_from total [] = total
leading_zero_bits_from total (b ∷ bytes) =
    let rest = leading_zero_bits_from (total + 8) bytes in
    if b == 0 then rest else total + leading_zeros b

unfoldable pub leading_zero_bits : Bytes → ℕ
leading_zero_bits bytes = leading_zero_bits_from 0 bytes

-- The first `n` bytes of a number, the least significant one first.
unfoldable pub le_bytes : ℕ → ℕ → Bytes
le_bytes ℕ.zero x = []
le_bytes (suc n) x = x % 256 ∷ le_bytes n (x / 256)

-- `u64::to_le_bytes`
abbrev pub to_le_bytes : ℕ → Bytes
to_le_bytes x = le_bytes 8 x

-- What the three calls of `hasher.update` feed to the hash.
unfoldable pub pow_input : Bytes → Bytes → ℕ → Bytes
pow_input pattern_hash public_key pow_nonce = pattern_hash ++ (public_key ++ to_le_bytes pow_nonce)

unfoldable pub verify_pow : Crypto → Bytes → Bytes → ℕ → ℕ → Bool
verify_pow c pattern_hash public_key pow_nonce difficulty_bits =
    leb difficulty_bits (leading_zero_bits (c.blake3 (pow_input pattern_hash public_key pow_nonce)))
