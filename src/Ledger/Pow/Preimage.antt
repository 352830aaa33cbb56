-- ===== src/Ledger/Pow/Preimage.antt =====
-- The bytes that `verify_pow` of api.rs hashes.
use native.Mathlib.Nat.{pow-succ'}
use thundercrab.Prelude.{ℕ, zero, suc, ◌/◌, ◌%◌, ◌^◌, ◌<◌, ◌≡◌, refl, [], ◌∷◌, ◌++◌, length, arith}
use thundercrab.Signing.Wire.{Bytes}
use thundercrab.Ledger.Pow.{le_bytes, to_le_bytes, pow_input}

append-inj : (a b x y : Bytes) → length a ≡ length b → a ++ x ≡ b ++ y → (a ≡ b) × (x ≡ y)
append-inj [] [] x y h e = (refl, e)
append-inj [] (d ∷ b) x y h e = absurd (omega arith)
append-inj (c ∷ a) [] x y h e = absurd (omega arith)
append-inj (c ∷ a) (d ∷ b) x y h e = let (p, q) = append-inj a b x y (omega arith) (cc) in (cc, q)

le_bytes-inj : (n x y : ℕ) → x < 256 ^ n → y < 256 ^ n → le_bytes n x ≡ le_bytes n y → x ≡ y
unfolding le_bytes
le_bytes-inj zero x y h k e = omega arith
le_bytes-inj (suc n) x y h k e =
    let hx = rw (pow-succ' 256 n) at h in
    let hy = rw (pow-succ' 256 n) at k in
    let low : x % 256 ≡ y % 256 = cc in
    let rest : le_bytes n (x / 256) ≡ le_bytes n (y / 256) = cc in
    let high = le_bytes-inj n (x / 256) (y / 256) (omega (arith, hx)) (omega (arith, hy)) rest in
    omega (arith, low, high)

-- Two proof-of-work inputs with 32-byte hashes, 32-byte keys and 64-bit nonces that hash the same
-- bytes are for the same pattern, the same key and the same nonce.
pub pow_input-inj :
    (h k h' k' : Bytes) (n n' : ℕ)
    → length h ≡ 32
    → length k ≡ 32
    → length h' ≡ 32
    → length k' ≡ 32
    → n < 2 ^ 64
    → n' < 2 ^ 64
    → pow_input h k n ≡ pow_input h' k' n'
    → (h ≡ h') × (k ≡ k') × (n ≡ n')
unfolding pow_input
pow_input-inj h k h' k' n n' lh lk lh' lk' small small' e =
    let (same_hash, rest) =
      append-inj h h' (k ++ to_le_bytes n) (k' ++ to_le_bytes n') (omega arith) e in
    let (same_key, tail) = append-inj k k' (to_le_bytes n) (to_le_bytes n') (omega arith) rest in
    (same_hash, same_key, le_bytes-inj 8 n n' small small' tail)
