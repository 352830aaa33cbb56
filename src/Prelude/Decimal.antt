-- ===== src/Prelude/Decimal.antt =====
-- Numbers in decimal, as `format!("{n}")` prints them.
use mathlib.Core.Path.{subst}
use native.Mathlib.Nat.{pow-succ'}
use thundercrab.Prelude.{
  ℕ, zero, suc, ◌+◌, ◌*◌, ◌/◌, ◌%◌, ◌^◌, ◌<◌, ◌≤◌, ◌≡◌, Text, [], ◌∷◌, ◌++◌, ltb, if◌then◌else◌,
  arith, All, All-append, Bool-cases, inl, inr,
}

unfoldable pub decimal : (fuel : ℕ) → ℕ → Text
decimal zero n = []
decimal (suc fuel) n =
    let high = decimal fuel (n / 10) in
    if ltb n 10 then (b'0' + n) ∷ [] else high ++ ((b'0' + n % 10) ∷ [])

-- Twenty digits hold every 64-bit number.
abbrev pub show : ℕ → Text
show n = decimal 20 n

abbrev pub IsDigit : ℕ → Type 0
IsDigit c = (b'0' ≤ c) × (c ≤ b'9')

pub decimal-IsDigit : (fuel n : ℕ) → All IsDigit (decimal fuel n)
unfolding decimal
decimal-IsDigit zero n = tt
decimal-IsDigit (suc fuel) n = elim (Bool-cases (ltb n 10)) [
  | inl t ↦ rw t ((ground arith, ground arith), tt)
  | inr f ↦ rw f (
      All-append IsDigit (decimal fuel (n / 10)) _ (decimal-IsDigit fuel (n / 10))
        (omega arith, tt))
]

-- Induction on a printed number: a property of the digits so far that each further digit keeps.
pub decimal_ind {ℓ} :
    (P : ℕ → Text → Type ℓ)
    → ((d : ℕ) → d < 10 → P d ((b'0' + d) ∷ []))
    → ((n d : ℕ) (s : Text) → d < 10 → P n s → P (10 * n + d) (s ++ ((b'0' + d) ∷ [])))
    → (fuel n : ℕ) → n < 10 ^ suc fuel
    → P n (decimal (suc fuel) n)
unfolding decimal
decimal_ind P one more zero n h = elim (Bool-cases (ltb n 10)) [
  | inl t ↦ rw t (one n (ground arith))
  | inr f ↦ absurd (ground arith)
]
decimal_ind P one more (suc fuel) n h = elim (Bool-cases (ltb n 10)) [
  | inl t ↦ rw t (one n (ground arith))
  | inr f ↦
      let bound = rw (pow-succ' 10 (suc fuel)) at h in
      let high = decimal_ind P one more fuel (n / 10) (omega (arith, bound)) in
      let same : 10 * (n / 10) + n % 10 ≡ n = omega arith in
      rw f (
        subst (λ k. P k (decimal (suc fuel) (n / 10) ++ ((b'0' + n % 10) ∷ []))) same
          (more (n / 10) (n % 10) (decimal (suc fuel) (n / 10)) (omega arith) high))
]
