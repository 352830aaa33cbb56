-- ===== src/Imap/Fetch/Newest.antt =====
-- `fetch_headers` of rust_imap.rs: which messages of the folder are asked for.
use thundercrab.Prelude.{
  ℕ, ◌+◌, ◌-◌, ◌%◌, ◌^◌, ◌<◌, ◌≤◌, ◌≡◌, refl, ◌↔◌, ◌⊎◌, inl, inr, some, ltb, arith, Bool-cases,
  true, false,
}
use thundercrab.Imap.Fetch.{Range, span, everything, fetch_range}

-- The sequence numbers of a folder with `total` messages that a range stands for, by RFC 3501: the
-- two ends of a span may come in either order.
abbrev pub Selects : Range → ℕ → ℕ → Type 0
Selects (span a b) total i = (1 ≤ i) × (i ≤ total) × (((a ≤ i) × (i ≤ b)) ⊎ ((b ≤ i) × (i ≤ a)))
Selects everything total i = (1 ≤ i) × (i ≤ total)

first_lt :
    (n total : ℕ) → 0 < n → n < total → total < 2 ^ 32 → (total - n + 1) % 2 ^ 32 ≡ total - n + 1
first_lt n total h k l = omega arith

few : (n total : ℕ) → ltb n total ≡ false → fetch_range (some n) total ≡ everything
unfolding fetch_range
few n total e = rw (e) refl

many :
    (n total : ℕ)
    → 0 < n
    → total < 2 ^ 32
    → ltb n total ≡ true
    → fetch_range (some n) total ≡ span (total - n + 1) total
unfolding fetch_range
many n total h k e = rw (e, first_lt n total h (ground arith) k) refl

-- A positive limit `n` asks for the newest `n` messages, all of them if there are no more, and for no
-- others: the message with number `i` is among them just if fewer than `n` come behind it. The 32-bit
-- arithmetic of the range does not wrap round.
pub fetch_range-newest :
    (n total i : ℕ)
    → 0 < n
    → total < 2 ^ 32
    → Selects (fetch_range (some n) total) total i ↔ ((1 ≤ i) × (i ≤ total) × (total < i + n))
fetch_range-newest n total i h k = elim (Bool-cases (ltb n total)) [
  | inl e ↦
      let small : n < total = ground arith in
      rw (many n total h k e) (
        (λ (a, b, c). elim c [
          | inl (d, f) ↦ (a, b, omega arith)
          | inr (d, f) ↦ (a, b, omega arith)
        ]),
        (λ (a, b, c). (a, b, inl (omega arith, b))),
      )
  | inr e ↦
      let large : total ≤ n = ground arith in
      rw (few n total e) ((λ (a, b). (a, b, omega arith)), (λ (a, b, c). (a, b)))
]
