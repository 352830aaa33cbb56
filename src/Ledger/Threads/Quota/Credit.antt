-- ===== src/Ledger/Threads/Quota/Credit.antt =====
-- An account for the runs: what is written and what is on its way is paid for out of a credit.
use thundercrab.Prelude.{
  ℕ, ◌+◌, ◌*◌, ◌≤◌, ◌≡◌, Bool, List, [], ◌∷◌, ◌++◌, filter, length, arith, Text, Result-cases,
  Bool-cases, inl, inr, if◌then◌else◌,
}
use native.Mathlib.Nat.{mul-suc}
use thundercrab.Prelude.Sql.{Fault}
use thundercrab.Signing.Wire.{SignedSuggestion, Crypto, Serde}
use thundercrab.Signing.{verify}
use thundercrab.Ledger.Pow.{verify_pow}
use thundercrab.Ledger.Api.{AppState, canonical_rule_json, pow_difficulty_bits}
use thundercrab.Ledger.Api.State.{
  Governor, Encoder, SubmitEnvelope, StatusCode, accepted, ok_status, bad_request,
  too_many_requests, internal_server_error,
}
use thundercrab.Ledger.Threads.{
  Task, arrived, waiting, prepare, if_accepted, advance, remaining, written, Runs, boot, wait,
  arrive, cancel, step,
}

module _ {ℓ} {A : Type ℓ} where
  abbrev pub total : (A → ℕ) → List A → ℕ
  total f [] = 0
  total f (x ∷ xs) = f x + total f xs

  total-append : (f : A → ℕ) (xs ys : List A) → total f (xs ++ ys) ≡ total f xs + total f ys
  total-append f [] ys = omega arith
  total-append f (x ∷ xs) ys = omega (arith, total-append f xs ys)

  pub total-filter :
      (p : A → Bool) (n : ℕ) (xs : List A)
      → total (λ x. if p x then n else 0) xs ≡ n * length (filter p xs)
  total-filter p n [] = omega arith
  total-filter p n (x ∷ xs) = elim (Bool-cases (p x)) [
    | inl t ↦ rw t (omega (arith, total-filter p n xs, mul-suc n (length (filter p xs))))
    | inr f ↦ rw f (omega (arith, total-filter p n xs))
  ]

  pub total-const : (n : ℕ) (xs : List A) → total (λ x. n) xs ≡ n * length xs
  total-const n [] = omega arith
  total-const n (x ∷ xs) = omega (arith, total-const n xs, mul-suc n (length xs))

pub total-if_accepted :
    (price : SignedSuggestion → ℕ) (signed : SignedSuggestion) (status : StatusCode)
    → total price (if_accepted signed status) ≤ price signed
total-if_accepted price signed accepted = omega arith
total-if_accepted price signed ok_status = omega arith
total-if_accepted price signed bad_request = omega arith
total-if_accepted price signed too_many_requests = omega arith
total-if_accepted price signed internal_server_error = omega arith

-- A request that goes on to wait for the store does so with its own submission.
pub total-prepare :
    (g : Governor) (c : Crypto) (e : Serde) (enc : Encoder) (due : Task → ℕ) (n : ℕ)
    (envelope : SubmitEnvelope)
    → ((rule_json : Text) → due (waiting envelope.signed rule_json) ≤ n)
    → total due (remaining (prepare g c e enc envelope)) ≤ n
unfolding prepare
total-prepare g c e enc due n envelope h =
    let signed = envelope.signed in
    elim (Bool-cases (
      verify_pow c signed.suggestion.pattern_hash signed.public_key envelope.pow_nonce
        pow_difficulty_bits)) [
          | inr f ↦ rw f (omega arith)
          | inl p ↦ elim (Result-cases (verify c e signed)) [
            | inr (x, v) ↦ rw (p, v) (omega arith)
            | inl (suggestion, v) ↦
                elim (Result-cases (canonical_rule_json e enc suggestion.rule)) [
                  | inr (x, w) ↦ rw (p, v, w) (omega arith)
                  | inl (rule_json, w) ↦ rw (p, v, w) (omega (arith, h rule_json))
                ]
          ]
        ]

module _ (g : Governor) (c : Crypto) (e : Serde) (enc : Encoder)
    (Holds : AppState g c e enc → Type 0) (credit : AppState g c e enc → g.Instant → ℕ)
    (price : SignedSuggestion → ℕ) (due : Task → ℕ) where
  -- The credit grows with the clock, a request is paid for before it goes on, and nothing is owed for a new one.
  pub record IsPaid : Type 0 where
    pub clock :
        (state : AppState g c e enc) (now later : g.Instant)
        → Holds state
        → g.nanos now ≤ g.nanos later
        → credit state later + g.nanos now ≤ credit state now + g.nanos later
    pub fresh : (envelope : SubmitEnvelope) → due (arrived envelope) ≡ 0
    pub holds :
        (qf ef : Fault) (now : g.Instant) (task : Task) (state : AppState g c e enc)
        → Holds state
        → Holds (advance g c e enc qf ef now task state).1
    pub paid :
        (qf ef : Fault) (now : g.Instant) (task : Task) (state : AppState g c e enc)
        → Holds state
        → (let (outcome, state') = advance g c e enc qf ef now task state in
            total price (written task outcome) + total due (remaining outcome) + credit state' now
            ≤ due task + credit state now)

  pub credit_of_runs :
      (p : IsPaid) (s : AppState g c e enc) (t : g.Instant) (log : List SignedSuggestion)
      (now : g.Instant) (state : AppState g c e enc) (tasks : List Task)
      → Holds s
      → Runs g c e enc s t log now state tasks
      → Holds state
        × (total price log + total due tasks + credit state now + g.nanos t
            ≤ credit s t + g.nanos now)
  credit_of_runs p s t _ _ _ _ h boot = (h, omega arith)
  credit_of_runs p s t log _ state tasks h (wait {now = now} later q r) =
      let (k, b) = credit_of_runs p s t log now state tasks h r in
      (k, omega (arith, p.clock state now later k q))
  credit_of_runs p s t log now state _ h (arrive {tasks = tasks} envelope r) =
      let (k, b) = credit_of_runs p s t log now state tasks h r in
      (k, omega (arith, total-append due tasks (arrived envelope ∷ []), p.fresh envelope))
  credit_of_runs p s t log now state _ h (cancel before after task r) =
      let (k, b) = credit_of_runs p s t log now state (before ++ (task ∷ after)) h r in
      (k, omega (arith, total-append due before (task ∷ after), total-append due before after))
  credit_of_runs p s t _ now _ _ h (step {log = log} {state = state} before after task qf ef r) =
      let (k, b) = credit_of_runs p s t log now state (before ++ (task ∷ after)) h r in
      let o = (advance g c e enc qf ef now task state).0 in
      (
        p.holds qf ef now task state k,
        omega (
          arith,
          p.paid qf ef now task state k,
          total-append due before (task ∷ after),
          total-append due before (remaining o ++ after),
          total-append due (remaining o) after,
          total-append price log (written task o),
        ),
      )
