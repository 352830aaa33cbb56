-- ===== src/Ledger/Threads/Quota/Keyed.antt =====
-- The limiter for each public key.
use thundercrab.Prelude.{
  ℕ, ◌+◌, ◌*◌, ◌/◌, ◌≤◌, ◌≡◌, refl, sym, ◌∙◌, true, false, filter, List, arith, length, Bool-cases,
  inl, inr, if◌then◌else◌,
}
use thundercrab.Prelude.Eq.{same, same_iff, text_same}
use thundercrab.Prelude.Sql.{Fault}
use thundercrab.Signing.Wire.{Bytes, SignedSuggestion, Crypto, Serde}
use thundercrab.Ledger.Api.{AppState, new_state}
use thundercrab.Ledger.Store.{Store}
use thundercrab.Ledger.Threads.Quota.Credit.{
  total, total-filter, total-if_accepted, total-prepare, IsPaid, credit_of_runs,
}
use thundercrab.Ledger.Api.State.{Governor, Encoder}
use thundercrab.Ledger.Threads.{
  Task, arrived, counted, waiting, pass_global, pass_key, commit, advance, remaining, written, Runs,
}
use thundercrab.Ledger.Threads.Quota.{hour, IsGcra}

module _ (g : Governor) (c : Crypto) (e : Serde) (enc : Encoder) (q : IsGcra g) (k : Bytes) where
  -- A cell of the key, for its requests that have passed the keyed limiter.
  abbrev key_price : SignedSuggestion → ℕ
  key_price signed = if same signed.public_key k then 60000000000 else 0

  abbrev key_due : Task → ℕ
  key_due (arrived envelope) = 0
  key_due (counted envelope) = 0
  key_due (waiting signed rule_json) = key_price signed

  key_holds :
      (qf ef : Fault) (now : g.Instant) (task : Task) (state : AppState g c e enc)
      → q.key_cells state.per_key ≡ 60
      → q.key_cells (advance g c e enc qf ef now task state).1.per_key ≡ 60
  unfolding advance pass_global pass_key commit
  key_holds qf ef now (arrived envelope) state h = h
  key_holds qf ef now (counted envelope) state h =
      q.check_key_cells state.per_key envelope.signed.public_key now ∙ h
  key_holds qf ef now (waiting signed rule_json) state h = h

  -- What a submission of any key does to the credit of `k`.
  key_credit-check :
      (l : g.Keyed) (signed : SignedSuggestion) (now : g.Instant)
      → q.key_cells l ≡ 60
      → (g.check_key l signed.public_key now).0 ≡ true
      → key_price signed + q.key_credit (g.check_key l signed.public_key now).1 k now
        ≤ q.key_credit l k now
  key_credit-check l signed now h a = elim (Bool-cases (same signed.public_key k)) [
    | inl y ↦
        let cell : hour / q.key_cells l ≡ 60000000000 = rw h refl in
        let is_k = (same_iff signed.public_key k).0 y in
        rw (y, sym is_k) (omega (arith, cell, q.key_passed l signed.public_key now a))
    | inr n ↦ rw n (
        omega (
          arith,
          q.key_other l signed.public_key k now (λ p. ground (arith, same_iff signed.public_key k)),
        ))
  ]

  key_credit-refused :
      (l : g.Keyed) (signed : SignedSuggestion) (now : g.Instant)
      → (g.check_key l signed.public_key now).0 ≡ false
      → q.key_credit (g.check_key l signed.public_key now).1 k now ≤ q.key_credit l k now
  key_credit-refused l signed now a = elim (Bool-cases (same signed.public_key k)) [
    | inl y ↦
        rw (sym ((same_iff signed.public_key k).0 y)) (q.key_limited l signed.public_key now a)
    | inr n ↦
        q.key_other l signed.public_key k now (λ p. ground (arith, same_iff signed.public_key k))
  ]

  key_paid :
      (qf ef : Fault) (now : g.Instant) (task : Task) (state : AppState g c e enc)
      → q.key_cells state.per_key ≡ 60
      → (let (outcome, state') = advance g c e enc qf ef now task state in
          total key_price (written task outcome)
            + total key_due (remaining outcome)
            + q.key_credit state'.per_key k now
          ≤ key_due task + q.key_credit state.per_key k now)
  unfolding advance pass_global pass_key commit
  key_paid qf ef now (arrived envelope) state h = elim (Bool-cases (g.check state.global now).0) [
    | inl a ↦ rw a (omega arith)
    | inr a ↦ rw a (omega arith)
  ]
  key_paid qf ef now (counted envelope) state h =
      let signed = envelope.signed in
      elim (Bool-cases (g.check_key state.per_key signed.public_key now).0) [
        | inl a ↦ rw a (
            omega (
              arith,
              key_credit-check state.per_key signed now h a,
              total-prepare g c e enc key_due (key_price signed) envelope (λ j. omega arith),
            ))
        | inr a ↦ rw a (omega (arith, key_credit-refused state.per_key signed now a))
      ]
  key_paid qf ef now (waiting signed rule_json) state h =
      let r = (commit g c e enc qf ef signed rule_json state).0 in
      omega (arith, total-if_accepted key_price signed r.status)

  key_account :
      IsPaid g c e enc
        (λ s. q.key_cells s.per_key ≡ 60)
        (λ s now. q.key_credit s.per_key k now)
        key_price
        key_due
  key_account = record {
    clock = λ s now later h p. q.key_clock s.per_key k now later p;
    fresh = λ envelope. refl;
    holds = key_holds;
    paid = key_paid;
  }

  -- From a new state on, and however the requests overlap, the submissions that are written for one
  -- public key are at most 60 and one more for each minute that went by.
  pub runs-key_limit :
      (store : Store) (t : g.Instant) (log : List SignedSuggestion) (now : g.Instant)
      (state : AppState g c e enc) (tasks : List Task)
      → Runs g c e enc (new_state g c e enc store) t log now state tasks
      → 60000000000 * length (filter (λ x. same x.public_key k) log) + g.nanos t
        ≤ hour + g.nanos now
  unfolding new_state
  runs-key_limit store t log now state tasks r =
      let (h, b) =
        credit_of_runs g c e enc (λ s. q.key_cells s.per_key ≡ 60)
          (λ s now. q.key_credit s.per_key k now) key_price key_due key_account
          (new_state g c e enc store) t log now state tasks (q.dashmap_cells 60) r in
      omega
        (arith, b, total-filter (λ x. same x.public_key k) 60000000000 log, q.dashmap_credit 60 k t)
