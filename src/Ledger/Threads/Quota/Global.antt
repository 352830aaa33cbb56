-- ===== src/Ledger/Threads/Quota/Global.antt =====
-- The limiter that all submissions share.
use thundercrab.Prelude.{
  ℕ, ◌+◌, ◌*◌, ◌/◌, ◌≤◌, ◌≡◌, refl, ◌∙◌, List, arith, length, Bool-cases, inl, inr,
}
use thundercrab.Prelude.Eq.{text_same}
use thundercrab.Prelude.Sql.{Fault}
use thundercrab.Signing.Wire.{SignedSuggestion, Crypto, Serde}
use thundercrab.Ledger.Api.{AppState, new_state}
use thundercrab.Ledger.Store.{Store}
use thundercrab.Ledger.Threads.Quota.Credit.{
  total, total-const, total-if_accepted, total-prepare, IsPaid, credit_of_runs,
}
use thundercrab.Ledger.Api.State.{Governor, Encoder}
use thundercrab.Ledger.Threads.{
  Task, arrived, counted, waiting, pass_global, pass_key, commit, advance, remaining, written, Runs,
}
use thundercrab.Ledger.Threads.Quota.{hour, IsGcra}

module _ (g : Governor) (c : Crypto) (e : Serde) (enc : Encoder) (q : IsGcra g) where
  -- A cell of the global limiter, for a request that has passed it.
  abbrev due : Task → ℕ
  due (arrived envelope) = 0
  due (counted envelope) = 6000000000
  due (waiting signed rule_json) = 6000000000

  global_holds :
      (qf ef : Fault) (now : g.Instant) (task : Task) (state : AppState g c e enc)
      → q.cells state.global ≡ 600
      → q.cells (advance g c e enc qf ef now task state).1.global ≡ 600
  unfolding advance pass_global pass_key commit
  global_holds qf ef now (arrived envelope) state h = q.check_cells state.global now ∙ h
  global_holds qf ef now (counted envelope) state h = h
  global_holds qf ef now (waiting signed rule_json) state h = h

  global_paid :
      (qf ef : Fault) (now : g.Instant) (task : Task) (state : AppState g c e enc)
      → q.cells state.global ≡ 600
      → (let (outcome, state') = advance g c e enc qf ef now task state in
          total (λ x. 6000000000) (written task outcome)
            + total due (remaining outcome)
            + q.credit state'.global now
          ≤ due task + q.credit state.global now)
  unfolding advance pass_global pass_key commit
  global_paid qf ef now (arrived envelope) state h =
      elim (Bool-cases (g.check state.global now).0) [
        | inl a ↦
            let cell : hour / q.cells state.global ≡ 6000000000 = rw h refl in
            rw a (omega (arith, cell, q.passed state.global now a))
        | inr a ↦ rw a (omega (arith, q.limited state.global now a))
      ]
  global_paid qf ef now (counted envelope) state h =
      elim (Bool-cases (g.check_key state.per_key envelope.signed.public_key now).0) [
        | inl a ↦
            rw a (omega (arith, total-prepare g c e enc due 6000000000 envelope (λ j. omega arith)))
        | inr a ↦ rw a (omega arith)
      ]
  global_paid qf ef now (waiting signed rule_json) state h =
      let r = (commit g c e enc qf ef signed rule_json state).0 in
      omega (arith, total-if_accepted (λ x. 6000000000) signed r.status)

  global_account :
      IsPaid g c e enc
        (λ s. q.cells s.global ≡ 600)
        (λ s now. q.credit s.global now)
        (λ x. 6000000000)
        due
  global_account = record {
    clock = λ s now later h p. q.clock s.global now later p;
    fresh = λ envelope. refl;
    holds = global_holds;
    paid = global_paid;
  }

  -- From a new state on, and however the requests overlap, the submissions that are written are at
  -- most 600 and one more for each six seconds that went by.
  pub runs-global_limit :
      (store : Store) (t : g.Instant) (log : List SignedSuggestion) (now : g.Instant)
      (state : AppState g c e enc) (tasks : List Task)
      → Runs g c e enc (new_state g c e enc store) t log now state tasks
      → 6000000000 * length log + g.nanos t ≤ hour + g.nanos now
  unfolding new_state
  runs-global_limit store t log now state tasks r =
      let (h, b) =
        credit_of_runs g c e enc (λ s. q.cells s.global ≡ 600) (λ s now. q.credit s.global now)
          (λ x. 6000000000) due global_account (new_state g c e enc store) t log now state tasks
          (q.direct_cells 600) r in
      omega (arith, b, total-const 6000000000 log, q.direct_credit 600 t)
