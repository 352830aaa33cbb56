-- ===== src/Ledger/Threads/Alone.antt =====
-- A request that no other one interrupts is answered as `handle_submit` answers it.
use thundercrab.Prelude.{◌≡◌, Bool-cases, Result-cases, inl, inr, arith}
use thundercrab.Prelude.Sql.{Fault}
use thundercrab.Signing.{verify}
use thundercrab.Signing.Wire.{Crypto, Serde}
use thundercrab.Signing.Verify.{verify-eq-ok_iff}
use thundercrab.Ledger.Pow.{verify_pow}
use thundercrab.Ledger.Api.{
  AppState, canonical_rule_json, submit_verified, handle_submit, pow_difficulty_bits,
}
use thundercrab.Ledger.Api.State.{Governor, Encoder, Response, SubmitEnvelope}
use thundercrab.Ledger.Threads.{
  Task, arrived, counted, waiting, next, answer, pass_global, prepare, pass_key, commit, advance,
}

module _ (g : Governor) (c : Crypto) (e : Serde) (enc : Encoder) where
  -- The request takes its steps, one after the other, until it is answered.
  pub data Finishes (qf ef : Fault) (now : g.Instant)
      : Task → AppState g c e enc → Response → AppState g c e enc → Type 0 where
    last :
        (task : Task) (state t : AppState g c e enc) (r : Response)
        → advance g c e enc qf ef now task state ≡ (answer r, t)
        → Finishes qf ef now task state r t
    more :
        (task task' : Task) (state state' t : AppState g c e enc) (r : Response)
        → advance g c e enc qf ef now task state ≡ (next task', state')
        → Finishes qf ef now task' state' r t
        → Finishes qf ef now task state r t

  two_steps :
      (qf ef : Fault) (now : g.Instant) (envelope : SubmitEnvelope)
      (state mid t : AppState g c e enc) (r : Response)
      → advance g c e enc qf ef now (arrived envelope) state ≡ (next (counted envelope), mid)
      → advance g c e enc qf ef now (counted envelope) mid ≡ (answer r, t)
      → Finishes qf ef now (arrived envelope) state r t
  two_steps qf ef now envelope state mid t r h k =
      Finishes.more (arrived envelope) (counted envelope) state mid t r h
        (Finishes.last (counted envelope) mid t r k)

  -- A request whose steps follow each other, at one instant and with the same faults, is answered as
  -- `handle_submit` answers it and leaves the state that `handle_submit` leaves.
  pub handle_submit-Finishes :
      (qf ef : Fault) (now : g.Instant) (envelope : SubmitEnvelope) (state t : AppState g c e enc)
      (r : Response)
      → handle_submit g c e enc qf ef now envelope state ≡ (r, t)
      → Finishes qf ef now (arrived envelope) state r t
  unfolding handle_submit submit_verified advance pass_global pass_key prepare commit
  handle_submit-Finishes qf ef now envelope state t r h =
      let signed = envelope.signed in
      let mid = record state { global = (g.check state.global now).1 } in
      let two = two_steps qf ef now envelope state mid t r in
      elim (Bool-cases (g.check state.global now).0) [
        | inr f ↦ Finishes.last (arrived envelope) state t r (ground arith)
        | inl a ↦ elim (Bool-cases (g.check_key state.per_key signed.public_key now).0) [
          | inr f ↦ two (ground arith) (ground arith)
          | inl b ↦
              elim (Bool-cases (
                verify_pow c signed.suggestion.pattern_hash signed.public_key envelope.pow_nonce
                  pow_difficulty_bits)) [
                    | inr f ↦ two (ground arith) (ground arith)
                    | inl p ↦ elim (Result-cases (verify c e signed)) [
                      | inr (x, v) ↦ two (ground arith) (ground arith)
                      | inl (suggestion, v) ↦
                          elim (Result-cases (canonical_rule_json e enc suggestion.rule)) [
                            | inr (x, w) ↦ two (ground arith) (ground arith)
                            | inl (rule_json, w) ↦
                                let same = ((verify-eq-ok_iff c e signed suggestion).0 v).1 in
                                let last = record mid {
                                  per_key = (g.check_key state.per_key signed.public_key now).1;
                                } in
                                Finishes.more (arrived envelope) (counted envelope) state mid t r
                                  (ground arith)
                                  (Finishes.more (counted envelope) (waiting signed rule_json) mid
                                    last t r (ground arith)
                                    (Finishes.last (waiting signed rule_json) last t r
                                      (ground arith)))
                          ]
                    ]
                  ]
        ]
      ]
