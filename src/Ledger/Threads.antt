-- ===== src/Ledger/Threads.antt =====
-- crab-ledger/src/api.rs: submissions that are handled at the same time. `handle_submit` shares the
-- two limiters, which are atomic, and the store, behind a mutex; between these it computes on its own.
-- So a request takes three steps, and those of several requests may be interleaved in any order.
pub mod Alone
pub mod Sequential
pub mod Served
pub mod Quota
pub mod Samples
mod Tests
use thundercrab.Prelude.{
  ℕ, ◌≤◌, ◌≡◌, Bool, true, false, Text, codes, Option, none, some, List, [], ◌∷◌, ◌++◌, Result, ok,
  err, if◌then◌else◌,
}
use thundercrab.Prelude.Sql.{Fault}
use thundercrab.Signing.{verify}
use thundercrab.Signing.Wire.{SignedSuggestion, Crypto, Serde}
use thundercrab.Ledger.Pow.{verify_pow}
use thundercrab.Ledger.Api.{
  AppState, canonical_rule_json, row_of, store_row, failure, pow_difficulty_bits,
}
use thundercrab.Ledger.Api.State.{
  Governor, Encoder, StatusCode, ok_status, bad_request, too_many_requests, internal_server_error,
  accepted, Response, SubmitEnvelope,
}

-- How far a request has come: nothing is done, the global limiter has let it pass, or it waits for
-- the store with its canonical rule.
pub data Task : Type 0 where
  arrived counted : SubmitEnvelope → Task
  waiting : SignedSuggestion → (rule_json : Text) → Task

-- A step leads to the next one, or to the answer.
pub data Outcome : Type 0 where
  next : Task → Outcome
  answer : Response → Outcome

abbrev pub remaining : Outcome → List Task
remaining (next t) = t ∷ []
remaining (answer r) = []

abbrev pub if_accepted : SignedSuggestion → StatusCode → List SignedSuggestion
if_accepted signed accepted = signed ∷ []
if_accepted signed ok_status = []
if_accepted signed bad_request = []
if_accepted signed too_many_requests = []
if_accepted signed internal_server_error = []

-- What a step writes: the submission that waits for the store, if it is answered "accepted".
abbrev pub written : Task → Outcome → List SignedSuggestion
written (waiting signed rule_json) (answer r) = if_accepted signed r.status
written (waiting signed rule_json) (next t) = []
written (arrived envelope) outcome = []
written (counted envelope) outcome = []

module _ (g : Governor) (c : Crypto) (e : Serde) (enc : Encoder) where
  unfoldable pub pass_global :
      g.Instant → SubmitEnvelope → AppState g c e enc → Outcome × AppState g c e enc
  pass_global now envelope state =
      let (passes, global) = g.check state.global now in
      (
        if passes
            then next (counted envelope)
            else answer (failure too_many_requests (codes "global_rate_limit")),
        record state { global = global },
      )

  -- What a request computes between the limiters and the store.
  unfoldable pub prepare : SubmitEnvelope → Outcome
  prepare envelope =
      let signed = envelope.signed in
      let verified : Outcome = elim (verify c e signed) [
        | err x ↦ answer (failure bad_request (codes "verification_failed"))
        | ok suggestion ↦ elim (canonical_rule_json e enc suggestion.rule) [
          | err x ↦ answer (failure internal_server_error (codes "encode_failure"))
          | ok rule_json ↦ next (waiting signed rule_json)
        ]
      ] in
      if verify_pow c signed.suggestion.pattern_hash signed.public_key envelope.pow_nonce
        pow_difficulty_bits
      then verified
      else answer (failure bad_request (codes "pow_insufficient"))

  unfoldable pub pass_key :
      g.Instant → SubmitEnvelope → AppState g c e enc → Outcome × AppState g c e enc
  pass_key now envelope state =
      let (passes, per_key) = g.check_key state.per_key envelope.signed.public_key now in
      (
        if passes
            then prepare envelope
            else answer (failure too_many_requests (codes "per_pubkey_rate_limit")),
        record state { per_key = per_key },
      )

  -- The mutex is held for the upsert.
  unfoldable pub commit :
      Fault → Fault → SignedSuggestion → Text → AppState g c e enc → Response × AppState g c e enc
  commit query_fault execute_fault signed rule_json state =
      let (r, store) =
        store_row query_fault execute_fault (row_of signed signed.suggestion rule_json)
          state.store in
      (r, record state { store = store })

  unfoldable pub advance :
      Fault → Fault → g.Instant → Task → AppState g c e enc → Outcome × AppState g c e enc
  advance query_fault execute_fault now (arrived envelope) state = pass_global now envelope state
  advance query_fault execute_fault now (counted envelope) state = pass_key now envelope state
  advance query_fault execute_fault now (waiting signed rule_json) state =
      let (r, state') = commit query_fault execute_fault signed rule_json state in
      (answer r, state')

  -- The states that the service can come to from `s` at `t`, with the submissions written so far in
  -- the order of their writes, the time, and the requests on their way. A request may come at any
  -- time, any of those on their way may take the next step, and one whose client is gone is dropped.
  pub data Runs (s : AppState g c e enc) (t : g.Instant)
      : List SignedSuggestion → g.Instant → AppState g c e enc → List Task → Type 0 where
    boot : Runs s t [] t s []
    wait :
        {log : List SignedSuggestion} {now : g.Instant} {state : AppState g c e enc}
        {tasks : List Task} (later : g.Instant)
        → g.nanos now ≤ g.nanos later
        → Runs s t log now state tasks
        → Runs s t log later state tasks
    arrive :
        {log : List SignedSuggestion} {now : g.Instant} {state : AppState g c e enc}
        {tasks : List Task} (envelope : SubmitEnvelope)
        → Runs s t log now state tasks
        → Runs s t log now state (tasks ++ (arrived envelope ∷ []))
    cancel :
        {log : List SignedSuggestion} {now : g.Instant} {state : AppState g c e enc}
        (before after : List Task) (task : Task)
        → Runs s t log now state (before ++ (task ∷ after))
        → Runs s t log now state (before ++ after)
    step :
        {log : List SignedSuggestion} {now : g.Instant} {state : AppState g c e enc}
        (before after : List Task) (task : Task) (query_fault execute_fault : Fault)
        → Runs s t log now state (before ++ (task ∷ after))
        → Runs s t
            (log ++ written task (advance query_fault execute_fault now task state).0)
            now
            (advance query_fault execute_fault now task state).1
            (before ++ (remaining (advance query_fault execute_fault now task state).0 ++ after))
