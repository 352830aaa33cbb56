-- ===== src/Ledger/Threads/Sequential.antt =====
-- Whatever the order of the steps, the requests write to the store as if they were handled one after
-- another.
use thundercrab.Prelude.{
  ℕ, ◌≡◌, refl, sym, ap, ◌∙◌, true, Text, List, [], ◌∷◌, ◌++◌, All, All-append, All-append_inv, ok,
  Result-cases, Bool-cases, inl, inr, arith,
}
use mathlib.Core.List.{append-nil}
use thundercrab.Prelude.Sql.{Fault}
use thundercrab.Signing.{verify}
use thundercrab.Signing.Wire.{SignedSuggestion, Crypto, Serde}
use thundercrab.Signing.Verify.{IsGenuine, verify-eq-ok_iff}
use thundercrab.Ledger.Pow.{verify_pow}
use thundercrab.Ledger.Store.{Store}
use thundercrab.Ledger.Api.{
  AppState, canonical_rule_json, row_of, store_row, submit_verified, handle_submit,
  pow_difficulty_bits,
}
use thundercrab.Ledger.Api.State.{
  Governor, Encoder, StatusCode, accepted, ok_status, bad_request, too_many_requests,
  internal_server_error, Response, SubmitEnvelope,
}
use thundercrab.Ledger.Api.History.{Reaches}
use thundercrab.Ledger.Threads.{
  Task, arrived, counted, waiting, pass_global, prepare, pass_key, commit, advance, remaining,
  written, if_accepted, Runs, boot, wait, arrive, cancel, step,
}

-- A governor that lets every submission pass.
abbrev pub lenient : Governor
lenient = record {
  Instant = Unit {0};
  Direct = Unit {0};
  Keyed = Unit {0};
  nanos = λ t. 0;
  direct = λ n. tt;
  dashmap = λ n. tt;
  check = λ l t. (true, tt);
  check_key = λ l k t. (true, tt);
}

module _ (c : Crypto) (e : Serde) (enc : Encoder) where
  -- A request that waits for the store has passed every check.
  pub record IsChecked (signed : SignedSuggestion) (rule_json : Text) : Type 0 where
    pub pow_nonce : ℕ
    pub work :
        verify_pow c signed.suggestion.pattern_hash signed.public_key pow_nonce pow_difficulty_bits
        ≡ true
    pub genuine : IsGenuine c e signed
    pub encodes : canonical_rule_json e enc signed.suggestion.rule ≡ ok rule_json

  abbrev pub IsReady : Task → Type 0
  IsReady (arrived envelope) = Unit
  IsReady (counted envelope) = Unit
  IsReady (waiting signed rule_json) = IsChecked signed rule_json

  -- The store of the sequential service is that of the service.
  pub record Follows (log : List SignedSuggestion) (store : Store) : Type 0 where
    pub state : AppState lenient c e enc
    pub reached : Reaches lenient c e enc log state
    pub same_store : state.store ≡ store

  alone :
      (qf ef : Fault) (signed : SignedSuggestion) (rule_json : Text)
      (k : IsChecked signed rule_json) (state : AppState lenient c e enc)
      → handle_submit lenient c e enc qf ef tt
          (record { signed = signed; pow_nonce = k.pow_nonce })
          state
        ≡ (let (r, t) = store_row qf ef (row_of signed signed.suggestion rule_json) state.store in
            (r, record { store = t; per_key = tt; global = tt }))
  unfolding handle_submit submit_verified
  alone qf ef signed rule_json k state =
      let verified = (verify-eq-ok_iff c e signed signed.suggestion).1 (k.genuine, refl) in
      ground (arith, verified, k.work, k.encodes)

  -- What the sequential service does with a request that is ready.
  grows :
      (qf ef : Fault) (envelope : SubmitEnvelope) (log : List SignedSuggestion)
      (s u : AppState lenient c e enc) (r : Response) (status : StatusCode)
      → Reaches lenient c e enc log s
      → handle_submit lenient c e enc qf ef tt envelope s ≡ (r, u)
      → r.status ≡ status
      → Reaches lenient c e enc (log ++ if_accepted envelope.signed status) u
  grows qf ef envelope log s u r accepted h q a = Reaches.accept qf ef tt envelope h q a
  grows qf ef envelope log s u r ok_status h q a =
      rw (append-nil log) (Reaches.refuse qf ef tt envelope h q (λ b. cc))
  grows qf ef envelope log s u r bad_request h q a =
      rw (append-nil log) (Reaches.refuse qf ef tt envelope h q (λ b. cc))
  grows qf ef envelope log s u r too_many_requests h q a =
      rw (append-nil log) (Reaches.refuse qf ef tt envelope h q (λ b. cc))
  grows qf ef envelope log s u r internal_server_error h q a =
      rw (append-nil log) (Reaches.refuse qf ef tt envelope h q (λ b. cc))

  commit-Follows :
      (qf ef : Fault) (signed : SignedSuggestion) (rule_json : Text) (log : List SignedSuggestion)
      (s : Store)
      → IsChecked signed rule_json
      → Follows log s
      → (let (r, t) = store_row qf ef (row_of signed signed.suggestion rule_json) s in
          Follows (log ++ if_accepted signed r.status) t)
  commit-Follows qf ef signed rule_json log s k f =
      let env : SubmitEnvelope = record { signed = signed; pow_nonce = k.pow_nonce } in
      let a = store_row qf ef (row_of signed signed.suggestion rule_json) in
      rw (sym f.same_store) (record {
        state = record { store = (a f.state.store).1; per_key = tt; global = tt };
        reached =
            grows qf ef env log f.state _ _ _ f.reached (alone qf ef signed rule_json k f.state)
              refl;
        same_store = refl;
      })

module _ (g : Governor) (c : Crypto) (e : Serde) (enc : Encoder) where
  prepare-IsReady :
      (envelope : SubmitEnvelope) → All (IsReady c e enc) (remaining (prepare g c e enc envelope))
  unfolding prepare
  prepare-IsReady envelope =
      let signed = envelope.signed in
      elim (Bool-cases (
        verify_pow c signed.suggestion.pattern_hash signed.public_key envelope.pow_nonce
          pow_difficulty_bits)) [
            | inr f ↦ rw f tt
            | inl p ↦ elim (Result-cases (verify c e signed)) [
              | inr (x, v) ↦ rw (p, v) tt
              | inl (suggestion, v) ↦
                  let (genuine, same) = (verify-eq-ok_iff c e signed suggestion).0 v in
                  elim (Result-cases (canonical_rule_json e enc suggestion.rule)) [
                    | inr (x, w) ↦ rw (p, v, w) tt
                    | inl (rule_json, w) ↦
                        rw (p, v, w)
                          (
                            record {
                              pow_nonce = envelope.pow_nonce;
                              work = p;
                              genuine = genuine;
                              encodes = ap (λ s. canonical_rule_json e enc s.rule) (sym same) ∙ w;
                            },
                            tt,
                          )
                  ]
            ]
          ]

  step-Follows :
      (qf ef : Fault) (now : g.Instant) (task : Task) (log : List SignedSuggestion)
      (state : AppState g c e enc)
      → IsReady c e enc task
      → Follows c e enc log state.store
      → (let (outcome, state') = advance g c e enc qf ef now task state in
          Follows c e enc (log ++ written task outcome) state'.store
          × All (IsReady c e enc) (remaining outcome))
  unfolding advance pass_global pass_key commit
  step-Follows qf ef now (arrived envelope) log state k f =
      elim (Bool-cases (g.check state.global now).0) [
        | inl a ↦ rw (a, append-nil log) (f, (tt, tt))
        | inr a ↦ rw (a, append-nil log) (f, tt)
      ]
  step-Follows qf ef now (counted envelope) log state k f =
      elim (Bool-cases (g.check_key state.per_key envelope.signed.public_key now).0) [
        | inl a ↦ rw (a, append-nil log) (f, prepare-IsReady envelope)
        | inr a ↦ rw (a, append-nil log) (f, tt)
      ]
  step-Follows qf ef now (waiting signed rule_json) log state k f =
      (commit-Follows c e enc qf ef signed rule_json log state.store k f, tt)

  -- Whatever the order of their steps, and whichever of them are dropped, requests that a service with
  -- an empty table handles at the same time leave the store that a service without limiters has after
  -- it has handled the accepted ones, one after another, in the order of their writes; and those
  -- that wait for the store have passed every check.
  pub runs-Follows :
      (s : AppState g c e enc) (t : g.Instant) (log : List SignedSuggestion) (now : g.Instant)
      (state : AppState g c e enc) (tasks : List Task)
      → s.store.corroborations ≡ []
      → Runs g c e enc s t log now state tasks
      → Follows c e enc log state.store × All (IsReady c e enc) tasks
  runs-Follows s t _ _ _ _ h boot = (
    record {
      state = record { store = s.store; per_key = tt; global = tt };
      reached = Reaches.start h;
      same_store = refl;
    },
    tt,
  )
  runs-Follows s t log _ state tasks h (wait {now = now} later p r) =
      runs-Follows s t log now state tasks h r
  runs-Follows s t log now state _ h (arrive {tasks = tasks} envelope r) =
      let (f, ready) = runs-Follows s t log now state tasks h r in
      (f, All-append (IsReady c e enc) tasks (arrived envelope ∷ []) ready (tt, tt))
  runs-Follows s t log now state _ h (cancel before after task r) =
      let (f, ready) = runs-Follows s t log now state (before ++ (task ∷ after)) h r in
      let (b, a) = All-append_inv (IsReady c e enc) before (task ∷ after) ready in
      (f, All-append (IsReady c e enc) before after b a.1)
  runs-Follows s t _ now _ _ h (step {log = log} {state = state} before after task qf ef r) =
      let (f, ready) = runs-Follows s t log now state (before ++ (task ∷ after)) h r in
      let (b, a) = All-append_inv (IsReady c e enc) before (task ∷ after) ready in
      let (f', ready') = step-Follows qf ef now task log state a.0 f in
      (
        f',
        All-append (IsReady c e enc) before _ b (All-append (IsReady c e enc) _ after ready' a.1),
      )
