-- ===== src/Ledger/Api/Submit.antt =====
-- `handle_submit`: what an accepted submission has passed and stored, and what the others leave.
use thundercrab.Prelude.{
  ◌≤◌, ◌≡◌, ◌≢◌, refl, Bool, true, Text, none, ok, Result-cases, inl, inr, arith,
}
use mathlib.Core.Bool.{not}
use thundercrab.Prelude.Sql.{Fault}
use thundercrab.Signing.{verify}
use thundercrab.Signing.Wire.{SignedSuggestion, Crypto, Serde}
use thundercrab.Signing.Verify.{IsGenuine, verify-eq-ok_iff}
use thundercrab.Ledger.Pow.{verify_pow, pow_input, leading_zero_bits}
use thundercrab.Ledger.Store.{CorroborationRow, Store, key, has_key, upsert_row, upsert}
use thundercrab.Ledger.Api.{
  AppState, canonical_rule_json, row_of, store_row, submit_verified, handle_submit,
  pow_difficulty_bits,
}
use thundercrab.Ledger.Api.State.{
  Governor, Encoder, accepted, submit_response, Response, SubmitEnvelope,
}

-- The response reports the answer of an upsert that takes the store `s` to `t`.
abbrev pub Stores : Fault → Fault → CorroborationRow → Store → Response → Store → Type 0
Stores qf ef row s r t =
    (new : Bool) × (upsert qf ef row s ≡ ok (new, t)) × (r.body ≡ submit_response new)

store_row-accepted :
    (qf ef : Fault) (row : CorroborationRow) (s t : Store) (r : Response)
    → store_row qf ef row s ≡ (r, t)
    → r.status ≡ accepted
    → Stores qf ef row s r t
unfolding store_row
store_row-accepted qf ef row s t r q h = elim (Result-cases (upsert qf ef row s)) [
  | inl ((new, u), e) ↦ (new, ground arith, ground arith)
  | inr (x, e) ↦ absurd (ground arith)
]

store_row-refused :
    (qf ef : Fault) (row : CorroborationRow) (s t : Store) (r : Response)
    → store_row qf ef row s ≡ (r, t)
    → r.status ≢ accepted
    → t ≡ s
unfolding store_row
store_row-refused qf ef row s t r q h = elim (Result-cases (upsert qf ef row s)) [
  | inl ((new, u), e) ↦ absurd (ground arith)
  | inr (x, e) ↦ ground arith
]

module _ (g : Governor) (c : Crypto) (e : Serde) (enc : Encoder) where
  submit_verified-accepted :
      (qf ef : Fault) (signed : SignedSuggestion) (s t : Store) (r : Response)
      → submit_verified g c e enc qf ef signed s ≡ (r, t)
      → r.status ≡ accepted
      → IsGenuine c e signed
        × ((rule_json : Text) × (canonical_rule_json e enc signed.suggestion.rule ≡ ok rule_json)
            × Stores qf ef (row_of signed signed.suggestion rule_json) s r t)
  unfolding submit_verified
  submit_verified-accepted qf ef signed s t r q h = elim (Result-cases (verify c e signed)) [
    | inr (x, v) ↦ absurd (ground arith)
    | inl (suggestion, v) ↦
        let (genuine, is_signed) = (verify-eq-ok_iff c e signed suggestion).0 v in
        elim (Result-cases (canonical_rule_json e enc suggestion.rule)) [
          | inr (x, w) ↦ absurd (ground arith)
          | inl (rule_json, w) ↦ (
            genuine,
            (
              rule_json,
              ground arith,
              store_row-accepted qf ef (row_of signed signed.suggestion rule_json) s t r
                  (ground arith) h,
            ),
          )
        ]
  ]

  submit_verified-refused :
      (qf ef : Fault) (signed : SignedSuggestion) (s t : Store) (r : Response)
      → submit_verified g c e enc qf ef signed s ≡ (r, t)
      → r.status ≢ accepted
      → t ≡ s
  unfolding submit_verified
  submit_verified-refused qf ef signed s t r q h = elim (Result-cases (verify c e signed)) [
    | inr (x, v) ↦ ground arith
    | inl (suggestion, v) ↦ elim (Result-cases (canonical_rule_json e enc suggestion.rule)) [
      | inr (x, w) ↦ ground arith
      | inl (rule_json, w) ↦
          store_row-refused qf ef (row_of signed suggestion rule_json) s t r (ground arith) h
    ]
  ]

  -- Both limiters let the submission pass, its proof of work has the bits, and it is genuine.
  pub record IsAdmitted (now : g.Instant) (envelope : SubmitEnvelope) (state : AppState g c e enc)
      : Type 0 where
    pub global_passes : (g.check state.global now).0 ≡ true
    pub key_passes : (g.check_key state.per_key envelope.signed.public_key now).0 ≡ true
    pub work :
        pow_difficulty_bits
        ≤ leading_zero_bits (
            c.blake3 (
              pow_input envelope.signed.suggestion.pattern_hash envelope.signed.public_key
                envelope.pow_nonce))
    pub genuine : IsGenuine c e envelope.signed

  -- A submission is answered "accepted" only if the two limiters let it pass, its proof of work has 16
  -- zero bits and its key, signature and hash are genuine; then its rule has a canonical encoding, the
  -- new store is the upsert of its row, and the response reports what the upsert answers.
  pub handle_submit-accepted :
      (qf ef : Fault) (now : g.Instant) (envelope : SubmitEnvelope) (state t : AppState g c e enc)
      (r : Response)
      → handle_submit g c e enc qf ef now envelope state ≡ (r, t)
      → r.status ≡ accepted
      → IsAdmitted now envelope state
        × ((rule_json : Text) × (canonical_rule_json e enc envelope.signed.suggestion.rule
              ≡ ok rule_json)
            × Stores qf ef
                (row_of envelope.signed envelope.signed.suggestion rule_json)
                state.store
                r
                t.store)
  unfolding handle_submit verify_pow
  handle_submit-accepted qf ef now envelope state t r q h =
      let (genuine, rest) =
        submit_verified-accepted qf ef envelope.signed state.store t.store r (ground arith) h in
      (
        record {
          global_passes = ground arith;
          key_passes = ground arith;
          work = ground arith;
          genuine = genuine;
        },
        rest,
      )

  -- Whatever a submission is refused for, the store stays as it was.
  pub handle_submit-refused :
      (qf ef : Fault) (now : g.Instant) (envelope : SubmitEnvelope) (state t : AppState g c e enc)
      (r : Response)
      → handle_submit g c e enc qf ef now envelope state ≡ (r, t)
      → r.status ≢ accepted
      → t.store ≡ state.store
  unfolding handle_submit
  handle_submit-refused qf ef now envelope state t r q h =
      ground (arith, submit_verified-refused qf ef envelope.signed state.store t.store r)

  -- An admitted submission is accepted if its rule encodes and both statements run, and the answer
  -- says whether its install's key was new for the pattern.
  pub handle_submit_of_IsAdmitted :
      (now : g.Instant) (envelope : SubmitEnvelope) (state : AppState g c e enc) (rule_json : Text)
      → IsAdmitted now envelope state
      → canonical_rule_json e enc envelope.signed.suggestion.rule ≡ ok rule_json
      → (let row = row_of envelope.signed envelope.signed.suggestion rule_json in
          let (r, t) = handle_submit g c e enc none none now envelope state in
          (r ≡ record {
            status = accepted;
            body = submit_response (not (has_key (key row) state.store.corroborations));
          })
          × (t.store.corroborations ≡ upsert_row row state.store.corroborations))
  unfolding handle_submit verify_pow submit_verified store_row upsert
  handle_submit_of_IsAdmitted now envelope state rule_json a enc_ok =
      let verified =
        (verify-eq-ok_iff c e envelope.signed envelope.signed.suggestion).1 (a.genuine, refl) in
      ground (arith, verified, a.global_passes, a.key_passes, a.work)
