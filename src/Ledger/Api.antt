-- ===== src/Ledger/Api.antt =====
-- crab-ledger/src/api.rs: the three handlers over the shared state. The router, its body limit and its
-- response headers, JSON decoding of the requests and the mutex round the store belong to axum,
-- tower-http and tokio; a handler runs here on a decoded request, from one state to the next.
-- Ledger/Threads has the handlers that overlap.
pub mod State
pub mod Submit
pub mod History
pub mod Corroborators
pub mod Query
pub mod Lasting
pub mod Honest
pub mod Samples
mod Tests
use thundercrab.Prelude.{
  ℕ, Bool, true, false, Text, codes, Option, none, some, List, [], ◌∷◌, map, take, min, Result, ok,
  err, if◌then◌else◌,
}
use thundercrab.Prelude.Int.{ℤ, pos}
use thundercrab.Prelude.Sql.{Fault}
use thundercrab.Json.{Json, null, sort_value}
use thundercrab.Rule.{CrabRule}
use thundercrab.Signing.{LedgerError, verify}
use thundercrab.Signing.Wire.{Bytes, Suggestion, SignedSuggestion, Crypto, Serde}
use thundercrab.Ledger.Pow.{verify_pow}
use thundercrab.Ledger.Store.{
  CorroborationRow, AggregatedSuggestion, Store, StoreError, upsert, list_aggregated,
  total_unique_patterns,
}
use thundercrab.Ledger.Api.State.{
  Governor, Encoder, StatusCode, accepted, ok_status, bad_request, too_many_requests,
  internal_server_error, Body, submit_response, error_response, Response, SubmitEnvelope,
}

abbrev pub pow_difficulty_bits : ℕ
pow_difficulty_bits = 16

abbrev pub per_pubkey_per_hour : ℕ
per_pubkey_per_hour = 60

abbrev pub global_per_hour : ℕ
global_per_hour = 600

abbrev pub failure : StatusCode → Text → Response
failure status error = record { status = status; body = error_response error }

-- `canonical_rule_json`
unfoldable pub canonical_rule_json : Serde → Encoder → CrabRule → Result Text Text
canonical_rule_json e enc rule = enc.to_string (sort_value (e.rule_value rule))

abbrev pub row_of : SignedSuggestion → Suggestion → Text → CorroborationRow
row_of signed suggestion rule_json = record {
  pattern_hash = suggestion.pattern_hash;
  public_key = signed.public_key;
  signature = signed.signature;
  rule_json = rule_json;
  submitted_day = suggestion.submitted_at_day;
}

-- The end of `handle_submit`: the upsert and its answer.
unfoldable pub store_row : Fault → Fault → CorroborationRow → Store → Response × Store
store_row query_fault execute_fault row s = elim (upsert query_fault execute_fault row s) [
  | ok (new_corroborator, s') ↦
      (record { status = accepted; body = submit_response new_corroborator }, s')
  | err e ↦ (failure internal_server_error (codes "store_failure"), s)
]

module _ (g : Governor) (c : Crypto) (e : Serde) (enc : Encoder) where
  open g use {Instant, Direct, Keyed, check, check_key}

  pub record AppState : Type 0 where
    pub store : Store
    pub per_key : Keyed
    pub global : Direct

  -- `AppState::new`
  unfoldable pub new_state : Store → AppState
  new_state store = record {
    store = store;
    per_key = g.dashmap per_pubkey_per_hour;
    global = g.direct global_per_hour;
  }

  -- What follows the rate limits and the proof of work.
  unfoldable pub submit_verified : Fault → Fault → SignedSuggestion → Store → Response × Store
  submit_verified query_fault execute_fault signed s = elim (verify c e signed) [
    | err x ↦ (failure bad_request (codes "verification_failed"), s)
    | ok suggestion ↦ elim (canonical_rule_json e enc suggestion.rule) [
      | err x ↦ (failure internal_server_error (codes "encode_failure"), s)
      | ok rule_json ↦ store_row query_fault execute_fault (row_of signed suggestion rule_json) s
    ]
  ]

  unfoldable pub handle_submit :
      Fault → Fault → Instant → SubmitEnvelope → AppState → Response × AppState
  handle_submit query_fault execute_fault now envelope state =
      let signed = envelope.signed in
      let (global_ok, global) = check state.global now in
      let (key_ok, per_key) = check_key state.per_key signed.public_key now in
      let (response, store) = submit_verified query_fault execute_fault signed state.store in
      if global_ok
      then (if key_ok
          then (if verify_pow c signed.suggestion.pattern_hash signed.public_key envelope.pow_nonce
                pow_difficulty_bits
              then (response, record { store = store; per_key = per_key; global = global })
              else (
                failure bad_request (codes "pow_insufficient"),
                record state { per_key = per_key; global = global },
              ))
          else (
            failure too_many_requests (codes "per_pubkey_rate_limit"),
            record state { per_key = per_key; global = global },
          ))
      else (failure too_many_requests (codes "global_rate_limit"), record state { global = global })

-- The queries, with the defaults of `SuggestionsQuery`.
pub record SuggestionsQuery : Type 0 where
  pub min_corroborators : ℤ
  pub since_day : Option ℤ
  pub limit : ℕ

abbrev pub default_min_corroborators : ℤ
default_min_corroborators = pos 1

abbrev pub default_limit : ℕ
default_limit = 1000

pub record SuggestionEntry : Type 0 where
  pub pattern_hash : Text
  pub rule : Json
  pub corroborators : ℤ
  pub first_seen_day : ℤ

-- `serde_json::from_str(&a.rule_json).unwrap_or(Value::Null)`
abbrev pub rule_or_null : Option Json → Json
rule_or_null none = null
rule_or_null (some v) = v

unfoldable pub entry_of : Encoder → AggregatedSuggestion → SuggestionEntry
entry_of enc a = record {
  pattern_hash = a.pattern_hash_hex;
  rule = rule_or_null (enc.from_str a.rule_json);
  corroborators = a.corroborators;
  first_seen_day = a.first_seen_day;
}

unfoldable pub handle_suggestions :
    Encoder → Fault → SuggestionsQuery → Store → Result (List SuggestionEntry) Response
handle_suggestions enc fault q s =
    let limit = min q.limit default_limit in
    elim (list_aggregated fault q.min_corroborators q.since_day s) [
      | ok aggregated ↦ ok (map (entry_of enc) (take limit aggregated))
      | err e ↦ err (failure internal_server_error (codes "store_failure"))
    ]

pub record HealthResponse : Type 0 where
  pub ok_flag : Bool
  pub total_unique_patterns : ℤ

unfoldable pub handle_health : Fault → Store → HealthResponse
handle_health fault s = record {
  ok_flag = true;
  total_unique_patterns = elim (total_unique_patterns fault s) [ ok n ↦ n | err e ↦ pos 0 ];
}
