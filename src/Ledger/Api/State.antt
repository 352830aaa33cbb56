-- ===== src/Ledger/Api/State.antt =====
-- crab-ledger/src/api.rs: requests and responses, and what the handlers take from the governor crate
-- and from serde_json.
use thundercrab.Prelude.{ℕ, Bool, Text, Option, Result}
use thundercrab.Json.{Json}
use thundercrab.Signing.Wire.{Bytes, SignedSuggestion}

-- Rate limiters: `direct` and `dashmap` make one with a quota of cells for each hour, `check` and
-- `check_key` say whether a submission may pass at an instant, and change the limiter. `nanos` is an
-- instant in nanoseconds of the clock.
pub record Governor : Type 1 where
  pub Instant : Type 0
  pub Direct : Type 0
  pub Keyed : Type 0
  pub nanos : Instant → ℕ
  pub direct : ℕ → Direct
  pub dashmap : ℕ → Keyed
  pub check : Direct → Instant → Bool × Direct
  pub check_key : Keyed → Bytes → Instant → Bool × Keyed

-- `serde_json::to_string` and `serde_json::from_str` at JSON values.
pub record Encoder : Type 0 where
  pub to_string : Json → Result Text Text
  pub from_str : Text → Option Json

pub data StatusCode : Type 0 where
  ok_status accepted bad_request too_many_requests internal_server_error : StatusCode

pub data Body : Type 0 where
  submit_response : (new_corroborator : Bool) → Body
  error_response : (error : Text) → Body

pub record Response : Type 0 where
  pub status : StatusCode
  pub body : Body

pub record SubmitEnvelope : Type 0 where
  pub signed : SignedSuggestion
  pub pow_nonce : ℕ
