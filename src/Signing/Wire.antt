-- ===== src/Signing/Wire.antt =====
-- thundercrab-suggestions/src/ledger.rs: the wire records, and what the crate takes from
-- ed25519-dalek, blake3 and serde_json.
pub use thundercrab.Prelude.Strings.{Bytes}
use thundercrab.Prelude.{Bool}
use thundercrab.Prelude.Int.{ℤ}
use thundercrab.Json.{Json}
use thundercrab.Rule.{CrabRule}

pub record Suggestion : Type 0 where
  pub rule : CrabRule
  pub pattern_hash : Bytes
  pub submitted_at_day : ℤ

pub record SignedSuggestion : Type 0 where
  pub suggestion : Suggestion
  pub public_key : Bytes
  pub signature : Bytes

-- The functions of ed25519-dalek and blake3 that are called, with no law.
pub record Crypto : Type 1 where
  pub SigningKey : Type 0
  -- `SigningKey::from_bytes`, `to_bytes`, `verifying_key().to_bytes()`, `sign(..).to_bytes()`
  pub from_bytes : Bytes → SigningKey
  pub to_bytes : SigningKey → Bytes
  pub verifying_key : SigningKey → Bytes
  pub sign : SigningKey → Bytes → Bytes
  -- `VerifyingKey::from_bytes` succeeds
  pub is_point : Bytes → Bool
  -- `pk.verify(message, signature)` succeeds
  pub verifies : Bytes → Bytes → Bytes → Bool
  pub blake3 : Bytes → Bytes

-- `serde_json::to_value` at the two types, and `serde_json::to_vec`.
pub record Serde : Type 0 where
  pub rule_value : CrabRule → Json
  pub suggestion_value : Suggestion → Json
  pub to_vec : Json → Bytes
