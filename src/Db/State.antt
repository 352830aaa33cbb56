-- ===== src/Db/State.antt =====
-- thundercrab-core/src/db.rs and flag_event.rs: the rows of the three tables, the events, and what is
-- taken from serde_json.
use thundercrab.Prelude.{ℕ, Bool, Text, Option, List, Result}
use thundercrab.Prelude.Int.{ℤ}
use thundercrab.Prelude.Hex.{hex}
use thundercrab.Rule.{CrabRule}

pub data DbError : Type 0 where
  sqlite : Text → DbError
  json : Text → DbError
  schema_too_new : (found supported : ℤ) → DbError

pub data FlagSource : Type 0 where
  manual_move toggle_flag explicit_category accept_suggestion : FlagSource

-- `observed_at` is the timestamp in seconds.
pub record FlagEvent : Type 0 where
  pub local_id : Option ℤ
  pub message_hash : List ℕ
  pub source : FlagSource
  pub destination : Text
  pub from_domain_with_at : Text
  pub list_id : Option Text
  pub has_list_unsubscribe : Bool
  pub subject_tokens : List Text
  pub priority_high : Bool
  pub observed_at : ℤ

unfoldable pub message_hash_hex : FlagEvent → Text
message_hash_hex ev = hex ev.message_hash

pub record RuleRow : Type 0 where
  pub id : Text
  pub json : Text
  pub origin : Text
  pub score : ℤ
  pub updated_at : ℤ

-- `local_id` is not selected by any statement and is left out.
pub record FlagRow : Type 0 where
  pub message_hash : List ℕ
  pub source : Text
  pub destination : Text
  pub from_domain_with_at : Text
  pub list_id : Option Text
  pub has_list_unsubscribe : Bool
  pub subject_tokens_json : Text
  pub priority_high : Bool
  pub observed_at : ℤ

pub record Db : Type 0 where
  pub versions : List ℤ
  pub rules : List RuleRow
  pub flag_events : List FlagRow

-- `serde_json::to_string` and `from_str` at the two types.
pub record Encoding : Type 0 where
  pub encode_rule : CrabRule → Result Text Text
  pub decode_rule : Text → Result CrabRule Text
  pub encode_tokens : List Text → Result Text Text
