-- ===== src/Signing.antt =====
-- thundercrab-suggestions/src/ledger.rs: signed suggestions and their verification.
pub mod Wire
pub mod Verify
pub mod HexArray
pub mod Samples
mod Tests
use thundercrab.Prelude.{
  ℕ, zero, suc, ◌+◌, ◌/◌, Bool, true, false, Text, List, Result, ok, err, ◌>>=◌, ◌>>◌,
  if◌then◌else◌,
}
use thundercrab.Prelude.Int.{ℤ, pos, negsuc}
use thundercrab.Prelude.Eq.{same, text_same}
use thundercrab.Json.{Json, sort_value}
use thundercrab.Rule.{CrabRule}
use thundercrab.Signing.Wire.{Bytes, Suggestion, SignedSuggestion, Crypto, Serde}

pub data LedgerError : Type 0 where
  bad_signature bad_key hash_mismatch : LedgerError

abbrev pub neg : ℕ → ℤ
neg zero = pos 0
neg (suc m) = negsuc m

-- `Utc::now().timestamp() / 86_400`, which rounds towards zero.
unfoldable pub today_day_index : ℤ → ℤ
today_day_index (pos n) = pos (n / 86400)
today_day_index (negsuc n) = neg ((n + 1) / 86400)

module _ (c : Crypto) (e : Serde) where
  open c use {SigningKey, from_bytes, to_bytes, verifying_key, sign, is_point, verifies, blake3}
  open e use {rule_value, suggestion_value, to_vec}

  -- `canonical_json_bytes` of a value that serde has encoded.
  unfoldable pub canonical_json_bytes : Json → Bytes
  canonical_json_bytes v = to_vec (sort_value v)

  -- `Suggestion::new`, at the time given by the clock.
  unfoldable pub new_suggestion : CrabRule → ℤ → Suggestion
  new_suggestion rule now = record {
    rule = rule;
    pattern_hash = blake3 (canonical_json_bytes (rule_value rule));
    submitted_at_day = today_day_index now;
  }

  pub record InstallKey : Type 0 where
    pub signing : SigningKey

  unfoldable pub from_secret : Bytes → InstallKey
  from_secret secret = record { signing = from_bytes secret }

  unfoldable pub secret_bytes : InstallKey → Bytes
  secret_bytes k = to_bytes k.signing

  unfoldable pub public_bytes : InstallKey → Bytes
  public_bytes k = verifying_key k.signing

  -- `InstallKey::sign`
  unfoldable pub sign_suggestion : InstallKey → Suggestion → SignedSuggestion
  unfolding public_bytes
  sign_suggestion k suggestion = record {
    suggestion = suggestion;
    public_key = public_bytes k;
    signature = sign k.signing (canonical_json_bytes (suggestion_value suggestion));
  }

  abbrev pub require : Bool → LedgerError → Result (Unit {0}) LedgerError
  require true x = ok tt
  require false x = err x

  unfoldable pub verify : SignedSuggestion → Result Suggestion LedgerError
  verify signed = do
    require (is_point signed.public_key) bad_key
    require
        (verifies signed.public_key (canonical_json_bytes (suggestion_value signed.suggestion))
          signed.signature)
        bad_signature
    require
        (same (blake3 (canonical_json_bytes (rule_value signed.suggestion.rule)))
          signed.suggestion.pattern_hash)
        hash_mismatch
    ok signed.suggestion
