-- ===== src/Signing/HexArray.antt =====
-- The encoders `hex_array_32` and `hex_array_64` of thundercrab-suggestions/src/ledger.rs: byte arrays
-- as hexadecimal text. The hex crate is not in this repository.
use thundercrab.Prelude.{ℕ, ◌≡◌, Text, codes, length, Result, ok, err, ◌>>=◌, ◌==◌, if◌then◌else◌}
use thundercrab.Prelude.Strings.{Bytes}
use thundercrab.Json.{Json, null, bool, number, string, array, object}

-- `hex::encode`, `hex::decode`, and serde's refusal of a value that is no string.
pub record HexCrate : Type 0 where
  pub encode : Bytes → Text
  pub decode : Text → Result Bytes Text
  pub no_string : Json → Text

abbrev pub serialize : HexCrate → Bytes → Json
serialize lib b = string (lib.encode b)

abbrev pub text_of : HexCrate → Json → Result Text Text
text_of lib (string s) = ok s
text_of lib null = err (lib.no_string null)
text_of lib (bool b) = err (lib.no_string (bool b))
text_of lib (number n) = err (lib.no_string (number n))
text_of lib (array items) = err (lib.no_string (array items))
text_of lib (object fields) = err (lib.no_string (object fields))

-- The conversion of a vector into an array of `n` bytes.
abbrev pub exactly : ℕ → Text → Bytes → Result Bytes Text
exactly n complaint v = if length v == n then ok v else err complaint

unfoldable pub deserialize : HexCrate → ℕ → Text → Json → Result Bytes Text
deserialize lib n complaint j = text_of lib j >>= λ s. lib.decode s >>= λ v. exactly n complaint v

abbrev pub deserialize_32 : HexCrate → Json → Result Bytes Text
deserialize_32 lib = deserialize lib 32 (codes "expected 32 bytes")

abbrev pub deserialize_64 : HexCrate → Json → Result Bytes Text
deserialize_64 lib = deserialize lib 64 (codes "expected 64 bytes")

-- The value is a text that decodes to these bytes, which are `n`.
abbrev pub IsText : HexCrate → ℕ → Json → Bytes → Type 0
IsText lib n j b = (s : Text) × (j ≡ string s) × (lib.decode s ≡ ok b) × (length b ≡ n)
