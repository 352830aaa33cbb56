-- ===== src/Signing/Samples.antt =====
-- Concrete keys, hashes and encoders, for the tests of the modules that take them as parameters.
use thundercrab.Prelude.{true, false, codes, [], ◌∷◌, ◌++◌}
use thundercrab.Prelude.Int.{pos, negsuc}
use thundercrab.Prelude.Eq.{same, text_same}
use thundercrab.Json.{
  Json, Items, Fields, null, bool, number, string, array, object, nil, cons, end, field,
}
use thundercrab.Rule.{CrabRule, always, file_into, user}
use thundercrab.Signing.Wire.{Bytes, Suggestion, Crypto, Serde}

-- A secret is its own public key, a signature is the key and the body, and a hash is the body after
-- two bytes 0.
abbrev pub crypto : Crypto
crypto = record {
  SigningKey = Bytes;
  from_bytes = λ s. s;
  to_bytes = λ k. k;
  verifying_key = λ k. k;
  sign = λ k body. k ++ body;
  is_point = λ k. true;
  verifies = λ k body signature. same (k ++ body) signature;
  blake3 = λ body. 0 ∷ 0 ∷ body;
}

unfoldable mutual
  pub write : Json → Bytes
  write null = 110 ∷ []
  write (bool true) = 116 ∷ []
  write (bool false) = 102 ∷ []
  write (number (pos n)) = 43 ∷ n ∷ []
  write (number (negsuc n)) = 45 ∷ n ∷ []
  write (string s) = 34 ∷ (s ++ (34 ∷ []))
  write (array xs) = 91 ∷ write_items xs
  write (object fs) = 123 ∷ write_fields fs

  pub write_items : Items → Bytes
  write_items nil = 93 ∷ []
  write_items (cons x xs) = write x ++ (44 ∷ write_items xs)

  pub write_fields : Fields → Bytes
  write_fields end = 125 ∷ []
  write_fields (field k v fs) = k ++ (58 ∷ (write v ++ (44 ∷ write_fields fs)))

abbrev rule_value : CrabRule → Json
rule_value rule =
    object (field (codes "score") (number rule.score) (field (codes "id") (string rule.id) end))

abbrev suggestion_value : Suggestion → Json
suggestion_value s =
    object (
      field (codes "rule") (rule_value s.rule)
        (field (codes "day") (number s.submitted_at_day) end))

abbrev pub serde : Serde
serde = record { rule_value = rule_value; suggestion_value = suggestion_value; to_vec = write }

-- The same with the maps of the rule in the other order.
abbrev swapped_value : CrabRule → Json
swapped_value rule =
    object (field (codes "id") (string rule.id) (field (codes "score") (number rule.score) end))

abbrev pub swapped_serde : Serde
swapped_serde = record {
  rule_value = swapped_value;
  suggestion_value = suggestion_value;
  to_vec = write;
}

abbrev pub rule : CrabRule
rule = record {
  id = codes "a";
  display_name = codes "A";
  when = always;
  action = file_into (codes "Updates");
  score = pos 20;
  stop_on_match = true;
  origin = user;
}
