-- ===== src/Signing/Tests.antt =====
-- Runs of signing and verification, and the theorems at concrete submissions.
use thundercrab.Prelude.{◌≡◌, refl, [], ◌∷◌, ok, err, arith, text_eq, text_eq_iff, true, ◌↔◌, codes}
use thundercrab.Prelude.Int.{pos}
use thundercrab.Prelude.Eq.{text_same}
use thundercrab.Prelude.Sql.{text_le}
use thundercrab.Json.{sort_value, insert_entry, sort_entries, map_insert, insert_all}
use thundercrab.Signing.{
  bad_signature, canonical_json_bytes, new_suggestion, InstallKey, from_secret, public_bytes,
  sign_suggestion, verify, today_day_index,
}
use thundercrab.Signing.Wire.{Suggestion, SignedSuggestion}
use thundercrab.Signing.Verify.{IsGenuine, verify-eq-ok_iff}
use thundercrab.Signing.HexArray.{HexCrate, serialize, deserialize, deserialize_32}
use thundercrab.Signing.Samples.{crypto, serde, rule, write}

runs : Unit {0}
unfolding verify sign_suggestion new_suggestion canonical_json_bytes public_bytes from_secret
    today_day_index sort_value insert_entry sort_entries map_insert insert_all text_le text_eq write
runs = tt

abbrev key : InstallKey crypto serde
key = record { signing = 7 ∷ 8 ∷ [] }

abbrev suggestion : Suggestion
suggestion = new_suggestion crypto serde rule (pos 172800)

abbrev signed : SignedSuggestion
signed = sign_suggestion crypto serde key suggestion

-- Another score under the same signature.
abbrev tampered : SignedSuggestion
tampered = record signed {
  suggestion = record suggestion { rule = record rule { score = pos 49 } };
}

second_day : suggestion.submitted_at_day ≡ pos 2
unfolding runs
second_day = refl

sign_verify_round_trip : verify crypto serde signed ≡ ok suggestion
unfolding runs
sign_verify_round_trip = refl

tampered_rule_rejected : verify crypto serde tampered ≡ err bad_signature
unfolding runs
tampered_rule_rejected = refl

verify-eq-ok_iff_example :
    (verify crypto serde signed ≡ ok suggestion)
    ↔ (IsGenuine crypto serde signed × (suggestion ≡ signed.suggestion))
verify-eq-ok_iff_example = verify-eq-ok_iff crypto serde signed suggestion

score_is_not_id : ¬ (codes "score" ≡ codes "id")
unfolding text_eq
score_is_not_id e =
    let h : text_eq (codes "score") (codes "id") ≡ true =
      (text_eq_iff (codes "score") (codes "id")).1 e in
    ground arith

-- A crate whose texts are the bytes themselves.
abbrev plain_hex : HexCrate
plain_hex = record { encode = λ b. b; decode = λ s. ok s; no_string = λ j. codes "invalid type" }

wrong_length :
    deserialize_32 plain_hex (serialize plain_hex (1 ∷ 2 ∷ [])) ≡ err (codes "expected 32 bytes")
unfolding deserialize
wrong_length = refl
