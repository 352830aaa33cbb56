-- ===== src/Signing/Verify.antt =====
-- `verify` of thundercrab-suggestions/src/ledger.rs: its verdicts, and what `sign` makes.
use thundercrab.Prelude.{◌≡◌, ◌≢◌, refl, true, false, ok, err, arith, ◌↔◌}
use thundercrab.Prelude.Int.{ℤ}
use thundercrab.Prelude.Eq.{same_iff, text_same}
use thundercrab.Json.Reorder.{SameValue, sort_value-SameValue}
use thundercrab.Rule.{CrabRule}
use thundercrab.Signing.{
  LedgerError, bad_signature, bad_key, hash_mismatch, canonical_json_bytes, new_suggestion,
  InstallKey, sign_suggestion, verify,
}
use thundercrab.Signing.Wire.{Bytes, Suggestion, SignedSuggestion, Crypto, Serde}

module _ (c : Crypto) (e : Serde) where
  open c use {verifying_key, sign, is_point, verifies, blake3}
  open e use {rule_value, suggestion_value}

  -- The key is a point, the signature is one of the canonical body under it, and the hash is that of
  -- the canonical rule.
  pub record IsGenuine (signed : SignedSuggestion) : Type 0 where
    pub key_is_point : is_point signed.public_key ≡ true
    pub signature_verifies :
        verifies signed.public_key
          (canonical_json_bytes c e (suggestion_value signed.suggestion))
          signed.signature
        ≡ true
    pub hash_matches :
        signed.suggestion.pattern_hash
        ≡ blake3 (canonical_json_bytes c e (rule_value signed.suggestion.rule))

  -- The first check that fails decides the error.
  abbrev pub Fails : SignedSuggestion → LedgerError → Type 0
  Fails signed bad_key = is_point signed.public_key ≡ false
  Fails signed bad_signature =
      (is_point signed.public_key ≡ true)
      × (verifies signed.public_key (canonical_json_bytes c e (suggestion_value signed.suggestion))
            signed.signature
          ≡ false)
  Fails signed hash_mismatch =
      (is_point signed.public_key ≡ true)
      × (verifies signed.public_key (canonical_json_bytes c e (suggestion_value signed.suggestion))
            signed.signature
          ≡ true)
      × (signed.suggestion.pattern_hash
          ≢ blake3 (canonical_json_bytes c e (rule_value signed.suggestion.rule)))

  -- `verify` returns the signed suggestion exactly for genuine submissions.
  pub verify-eq-ok_iff :
      (signed : SignedSuggestion) (s : Suggestion)
      → (verify c e signed ≡ ok s) ↔ (IsGenuine signed × (s ≡ signed.suggestion))
  unfolding verify
  verify-eq-ok_iff signed s = (
    λ h. (
      record {
        key_is_point = ground arith;
        signature_verifies = ground arith;
        hash_matches = ground (
          arith,
          same_iff (blake3 (canonical_json_bytes c e (rule_value signed.suggestion.rule)))
              signed.suggestion.pattern_hash,
        );
      },
      ground arith,
    ),
    λ (g, q). ground (
      arith,
      g.key_is_point,
      g.signature_verifies,
      g.hash_matches,
      same_iff (blake3 (canonical_json_bytes c e (rule_value signed.suggestion.rule)))
          signed.suggestion.pattern_hash,
    ),
  )

  -- Each error is returned exactly when its check fails and those before it pass.
  pub verify-eq-err_iff :
      (signed : SignedSuggestion) (x : LedgerError) → (verify c e signed ≡ err x) ↔ Fails signed x
  unfolding verify
  verify-eq-err_iff signed bad_key = ground arith
  verify-eq-err_iff signed bad_signature = ground arith
  verify-eq-err_iff signed hash_mismatch = ground (
    arith,
    same_iff (blake3 (canonical_json_bytes c e (rule_value signed.suggestion.rule)))
        signed.suggestion.pattern_hash,
  )

  -- If the signature scheme accepts its own signatures, what an install signs for a rule verifies, at
  -- any time, and gives back the suggestion.
  pub verify-sign_suggestion :
      (k : InstallKey c e) (rule : CrabRule) (now : ℤ)
      → is_point (verifying_key k.signing) ≡ true
      → ((body : Bytes) → verifies (verifying_key k.signing) body (sign k.signing body) ≡ true)
      → verify c e (sign_suggestion c e k (new_suggestion c e rule now))
        ≡ ok (new_suggestion c e rule now)
  unfolding sign_suggestion
  verify-sign_suggestion k rule now point accepts =
      (verify-eq-ok_iff (sign_suggestion c e k (new_suggestion c e rule now))
          (new_suggestion c e rule now)).1
        (
          record {
            key_is_point = point;
            signature_verifies = accepts _;
            hash_matches = unfold new_suggestion in refl;
          },
          refl,
        )

-- Two encoders that differ only in the order in which their maps yield entries lead to the same
-- verdict on every submission.
pub verify-SameValue :
    (c : Crypto) (e d : Serde) (signed : SignedSuggestion)
    → e.to_vec ≡ d.to_vec
    → SameValue (e.rule_value signed.suggestion.rule) (d.rule_value signed.suggestion.rule)
    → SameValue (e.suggestion_value signed.suggestion) (d.suggestion_value signed.suggestion)
    → verify c e signed ≡ verify c d signed
unfolding verify canonical_json_bytes
verify-SameValue c e d signed same_bytes h k =
    rw (same_bytes, sort_value-SameValue _ _ h, sort_value-SameValue _ _ k)
