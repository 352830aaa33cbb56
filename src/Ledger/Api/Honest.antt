-- ===== src/Ledger/Api/Honest.antt =====
-- The way of an honest suggestion: `Suggestion::new` and `InstallKey::sign` of
-- thundercrab-suggestions/src/ledger.rs, then `handle_submit` and the listing of crab-ledger.
use mathlib.Core.List.{Memᴰ}
use thundercrab.Prelude.{ℕ, ◌≤◌, ◌≡◌, refl, ap, true, Text, none, List, map, ok, arith, All, sym}
use thundercrab.Prelude.Int.{pos}
use thundercrab.Prelude.Eq.{same, text_same, pair_same}
use thundercrab.Prelude.Hex.{hex}
use thundercrab.Rule.{CrabRule}
use thundercrab.Signing.{InstallKey, new_suggestion, sign_suggestion, today_day_index}
use thundercrab.Signing.Wire.{Bytes, Crypto, Serde}
use thundercrab.Signing.Verify.{verify-eq-ok_iff, verify-sign_suggestion}
use thundercrab.Ledger.Pow.{pow_input, leading_zero_bits}
use thundercrab.Ledger.Store.{AggregatedSuggestion, listing, list_aggregated, as_suggestion}
use thundercrab.Ledger.Api.{
  AppState, canonical_rule_json, row_of, handle_submit, pow_difficulty_bits,
}
use thundercrab.Ledger.Api.State.{Governor, Encoder, accepted, SubmitEnvelope}
use mathlib.Core.Path.{subst}
use thundercrab.Ledger.Api.Lasting.{
  IsDay, Holds, upsert_row-Holds_self, Holds-listed, Later, Later-Holds,
}
use thundercrab.Ledger.Api.Submit.{IsAdmitted, handle_submit_of_IsAdmitted}

module _ (g : Governor) (c : Crypto) (e : Serde) (enc : Encoder) where
  -- A suggestion that an install makes of a rule, signs, and sends with a nonce of enough work, while
  -- both limiters let it pass: it is accepted if its rule encodes and the statements run, and its
  -- pattern is in the listing from then on, whatever is submitted later, with any faults and at any
  -- time. The signature scheme must accept its own signatures, and the days in the table and in later
  -- submissions must be 64-bit integers.
  pub handle_submit_of_honest :
      (install : InstallKey c e) (rule : CrabRule) (timestamp pow_nonce : ℕ) (now : g.Instant)
      (state : AppState g c e enc) (rule_json : Text)
      → c.is_point (c.verifying_key install.signing) ≡ true
      → ((body : Bytes)
          → c.verifies (c.verifying_key install.signing) body (c.sign install.signing body) ≡ true)
      → (let signed = sign_suggestion c e install (new_suggestion c e rule (pos timestamp)) in
          ((g.check state.global now).0 ≡ true)
          → ((g.check_key state.per_key signed.public_key now).0 ≡ true)
          → pow_difficulty_bits
            ≤ leading_zero_bits
                (c.blake3 (pow_input signed.suggestion.pattern_hash signed.public_key pow_nonce))
          → canonical_rule_json e enc rule ≡ ok rule_json
          → All IsDay state.store.corroborations
          → (u : AppState g c e enc)
          → Later g c e enc
              (handle_submit g c e enc none none now
                (record { signed = signed; pow_nonce = pow_nonce })
                state).1
              u
          → ((handle_submit g c e enc none none now
                (record { signed = signed; pow_nonce = pow_nonce })
                state).0.status
              ≡ accepted)
            × ((listed : List AggregatedSuggestion) × (list_aggregated none (pos 1) none u.store
                  ≡ ok listed)
                × ((a : AggregatedSuggestion) × Memᴰ a listed
                    × (a.pattern_hash_hex ≡ hex signed.suggestion.pattern_hash))))
  unfolding sign_suggestion new_suggestion today_day_index list_aggregated
  handle_submit_of_honest install rule timestamp pow_nonce now state rule_json point accepts passes
        key_passes work encodes days u later =
      let suggestion = new_suggestion c e rule (pos timestamp) in
      let signed = sign_suggestion c e install suggestion in
      let env : SubmitEnvelope = record { signed = signed; pow_nonce = pow_nonce } in
      let (genuine, same) =
        (verify-eq-ok_iff c e signed suggestion).0
          (verify-sign_suggestion c e install rule (pos timestamp) point accepts) in
      let admitted : IsAdmitted g c e enc now env state = record {
        global_passes = passes;
        key_passes = key_passes;
        work = work;
        genuine = genuine;
      } in
      let (r, t) = handle_submit_of_IsAdmitted g c e enc now env state rule_json admitted encodes in
      let row = row_of signed suggestion rule_json in
      let h = suggestion.pattern_hash in
      let first =
        subst (Holds h) (sym t)
          (upsert_row-Holds_self row state.store.corroborations (omega arith) days) in
      let last =
        Later-Holds g c e enc h (handle_submit g c e enc none none now env state).1 u later first in
      (
        ap (λ x. x.status) r,
        (
          map as_suggestion (listing (pos 1) none u.store.corroborations),
          refl,
          Holds-listed h u.store.corroborations last,
        ),
      )
