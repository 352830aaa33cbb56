-- ===== src/Ledger/Api/Tests.antt =====
-- Runs of the handlers, and their theorems at concrete requests.
use mathlib.Core.List.{Memᴰ}
use thundercrab.Prelude.{
  ◌≤◌, ◌≡◌, ◌≢◌, refl, true, Text, codes, none, List, [], ◌++◌, ◌∷◌, ok, arith,
}
use thundercrab.Prelude.Int.{pos}
use thundercrab.Prelude.Eq.{text_same, pair_same, same_iff}
use thundercrab.Prelude.Hex.{hex}
use thundercrab.Signing.{new_suggestion, sign_suggestion, today_day_index}
use thundercrab.Signing.Samples.{crypto, rule}
use thundercrab.Ledger.Pow.{leading_zero_bits, pow_input}
use thundercrab.Ledger.Store.{AggregatedSuggestion, list_aggregated}
use thundercrab.Ledger.Api.{canonical_rule_json, row_of, AppState}
use thundercrab.Ledger.Api.State.{accepted, too_many_requests}
use thundercrab.Ledger.Api.Submit.{
  IsAdmitted, Stores, handle_submit-accepted, handle_submit-refused,
}
use thundercrab.Ledger.Api.Honest.{handle_submit_of_honest}
use thundercrab.Ledger.Api.Lasting.{Later, now_on}
use thundercrab.Ledger.Api.History.{Reaches}
use thundercrab.Ledger.Api.Samples.{
  governor, serde, encoder, signed_by, envelope, fresh, spent, submit, stored, welcome, limited,
  log, runs, first_submission,
}

limited_submission :
    submit envelope spent
    ≡ (limited, record { store = record { corroborations = [] }; per_key = 0; global = 4 })
unfolding runs
limited_submission = refl

handle_submit-accepted_example :
    IsAdmitted governor crypto serde encoder 0 envelope fresh
    × ((rule_json : Text) × (canonical_rule_json serde encoder rule ≡ ok rule_json)
        × Stores none none
            (row_of (signed_by 7) (signed_by 7).suggestion rule_json)
            fresh.store
            welcome
            stored.store)
unfolding sign_suggestion new_suggestion
handle_submit-accepted_example =
    handle_submit-accepted governor crypto serde encoder none none 0 envelope fresh stored welcome
      first_submission refl

too_many : too_many_requests ≢ accepted
too_many e = cc

handle_submit-refused_example : spent.store ≡ fresh.store
handle_submit-refused_example =
    handle_submit-refused governor crypto serde encoder none none 0 envelope spent
      (record { store = record { corroborations = [] }; per_key = 0; global = 4 }) limited
      limited_submission too_many

accepts : (body : Text) → crypto.verifies (7 ∷ []) body (crypto.sign (7 ∷ []) body) ≡ true
accepts body = (same_iff ((7 ∷ []) ++ body) ((7 ∷ []) ++ body)).1 refl

works :
    16
    ≤ leading_zero_bits
        (crypto.blake3 (pow_input (signed_by 7).suggestion.pattern_hash (signed_by 7).public_key 3))
unfolding runs
works = omega arith

encodes : canonical_rule_json serde encoder rule ≡ ok (codes "a")
unfolding runs
encodes = refl

-- The states after the submission, and after it is repeated.
abbrev once : AppState governor crypto serde encoder
once = (submit envelope fresh).1

abbrev twice : AppState governor crypto serde encoder
twice = (submit envelope once).1

repeated : Later governor crypto serde encoder once twice
unfolding sign_suggestion new_suggestion today_day_index
repeated = Later.submit none none 0 envelope now_on (omega arith) refl

handle_submit_of_honest_example :
    ((submit envelope fresh).0.status ≡ accepted)
    × ((listed : List AggregatedSuggestion) × (list_aggregated none (pos 1) none twice.store
          ≡ ok listed)
        × ((a : AggregatedSuggestion) × Memᴰ a listed
            × (a.pattern_hash_hex ≡ hex (signed_by 7).suggestion.pattern_hash)))
handle_submit_of_honest_example =
    handle_submit_of_honest governor crypto serde encoder (record { signing = 7 ∷ [] }) rule 172800
      3 0 fresh (codes "a") refl accepts refl refl works encodes tt twice repeated

history : Reaches governor crypto serde encoder log stored
history = Reaches.accept none none 0 envelope (Reaches.start {s = fresh} refl) first_submission refl
