-- ===== src/Ledger/Api/Samples.antt =====
-- Requests, states and the libraries of the handlers, for runs at concrete values.
use thundercrab.Prelude.{
  ℕ, ◌-◌, ◌≡◌, refl, Bool, true, Text, codes, none, some, List, [], ◌∷◌, Result, ok, err, arith,
  ltb, text_eq,
}
use thundercrab.Prelude.Int.{pos}
use thundercrab.Prelude.Eq.{distinct, text_same, pair_same}
use thundercrab.Prelude.Hex.{hex, hex_digit}
use thundercrab.Prelude.Sorting.{sort_by}
use thundercrab.Prelude.Sql.{text_le}
use thundercrab.Json.{
  Json, null, bool, number, string, array, object, sort_value, insert_entry, sort_entries,
  map_insert, insert_all,
}
use thundercrab.Signing.{
  canonical_json_bytes, new_suggestion, public_bytes, sign_suggestion, verify, today_day_index,
}
use thundercrab.Signing.Wire.{SignedSuggestion, Serde}
use thundercrab.Signing.Samples.{crypto, rule, write}
use thundercrab.Ledger.Pow.{
  leading_zeros, leading_zero_bits_from, leading_zero_bits, le_bytes, pow_input, verify_pow,
}
use thundercrab.Ledger.Store.{
  CorroborationRow, has_key, upsert_row, upsert, members, min_rule_json, min_submitted_day,
  count_public_keys, aggregate, groups_of, groups, listing, list_aggregated, total_unique_patterns,
}
use thundercrab.Ledger.Api.{
  AppState, SuggestionsQuery, SuggestionEntry, canonical_rule_json, row_of, store_row,
  submit_verified, handle_submit, entry_of, handle_suggestions, handle_health, failure,
}
use thundercrab.Ledger.Api.State.{
  Governor, Encoder, Response, SubmitEnvelope, accepted, too_many_requests, submit_response,
}

-- Both limiters hold a number of passes.
abbrev pub limiter : ℕ → Bool × ℕ
limiter n = (ltb 0 n, n - 1)

abbrev pub governor : Governor
governor = record {
  Instant = ℕ;
  Direct = ℕ;
  Keyed = ℕ;
  nanos = λ t. t;
  direct = λ n. n;
  dashmap = λ n. n;
  check = λ n now. limiter n;
  check_key = λ n k now. limiter n;
}

-- A rule is encoded as its id.
abbrev pub serde : Serde
serde = record {
  rule_value = λ r. string r.id;
  suggestion_value = λ s. string s.rule.id;
  to_vec = write;
}

abbrev pub to_string : Json → Result Text Text
to_string (string s) = ok s
to_string _ = err []

abbrev pub encoder : Encoder
encoder = record { to_string = to_string; from_str = λ t. some (string t) }

abbrev pub State : Type 0
State = AppState governor crypto serde encoder

abbrev pub signed_by : ℕ → SignedSuggestion
signed_by k =
    sign_suggestion crypto serde (record { signing = k ∷ [] })
      (new_suggestion crypto serde rule (pos 172800))

abbrev pub envelope : SubmitEnvelope
envelope = record { signed = signed_by 7; pow_nonce = 3 }

abbrev pub fresh : State
fresh = record { store = record { corroborations = [] }; per_key = 5; global = 5 }

abbrev pub spent : State
spent = record { store = record { corroborations = [] }; per_key = 0; global = 5 }

abbrev pub submit : SubmitEnvelope → State → Response × State
submit env s = handle_submit governor crypto serde encoder none none 0 env s

abbrev pub row : CorroborationRow
row = row_of (signed_by 7) (new_suggestion crypto serde rule (pos 172800)) (codes "a")

abbrev pub stored : State
stored = record { store = record { corroborations = row ∷ [] }; per_key = 4; global = 4 }

abbrev pub welcome : Response
welcome = record { status = accepted; body = submit_response true }

abbrev pub limited : Response
limited = failure too_many_requests (codes "per_pubkey_rate_limit")

abbrev pub query : SuggestionsQuery
query = record { min_corroborators = pos 1; since_day = none; limit = 10 }

abbrev pub served : List SuggestionEntry
served =
    record {
      pattern_hash = hex row.pattern_hash;
      rule = string (codes "a");
      corroborators = pos 1;
      first_seen_day = pos 2;
    }
    ∷ []

abbrev pub log : List SignedSuggestion
log = signed_by 7 ∷ []

unfoldable pub runs : Unit {0}
unfolding verify sign_suggestion new_suggestion canonical_json_bytes public_bytes today_day_index
    sort_value insert_entry sort_entries map_insert insert_all text_le text_eq write leading_zeros
    leading_zero_bits_from leading_zero_bits le_bytes pow_input verify_pow has_key upsert_row upsert
    members min_rule_json min_submitted_day count_public_keys aggregate groups_of groups listing
    list_aggregated total_unique_patterns distinct sort_by hex hex_digit canonical_rule_json
    store_row submit_verified handle_submit entry_of handle_suggestions handle_health
runs = tt

pub one_entry : handle_suggestions encoder none query stored.store ≡ ok served
unfolding runs
one_entry = refl

pub reads_back : (v : Json) (t : Text) → to_string v ≡ ok t → some (string t) ≡ some v
reads_back (string s) t h = ground arith
reads_back null t h = absurd (ground arith)
reads_back (bool b) t h = absurd (ground arith)
reads_back (number n) t h = absurd (ground arith)
reads_back (array xs) t h = absurd (ground arith)
reads_back (object fs) t h = absurd (ground arith)

pub first_submission : submit envelope fresh ≡ (welcome, stored)
unfolding runs
first_submission = refl
