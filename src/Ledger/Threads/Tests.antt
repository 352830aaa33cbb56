-- ===== src/Ledger/Threads/Tests.antt =====
-- Two requests that overlap, and the theorems on such runs.
use thundercrab.Prelude.{
  ℕ, ◌+◌, ◌*◌, ◌≤◌, ◌≡◌, refl, codes, none, List, [], ◌∷◌, length, filter, All, ok,
}
use thundercrab.Prelude.Eq.{same, text_same}
use thundercrab.Prelude.Int.{pos}
use thundercrab.Prelude.Hex.{hex}
use thundercrab.Json.{string}
use thundercrab.Signing.Wire.{SignedSuggestion}
use thundercrab.Signing.Samples.{crypto}
use thundercrab.Ledger.Store.{Store}
use thundercrab.Ledger.Api.{AppState, SuggestionEntry, new_state, handle_suggestions, handle_submit}
use thundercrab.Ledger.Api.State.{SubmitEnvelope}
use thundercrab.Ledger.Api.Query.{IsServed}
use thundercrab.Ledger.Api.Samples.{serde, encoder, signed_by, query, reads_back, runs}
use thundercrab.Ledger.Threads.{
  Task, arrived, counted, waiting, advance, pass_global, pass_key, prepare, commit, Runs, boot,
  arrive, step,
}
use thundercrab.Ledger.Threads.Samples.{bucket_governor, bucket-IsGcra, use_cell, level}
use thundercrab.Ledger.Threads.Sequential.{Follows, IsReady, runs-Follows}
use thundercrab.Ledger.Threads.Quota.Global.{runs-global_limit}
use thundercrab.Ledger.Threads.Quota.Keyed.{runs-key_limit}
use thundercrab.Ledger.Threads.Alone.{Finishes, handle_submit-Finishes}
use thundercrab.Ledger.Threads.Served.{runs-IsServed}

abbrev State : Type 0
State = AppState bucket_governor crypto serde encoder

abbrev empty : Store
empty = record { corroborations = [] }

abbrev fresh : State
fresh = new_state bucket_governor crypto serde encoder empty

abbrev from_key : ℕ → SubmitEnvelope
from_key k = record { signed = signed_by k; pow_nonce = 3 }

abbrev Overlaps : List SignedSuggestion → ℕ → State → List Task → Type 0
Overlaps = Runs bucket_governor crypto serde encoder fresh 1000

abbrev ready : ℕ → Task
ready k = waiting (signed_by k) (codes "a")

abbrev after : Task → State → State
after task s = (advance bucket_governor crypto serde encoder none none 1000 task s).1

abbrev s1 : State
s1 = after (arrived (from_key 7)) fresh

abbrev s2 : State
s2 = after (arrived (from_key 8)) s1

abbrev s3 : State
s3 = after (counted (from_key 8)) s2

abbrev s4 : State
s4 = after (counted (from_key 7)) s3

abbrev s5 : State
s5 = after (ready 8) s4

abbrev both : List Task
both = arrived (from_key 7) ∷ arrived (from_key 8) ∷ []

-- The second request overtakes the first one at the limiter of its key and at the store, where the
-- first one still waits.
overlap : Overlaps (signed_by 8 ∷ []) 1000 s5 (ready 7 ∷ [])
unfolding runs advance pass_global pass_key prepare commit use_cell level new_state
overlap =
    let r0 : Overlaps [] 1000 fresh both = arrive (from_key 8) (arrive (from_key 7) boot) in
    let r1 : Overlaps [] 1000 s1 (counted (from_key 7) ∷ arrived (from_key 8) ∷ []) =
      step [] (arrived (from_key 8) ∷ []) (arrived (from_key 7)) none none r0 in
    let r2 : Overlaps [] 1000 s2 (counted (from_key 7) ∷ counted (from_key 8) ∷ []) =
      step (counted (from_key 7) ∷ []) [] (arrived (from_key 8)) none none r1 in
    let r3 : Overlaps [] 1000 s3 (counted (from_key 7) ∷ ready 8 ∷ []) =
      step (counted (from_key 7) ∷ []) [] (counted (from_key 8)) none none r2 in
    let r4 : Overlaps [] 1000 s4 (ready 7 ∷ ready 8 ∷ []) =
      step [] (ready 8 ∷ []) (counted (from_key 7)) none none r3 in
    step (ready 7 ∷ []) [] (ready 8) none none r4

abbrev log : List SignedSuggestion
log = signed_by 8 ∷ []

runs-Follows_example :
    Follows crypto serde encoder log s5.store × All (IsReady crypto serde encoder) (ready 7 ∷ [])
unfolding new_state
runs-Follows_example =
    runs-Follows bucket_governor crypto serde encoder fresh 1000 log 1000 s5 (ready 7 ∷ []) refl
      overlap

abbrev served : List SuggestionEntry
served =
    record {
      pattern_hash = hex (signed_by 8).suggestion.pattern_hash;
      rule = string (codes "a");
      corroborators = pos 1;
      first_seen_day = pos 2;
    }
    ∷ []

answered : handle_suggestions encoder none query s5.store ≡ ok served
unfolding runs advance pass_global pass_key prepare commit use_cell level new_state
answered = refl

runs-IsServed_example :
    All (IsServed crypto serde log query) served × (length served ≤ 10) × (length served ≤ 1000)
unfolding new_state
runs-IsServed_example =
    runs-IsServed bucket_governor crypto serde encoder fresh 1000 log 1000 s5 (ready 7 ∷ []) query
      served reads_back refl overlap answered

runs-global_limit_example : 6000000000 * length log + 1000 ≤ 3600000000000 + 1000
runs-global_limit_example =
    runs-global_limit bucket_governor crypto serde encoder bucket-IsGcra empty 1000 log 1000 s5
      (ready 7 ∷ []) overlap

runs-key_limit_example :
    60000000000 * length (filter (λ x. same x.public_key (8 ∷ [])) log) + 1000
    ≤ 3600000000000 + 1000
runs-key_limit_example =
    runs-key_limit bucket_governor crypto serde encoder bucket-IsGcra (8 ∷ []) empty 1000 log 1000
      s5 (ready 7 ∷ []) overlap

-- One request that no other interrupts.
alone :
    (let (r, t) =
        handle_submit bucket_governor crypto serde encoder none none 1000 (from_key 7) fresh in
      Finishes bucket_governor crypto serde encoder none none 1000 (arrived (from_key 7)) fresh r t)
alone =
    handle_submit-Finishes bucket_governor crypto serde encoder none none 1000 (from_key 7) fresh _
      _ refl
