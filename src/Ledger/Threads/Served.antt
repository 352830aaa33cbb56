-- ===== src/Ledger/Threads/Served.antt =====
-- What a query is answered with while submissions are on their way.
use thundercrab.Prelude.{◌≤◌, ◌≡◌, ap, ◌∙◌, none, List, [], All, length, ok}
use thundercrab.Signing.Wire.{SignedSuggestion, Crypto, Serde}
use thundercrab.Ledger.Api.{AppState, SuggestionsQuery, SuggestionEntry, handle_suggestions}
use thundercrab.Ledger.Api.State.{Governor, Encoder}
use thundercrab.Ledger.Api.Query.{IsServed, ReadsBack, handle_suggestions-IsServed}
use thundercrab.Ledger.Threads.{Task, Runs}
use thundercrab.Ledger.Threads.Sequential.{lenient, runs-Follows}

module _ (g : Governor) (c : Crypto) (e : Serde) (enc : Encoder) where
  -- At any time of a run that starts from an empty table, with any submissions on their way and their
  -- steps in any order, every entry that a query is answered with holds the canonical rule of a
  -- genuine accepted submission under its hash, counts the different public keys among the accepted
  -- submissions for the pattern, and has at least the corroborators asked for; there are at most
  -- `limit` and at most 1000 entries. The encoder must read back what it writes.
  pub runs-IsServed :
      (s : AppState g c e enc) (t : g.Instant) (log : List SignedSuggestion) (now : g.Instant)
      (state : AppState g c e enc) (tasks : List Task) (q : SuggestionsQuery)
      (entries : List SuggestionEntry)
      → ReadsBack enc
      → s.store.corroborations ≡ []
      → Runs g c e enc s t log now state tasks
      → handle_suggestions enc none q state.store ≡ ok entries
      → All (IsServed c e log q) entries × (length entries ≤ q.limit) × (length entries ≤ 1000)
  runs-IsServed s t log now state tasks q entries back empty r h =
      let f = (runs-Follows g c e enc s t log now state tasks empty r).0 in
      handle_suggestions-IsServed lenient c e enc log f.state q entries back f.reached
        (ap (handle_suggestions enc none q) f.same_store ∙ h)
