-- ===== src/Ledger/Server.antt =====
-- crab-ledger/src/api.rs: `router`, and crab-ledger/src/main.rs: `main`. What axum, tower-http, the
-- environment and the network do is a parameter.
pub mod Guard
pub mod Startup
mod Tests
use thundercrab.Prelude.{ℕ, Text, codes, Option, List, [], ◌∷◌, Result, map_err, ok, err, ◌>>=◌}
use thundercrab.Prelude.Sql.{Fault}
use thundercrab.Signing.Wire.{Crypto, Serde}
use thundercrab.Ledger.Store.{Store}
use thundercrab.Ledger.Store.Open.{show_store_error, open_store}
use thundercrab.Ledger.Api.{
  AppState, SuggestionsQuery, SuggestionEntry, HealthResponse, new_state, handle_submit,
  handle_suggestions, handle_health,
}
use thundercrab.Ledger.Api.State.{Governor, Encoder, Response, SubmitEnvelope}

pub data Method : Type 0 where
  get post : Method

-- What answers a request, from one state to the next.
abbrev pub Service : (Request Reply S : Type 0) → Type 0
Service Request Reply S = Request → S → Reply × S

-- axum and tower-http: the routing by path and method, the three ways in which a handler becomes a
-- service (with its extractors, the clock, and the outcome of its statements), and the two layers.
pub record Tower (S Instant : Type 0) : Type 1 where
  pub Request : Type 0
  pub Reply : Type 0
  pub content_length : Request → ℕ
  pub status : Reply → ℕ
  pub header : Text → Reply → Option Text
  pub routes : List (Text × (Method × Service Request Reply S)) → Service Request Reply S
  pub json_envelope :
      (Fault → Fault → Instant → SubmitEnvelope → S → Response × S) → Service Request Reply S
  pub query :
      (Fault → SuggestionsQuery → S → Result (List SuggestionEntry) Response)
      → Service Request Reply S
  pub plain : (Fault → S → HealthResponse) → Service Request Reply S
  pub body_limit : ℕ → Service Request Reply S → Service Request Reply S
  pub overriding : Text → Text → Service Request Reply S → Service Request Reply S

abbrev pub max_body_bytes : ℕ
max_body_bytes = 16384

abbrev pub default_bind : Text
default_bind = codes "127.0.0.1:8090"

abbrev pub default_db : Text
default_db = codes "./crab-ledger.db"

-- The environment, the parser of addresses, SQLite (which opens a file, and runs a batch or fails) and
-- `TcpListener::bind`.
pub record Host : Type 1 where
  pub Address : Type 0
  pub Listener : Type 0
  pub env : Text → Result Text Text
  pub parse : Text → Result Address Text
  pub connection : Text → Result (Option Store) Text
  pub batch_fault : Fault
  pub bind : Address → Result Listener Text

-- `unwrap_or_else(|_| …)`
abbrev pub or_default : Text → Result Text Text → Text
or_default default (ok s) = s
or_default default (err e) = default

module _ (g : Governor) (c : Crypto) (e : Serde) (enc : Encoder) where
  -- A later layer is outside of an earlier one.
  unfoldable pub router :
      (tower : Tower (AppState g c e enc) g.Instant)
      → Service tower.Request tower.Reply (AppState g c e enc)
  router tower = tower.overriding (codes "referrer-policy") (codes "no-referrer") (
      tower.overriding (codes "x-robots-tag") (codes "noindex, nofollow") (
        tower.body_limit max_body_bytes (
          tower.routes (
            (codes "/v1/submit", (post, tower.json_envelope (handle_submit g c e enc)))
            ∷ (
              codes "/v1/suggestions",
              (get, tower.query (λ fault q s. handle_suggestions enc fault q s.store)),
            )
            ∷ (codes "/v1/health", (get, tower.plain (λ fault s. handle_health fault s.store)))
            ∷ []))))

  -- What `axum::serve` is given: the listener, and the state of the router.
  unfoldable pub main : (host : Host) → Result (host.Listener × AppState g c e enc) Text
  main host =
      host.parse (or_default default_bind (host.env (codes "CRAB_LEDGER_BIND"))) >>= λ address.
      map_err show_store_error (
        open_store host.connection host.batch_fault
          (or_default default_db (host.env (codes "CRAB_LEDGER_DB"))))
      >>= λ store. host.bind address >>= λ listener. ok (listener, new_state g c e enc store)
