-- ===== src/Ledger/Server/Startup.antt =====
-- What `main` of crab-ledger/src/main.rs serves.
use thundercrab.Prelude.{Option, ◌≡◌, codes, ok, Result-cases, inl, inr, arith}
use thundercrab.Prelude.Sql.{run}
use thundercrab.Signing.Wire.{Crypto, Serde}
use thundercrab.Ledger.Store.{Store}
use thundercrab.Ledger.Store.Open.{created, init_store, open_store}
use thundercrab.Ledger.Api.{AppState, new_state}
use thundercrab.Ledger.Api.State.{Governor, Encoder}
use thundercrab.Ledger.Server.{Host, default_bind, default_db, or_default, main}

module _ (g : Governor) (c : Crypto) (e : Serde) (enc : Encoder) where
  -- A server that starts listens at the address of the environment, or of the default. It serves a new
  -- state, with full limiters, over the table that the file of the environment, or of the default,
  -- had, and over an empty one if it had none.
  pub main_ok :
      (host : Host) (listener : host.Listener) (state : AppState g c e enc)
      → main g c e enc host ≡ ok (listener, state)
      → (address : host.Address) × ((found : Option Store) × (host.parse
              (or_default default_bind (host.env (codes "CRAB_LEDGER_BIND")))
            ≡ ok address)
          × (host.connection (or_default default_db (host.env (codes "CRAB_LEDGER_DB"))) ≡ ok found)
          × (host.bind address ≡ ok listener)
          × (state ≡ new_state g c e enc (created found)))
  unfolding main open_store init_store
  main_ok host listener state h =
      elim (Result-cases
        (host.parse (or_default default_bind (host.env (codes "CRAB_LEDGER_BIND"))))) [
          | inr (x, p) ↦ absurd (ground arith)
          | inl (address, p) ↦
              elim (Result-cases
                (host.connection (or_default default_db (host.env (codes "CRAB_LEDGER_DB"))))) [
                  | inr (x, q) ↦ absurd (ground arith)
                  | inl (found, q) ↦ elim (Result-cases (run host.batch_fault (created found))) [
                    | inr (x, b) ↦ absurd (ground arith)
                    | inl (store, b) ↦ elim (Result-cases (host.bind address)) [
                      | inr (x, r) ↦ absurd (ground arith)
                      | inl (l, r) ↦ (address, (found, p, q, ground arith, ground arith))
                    ]
                  ]
                ]
        ]
