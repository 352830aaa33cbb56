-- ===== src/Ledger/Store/Open.antt =====
-- `Store::open` of crab-ledger/src/store.rs, over what rusqlite makes of a file.
use thundercrab.Prelude.{Text, codes, ◌++◌, Option, none, some, [], Result, map_err, ◌>>=◌}
use thundercrab.Prelude.Sql.{Fault, run}
use thundercrab.Ledger.Store.{Store, StoreError, sqlite, json}

-- `Display`
abbrev pub show_store_error : StoreError → Text
show_store_error (sqlite e) = codes "sqlite: " ++ e
show_store_error (json e) = codes "json: " ++ e

-- `CREATE TABLE IF NOT EXISTS`, on a file with the table or without.
abbrev pub created : Option Store → Store
created none = record { corroborations = [] }
created (some s) = s

-- The batch runs or fails as a whole.
unfoldable pub init_store : Fault → Option Store → Result Store StoreError
init_store fault found = map_err sqlite (run fault (created found))

-- `connection` is `Connection::open`.
unfoldable pub open_store :
    (connection : Text → Result (Option Store) Text) → Fault → Text → Result Store StoreError
open_store connection fault path = map_err sqlite (connection path) >>= init_store fault
