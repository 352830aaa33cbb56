-- ===== src/Db/Open.antt =====
-- `Db::open` of thundercrab-core/src/db.rs, over what rusqlite makes of a file.
use thundercrab.Prelude.{◌≡◌, Text, none, Result, ok, err, map_err, ◌>>=◌, inl, inr, ◌⊎◌}
use thundercrab.Prelude.Int.{pos, ◌<ℤ◌}
use thundercrab.Prelude.Sql.{Fault, run}
use thundercrab.Db.{init}
use thundercrab.Db.State.{Db, DbError, sqlite, schema_too_new}
use thundercrab.Db.Schema.{version_of, init_lem}

-- `connection` is `Connection::open`; a table that the file has not is empty. The batch of `init`
-- creates the missing tables, or fails.
unfoldable pub open_db :
    (connection : Text → Result Db Text) (batch_fault query_fault execute_fault : Fault)
    → Text
    → Result Db DbError
open_db connection batch_fault query_fault execute_fault path =
    map_err sqlite (connection path) >>= λ found.
    map_err sqlite (run batch_fault found) >>= λ db. init query_fault execute_fault db

-- When the statements run, a file that opens is refused if its version is above 1; otherwise it opens
-- with its rules and events, and when it is opened again as it was left, it is the same.
pub open_db_lem :
    (connection again : Text → Result Db Text) (path : Text) (found : Db)
    → connection path ≡ ok found
    → ((pos 1 <ℤ version_of found)
        × (open_db connection none none none path
            ≡ err (schema_too_new (version_of found) (pos 1))))
      ⊎ ((t : Db) × (open_db connection none none none path ≡ ok t)
          × (t.rules ≡ found.rules)
          × (t.flag_events ≡ found.flag_events)
          × (again path ≡ ok t → open_db again none none none path ≡ ok t))
unfolding open_db
open_db_lem connection again path found h = elim (init_lem found) [
  | inl (new, e) ↦ inl (new, rw h e)
  | inr (t, _, e, _, rules, events, twice) ↦ inr (t, rw h e, rules, events, λ k. rw k twice)
]
