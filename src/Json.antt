-- ===== src/Json.antt =====
-- JSON values as serde_json holds them, and `sort_value`, which thundercrab-suggestions/src/ledger.rs
-- and crab-ledger/src/api.rs both declare, with the same text.
pub mod Ascending
pub mod Canonical
pub mod Laws
pub mod Reorder
mod Tests
use thundercrab.Prelude.{ℕ, Bool, true, false, Text, List, [], ◌∷◌, if◌then◌else◌}
use thundercrab.Prelude.Int.{ℤ}
use thundercrab.Prelude.Eq.{same, text_same}
use thundercrab.Prelude.Sql.{text_le}

mutual
  pub data Json : Type 0 where
    null : Json
    bool : Bool → Json
    number : ℤ → Json
    string : Text → Json
    array : Items → Json
    object : Fields → Json

  pub data Items : Type 0 where
    nil : Items
    cons : Json → Items → Items

  -- The entries of a map in the order in which it yields them.
  pub data Fields : Type 0 where
    end : Fields
    field : Text → Json → Fields → Fields

-- `entries.sort_by(|a, b| a.0.cmp(&b.0))`
unfoldable pub insert_entry : Text → Json → Fields → Fields
insert_entry k v end = field k v end
insert_entry k v (field j w fs) =
    if text_le k j then field k v (field j w fs) else field j w (insert_entry k v fs)

unfoldable pub sort_entries : Fields → Fields
sort_entries end = end
sort_entries (field k v fs) = insert_entry k v (sort_entries fs)

-- `out.insert(k, child)`: a known key keeps its place, a new one goes to the end.
unfoldable pub map_insert : Text → Json → Fields → Fields
map_insert k v end = field k v end
map_insert k v (field j w fs) = if same j k then field j v fs else field j w (map_insert k v fs)

-- The loop that fills the new map.
unfoldable pub insert_all : Fields → Fields → Fields
insert_all out end = out
insert_all out (field k v fs) = insert_all (map_insert k v out) fs

-- The children are sorted first here. The sort of the entries looks at their keys alone, so this is
-- the same as sorting each child when it is inserted.
unfoldable mutual
  pub sort_value : Json → Json
  sort_value null = null
  sort_value (bool b) = bool b
  sort_value (number n) = number n
  sort_value (string s) = string s
  sort_value (array xs) = array (sort_items xs)
  sort_value (object fs) = object (insert_all end (sort_entries (sort_children fs)))

  pub sort_items : Items → Items
  sort_items nil = nil
  sort_items (cons x xs) = cons (sort_value x) (sort_items xs)

  pub sort_children : Fields → Fields
  sort_children end = end
  sort_children (field k v fs) = field k (sort_value v) (sort_children fs)
