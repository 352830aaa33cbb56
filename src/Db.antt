-- ===== src/Db.antt =====
-- thundercrab-core/src/db.rs: the local store. A table is the list of its rows in the order of
-- insertion; serde_json's encoders and the clock are parameters, and a statement either runs or fails.
pub mod State
pub mod Spec
pub mod Rules
pub mod Flags
pub mod Schema
pub mod Open
mod Tests
use mathlib.Core.Bool.{not}
use thundercrab.Prelude.{
  ℕ, ◌+◌, Bool, true, false, ◌&&◌, ◌||◌, Text, codes, text_eq, Option, none, some, List, [], ◌∷◌,
  ◌++◌, map, filter, any, length, Result, ok, err, ◌>>=◌, map_err, ltb, if◌then◌else◌,
}
use thundercrab.Prelude.Int.{ℤ, pos, ltb_ℤ, eqb_ℤ}
use thundercrab.Prelude.Eq.{same, text_same, pair_same, distinct}
use thundercrab.Prelude.Sorting.{sort_by}
use thundercrab.Prelude.Sql.{Fault, run, text_le}
use thundercrab.Rule.{RuleOrigin, user, platform, federated, CrabRule}
use thundercrab.Db.State.{
  DbError, sqlite, json, schema_too_new, FlagSource, manual_move, toggle_flag, explicit_category,
  accept_suggestion, FlagEvent, RuleRow, FlagRow, Db, Encoding,
}

abbrev pub schema_version : ℤ
schema_version = pos 1

-- `SELECT MAX(version) FROM schema_version`: no value for an empty table.
abbrev pub greater : ℤ → Option ℤ → Option ℤ
greater v none = some v
greater v (some m) = some (if ltb_ℤ v m then m else v)

unfoldable pub max_version : List ℤ → Option ℤ
max_version [] = none
max_version (v ∷ vs) = greater v (max_version vs)

abbrev pub unwrap_or : Option ℤ → ℤ → ℤ
unwrap_or none d = d
unwrap_or (some n) d = n

-- `init` after the batch that creates what is missing; the file's tables are given.
unfoldable pub init : Fault → Fault → Db → Result Db DbError
init query_fault execute_fault db = do
  found ← map_err sqlite (run query_fault (unwrap_or (max_version db.versions) (pos 0)))
  if ltb_ℤ schema_version found
      then err (schema_too_new found schema_version)
      else if ltb_ℤ found schema_version
      then map_err sqlite
          (run execute_fault (record db { versions = db.versions ++ (schema_version ∷ []) }))
      else ok db

abbrev pub origin_name : RuleOrigin → Text
origin_name user = codes "user"
origin_name platform = codes "platform"
origin_name federated = codes "federated"

-- `INSERT … ON CONFLICT(id) DO UPDATE SET …`
unfoldable pub put_row : RuleRow → List RuleRow → List RuleRow
put_row row [] = row ∷ []
put_row row (r ∷ rows) = if same r.id row.id then row ∷ rows else r ∷ put_row row rows

-- `ORDER BY score DESC, id ASC`
abbrev pub row_before : RuleRow → RuleRow → Bool
row_before a b = ltb_ℤ b.score a.score || eqb_ℤ b.score a.score && text_le a.id b.id

abbrev pub source_name : FlagSource → Text
source_name manual_move = codes "manual_move"
source_name toggle_flag = codes "toggle_flag"
source_name explicit_category = codes "explicit_category"
source_name accept_suggestion = codes "accept_suggestion"

abbrev pub flag_row : FlagEvent → Text → FlagRow
flag_row ev tokens = record {
  message_hash = ev.message_hash;
  source = source_name ev.source;
  destination = ev.destination;
  from_domain_with_at = ev.from_domain_with_at;
  list_id = ev.list_id;
  has_list_unsubscribe = ev.has_list_unsubscribe;
  subject_tokens_json = tokens;
  priority_high = ev.priority_high;
  observed_at = ev.observed_at;
}

-- The columns of the `UNIQUE` constraint.
abbrev pub unique_key : FlagRow → List ℕ × (Text × Text)
unique_key r = (r.message_hash, (r.source, r.destination))

-- `INSERT OR IGNORE`
unfoldable pub insert_or_ignore : FlagRow → List FlagRow → List FlagRow
insert_or_ignore row rows =
    if any (λ r. same (unique_key r) (unique_key row)) rows then rows else rows ++ (row ∷ [])

-- `WHERE destination = ?1`, and a group of `GROUP BY from_domain_with_at, destination`.
abbrev pub with_destination : Text → List FlagRow → List FlagRow
with_destination destination rows = filter (λ r. same r.destination destination) rows

abbrev pub pair_of : FlagRow → Text × Text
pair_of r = (r.from_domain_with_at, r.destination)

unfoldable pub count_pair : Text × Text → List FlagRow → ℕ
count_pair k rows = length (filter (λ r. same (pair_of r) k) rows)

-- `WHERE from_domain_with_at <> ''`
abbrev pub has_domain : FlagRow → Bool
has_domain r = not (same r.from_domain_with_at [])

-- The groups with their counts. Groups of equal count come in the order of their first rows here;
-- the statement leaves that order open.
unfoldable pub pair_counts : List FlagRow → List ((Text × Text) × ℕ)
pair_counts rows =
    sort_by (λ a b. not (ltb a.1 b.1))
      (map (λ k. (k, count_pair k rows)) (distinct (map pair_of (filter has_domain rows))))

module _ (e : Encoding) where
  open e use {encode_rule, decode_rule, encode_tokens}

  unfoldable pub save_rule : Fault → ℤ → CrabRule → Db → Result Db DbError
  save_rule fault now rule db = do
    text ← map_err json (encode_rule rule)
    rows ← map_err sqlite (
        run fault (
          put_row
            (record {
              id = rule.id;
              json = text;
              origin = origin_name rule.origin;
              score = rule.score;
              updated_at = now;
            })
            db.rules))
    ok (record db { rules = rows })

  -- The loop over the selected texts.
  unfoldable pub decode_all : List Text → Result (List CrabRule) DbError
  decode_all [] = ok []
  decode_all (t ∷ ts) = do
    rule ← map_err json (decode_rule t)
    rest ← decode_all ts
    ok (rule ∷ rest)

  unfoldable pub load_rules : Fault → Db → Result (List CrabRule) DbError
  load_rules fault db = do
    texts ← map_err sqlite (run fault (map (λ r. r.json) (sort_by row_before db.rules)))
    decode_all texts

  unfoldable pub record_flag : Fault → FlagEvent → Db → Result Db DbError
  record_flag fault ev db = do
    tokens ← map_err json (encode_tokens ev.subject_tokens)
    rows ← map_err sqlite (run fault (insert_or_ignore (flag_row ev tokens) db.flag_events))
    ok (record db { flag_events = rows })

-- `DELETE FROM rules WHERE id = ?1`, and whether a row was removed.
unfoldable pub delete_rule : Fault → Text → Db → Result (Bool × Db) DbError
delete_rule fault id db = do
  rows ← map_err sqlite (run fault (filter (λ r. not (same r.id id)) db.rules))
  ok (any (λ r. same r.id id) db.rules, record db { rules = rows })

unfoldable pub count_flags_to : Fault → Text → Db → Result ℤ DbError
count_flags_to fault destination db =
    map_err sqlite (run fault (pos (length (with_destination destination db.flag_events))))

unfoldable pub flag_counts_by_domain_dest : Fault → Db → Result (List (Text × Text × ℤ)) DbError
flag_counts_by_domain_dest fault db =
    map_err sqlite (run fault (map (λ g. (g.0.0, g.0.1, pos g.1)) (pair_counts db.flag_events)))
