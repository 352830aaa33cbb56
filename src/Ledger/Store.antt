-- ===== src/Ledger/Store.antt =====
-- crab-ledger/src/store.rs: the corroboration table and its three statements. The table is the list
-- of its rows in the order of insertion.
pub mod Open
pub mod Rows
pub mod Counts
pub mod Ranking
pub mod Listing
pub mod Complete
mod Tests
use mathlib.Core.Bool.{not}
use thundercrab.Prelude.{
  ℕ, ◌^◌, ◌-◌, Bool, true, false, ◌&&◌, ◌||◌, Text, Option, none, some, List, [], ◌∷◌, map, filter,
  any, length, Result, ok, err, ◌>>=◌, map_err, leb, ltb, ◌==◌, if◌then◌else◌,
}
use thundercrab.Prelude.Int.{ℤ, pos, negsuc, leb_ℤ}
use thundercrab.Prelude.Eq.{Eq, same, text_same, pair_same, distinct}
use thundercrab.Prelude.Hex.{hex}
use thundercrab.Prelude.Sorting.{sort_by}
use thundercrab.Prelude.Sql.{Fault, run, text_le, min_ℤ, min_text}

pub data StoreError : Type 0 where
  sqlite : Text → StoreError
  json : Text → StoreError

abbrev pub Bytes : Type 0
Bytes = List ℕ

pub record CorroborationRow : Type 0 where
  pub pattern_hash : Bytes
  pub public_key : Bytes
  pub signature : Bytes
  pub rule_json : Text
  pub submitted_day : ℤ

pub record AggregatedSuggestion : Type 0 where
  pub pattern_hash_hex : Text
  pub rule_json : Text
  pub corroborators : ℤ
  pub first_seen_day : ℤ

pub record Store : Type 0 where
  pub corroborations : List CorroborationRow

-- The primary key.
abbrev pub key : CorroborationRow → Bytes × Bytes
key row = (row.pattern_hash, row.public_key)

-- `SELECT 1 FROM corroborations WHERE pattern_hash = ?1 AND public_key = ?2`
unfoldable pub has_key : Bytes × Bytes → List CorroborationRow → Bool
has_key k rows = any (λ r. same (key r) k) rows

-- `ON CONFLICT(pattern_hash, public_key) DO UPDATE SET …`
abbrev pub on_conflict : CorroborationRow → CorroborationRow → CorroborationRow
on_conflict old row = record old {
  signature = row.signature;
  rule_json = row.rule_json;
  submitted_day = min_ℤ old.submitted_day row.submitted_day;
}

unfoldable pub upsert_row : CorroborationRow → List CorroborationRow → List CorroborationRow
upsert_row row [] = row ∷ []
upsert_row row (r ∷ rows) =
    if same (key r) (key row) then on_conflict r row ∷ rows else r ∷ upsert_row row rows

-- `true` in the result: a row was inserted.
unfoldable pub upsert : Fault → Fault → CorroborationRow → Store → Result (Bool × Store) StoreError
upsert query_fault execute_fault row s = do
  existed ← map_err sqlite (run query_fault (has_key (key row) s.corroborations))
  rows ← map_err sqlite (run execute_fault (upsert_row row s.corroborations))
  ok (not existed, record { corroborations = rows })

-- A row of the grouped query.
pub record Group : Type 0 where
  pub pattern_hash : Bytes
  pub rule_json : Text
  pub corroborators : ℕ
  pub first_seen_day : ℤ

-- `GROUP BY pattern_hash`: the rows of one group.
unfoldable pub members : Bytes → List CorroborationRow → List CorroborationRow
members h rows = filter (λ r. same r.pattern_hash h) rows

-- `MIN(rule_json)` and `MIN(submitted_day)` over a first row and the others.
unfoldable pub min_rule_json : Text → List CorroborationRow → Text
min_rule_json j [] = j
min_rule_json j (r ∷ rows) = min_rule_json (min_text j r.rule_json) rows

unfoldable pub min_submitted_day : ℤ → List CorroborationRow → ℤ
min_submitted_day d [] = d
min_submitted_day d (r ∷ rows) = min_submitted_day (min_ℤ d r.submitted_day) rows

-- `COUNT(DISTINCT public_key)`
unfoldable pub count_public_keys : List CorroborationRow → ℕ
count_public_keys rows = length (distinct (map (λ r. r.public_key) rows))

-- The aggregates of a group with a first row; a group has one.
unfoldable pub aggregate : Bytes → List CorroborationRow → Option Group
aggregate h [] = none
aggregate h (r ∷ rows) = some (record {
  pattern_hash = h;
  rule_json = min_rule_json r.rule_json rows;
  corroborators = count_public_keys (r ∷ rows);
  first_seen_day = min_submitted_day r.submitted_day rows;
})

abbrev pub cons_some {ℓ} : {A : Type ℓ} → Option A → List A → List A
cons_some none xs = xs
cons_some (some x) xs = x ∷ xs

unfoldable pub groups_of : List Bytes → List CorroborationRow → List Group
groups_of [] rows = []
groups_of (h ∷ hs) rows = cons_some (aggregate h (members h rows)) (groups_of hs rows)

unfoldable pub groups : List CorroborationRow → List Group
groups rows = groups_of (distinct (map (λ r. r.pattern_hash) rows)) rows

-- `HAVING corroborators >= ?1 AND first_seen_day >= ?2`
abbrev pub having : ℤ → ℤ → Group → Bool
having min_corroborators since g =
    leb_ℤ min_corroborators (pos g.corroborators) && leb_ℤ since g.first_seen_day

-- `ORDER BY corroborators DESC, pattern_hash ASC`
abbrev pub listed_before : Group → Group → Bool
listed_before g k =
    ltb k.corroborators g.corroborators
    || g.corroborators == k.corroborators && text_le g.pattern_hash k.pattern_hash

abbrev pub i64_min : ℤ
i64_min = negsuc (2 ^ 63 - 1)

abbrev pub unwrap_or : Option ℤ → ℤ → ℤ
unwrap_or none d = d
unwrap_or (some n) d = n

-- The rows that the query returns.
unfoldable pub listing : ℤ → Option ℤ → List CorroborationRow → List Group
listing min_corroborators since_day rows =
    sort_by listed_before
      (filter (having min_corroborators (unwrap_or since_day i64_min)) (groups rows))

abbrev pub as_suggestion : Group → AggregatedSuggestion
as_suggestion g = record {
  pattern_hash_hex = hex g.pattern_hash;
  rule_json = g.rule_json;
  corroborators = pos g.corroborators;
  first_seen_day = g.first_seen_day;
}

unfoldable pub list_aggregated :
    Fault → ℤ → Option ℤ → Store → Result (List AggregatedSuggestion) StoreError
list_aggregated fault min_corroborators since_day s = do
  rows ← map_err sqlite (run fault (listing min_corroborators since_day s.corroborations))
  ok (map as_suggestion rows)

-- `SELECT COUNT(DISTINCT pattern_hash) FROM corroborations`
unfoldable pub total_unique_patterns : Fault → Store → Result ℤ StoreError
total_unique_patterns fault s =
    map_err sqlite
      (run fault (pos (length (distinct (map (λ r. r.pattern_hash) s.corroborations)))))
