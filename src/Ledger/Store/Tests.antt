-- ===== src/Ledger/Store/Tests.antt =====
-- Runs of the store, and its theorems at a concrete table.
use mathlib.Core.List.{Memᴰ}
use mathlib.Core.Bool.{not}
use thundercrab.Prelude.{
  ℕ, ◌+◌, ◌≡◌, refl, false, ◌&&◌, none, some, List, [], ◌∷◌, map, All, codes, ok, arith,
  if◌then◌else◌, text_eq, ◌⊎◌, ◌≢◌,
}
use thundercrab.Prelude.Int.{pos, ◌≤ℤ◌}
use thundercrab.Prelude.Eq.{same, text_same, pair_same, distinct, Distinct}
use thundercrab.Prelude.Sorting.{sort_by}
use thundercrab.Prelude.Sql.{text_le}
use thundercrab.Prelude.Hex.{hex, hex_digit}
use thundercrab.Ledger.Store.{
  Bytes, CorroborationRow, Group, AggregatedSuggestion, Store, key, has_key, upsert_row, upsert,
  members, min_rule_json, min_submitted_day, count_public_keys, aggregate, groups_of, groups,
  listing, list_aggregated, total_unique_patterns,
}
use thundercrab.Ledger.Store.Rows.{find_row, IsUpserted, find_row-upsert_row}
use thundercrab.Ledger.Store.Counts.{upsert-counts}
use thundercrab.Ledger.Store.Ranking.{IsRanked}
use thundercrab.Ledger.Store.Listing.{IsAggregate, Passes, listing_sound}
use thundercrab.Ledger.Store.Complete.{listing_complete}

runs : Unit {0}
unfolding has_key upsert_row upsert members min_rule_json min_submitted_day count_public_keys
    aggregate groups_of groups listing list_aggregated total_unique_patterns distinct sort_by
    text_le text_eq hex hex_digit find_row
runs = tt

abbrev row : ℕ → ℕ → ℕ → CorroborationRow
row h k day = record {
  pattern_hash = h ∷ [];
  public_key = k ∷ [];
  signature = 9 ∷ [];
  rule_json = codes "{}";
  submitted_day = pos day;
}

abbrev table : List CorroborationRow
table = row 1 10 100 ∷ row 1 11 101 ∷ row 2 10 200 ∷ []

abbrev store : Store
store = record { corroborations = table }

abbrev empty : Store
empty = record { corroborations = [] }

-- An earlier day for a known key.
abbrev again : CorroborationRow
again = row 1 10 50

abbrev updated : Store
updated = record { corroborations = row 1 10 50 ∷ row 1 11 101 ∷ row 2 10 200 ∷ [] }

duplicate_keeps_earliest_day : upsert none none again store ≡ ok (false, updated)
unfolding runs
duplicate_keeps_earliest_day = refl

abbrev listed : List AggregatedSuggestion
listed =
    record {
      pattern_hash_hex = codes "01";
      rule_json = codes "{}";
      corroborators = pos 2;
      first_seen_day = pos 100;
    }
    ∷ record {
      pattern_hash_hex = codes "02";
      rule_json = codes "{}";
      corroborators = pos 1;
      first_seen_day = pos 200;
    }
    ∷ []

aggregation_counts_distinct_keys : list_aggregated none (pos 1) none store ≡ ok listed
unfolding runs
aggregation_counts_distinct_keys = refl

since_day_filters :
    map (λ g. g.first_seen_day) (listing (pos 1) (some (pos 150)) table) ≡ pos 200 ∷ []
unfolding runs
since_day_filters = refl

total_of_fresh_store : total_unique_patterns none empty ≡ ok (pos 0)
unfolding runs
total_of_fresh_store = refl

find_row-upsert_row_example :
    ((key again ≡ key again)
      × IsUpserted
          (find_row (key again) table)
          again
          (find_row (key again) (upsert_row again table)))
    ⊎ ((key again ≢ key again)
        × (find_row (key again) (upsert_row again table) ≡ find_row (key again) table))
find_row-upsert_row_example = find_row-upsert_row again (key again) table

table-Distinct : Distinct (map key table)
table-Distinct = ground arith

upsert-counts_example :
    (false ≡ not (has_key (key again) table))
    × ((h : Bytes)
        → count_public_keys (members h updated.corroborations)
          ≡ count_public_keys (members h table)
            + (if false && same again.pattern_hash h then 1 else 0))
upsert-counts_example = upsert-counts again store updated false duplicate_keeps_earliest_day

listing_sound_example :
    All (IsAggregate table) (listing (pos 1) (some (pos 150)) table)
    × All (Passes (pos 1) (some (pos 150))) (listing (pos 1) (some (pos 150)) table)
    × IsRanked (listing (pos 1) (some (pos 150)) table)
listing_sound_example = listing_sound (pos 1) (some (pos 150)) table

two_keys : pos 2 ≤ℤ pos (count_public_keys (members (1 ∷ []) table))
unfolding runs
two_keys = omega arith

late_rows : All (λ x. pos 100 ≤ℤ x.submitted_day) (members (1 ∷ []) table)
unfolding runs
late_rows = omega arith

listing_complete_example :
    (g : Group) × Memᴰ g (listing (pos 2) (some (pos 100)) table) × (g.pattern_hash ≡ 1 ∷ [])
listing_complete_example =
    listing_complete (pos 2) (some (pos 100)) table (row 1 10 100) (Memᴰ.head refl) two_keys
      late_rows
