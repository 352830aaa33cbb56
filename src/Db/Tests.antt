-- ===== src/Db/Tests.antt =====
-- Runs of the store, and its theorems at concrete tables.
use mathlib.Core.Bool.{not}
use thundercrab.Prelude.{
  ℕ, ◌+◌, ◌≡◌, refl, true, false, ◌&&◌, Text, codes, text_eq, none, List, [], ◌∷◌, map, Result, ok,
  err, if◌then◌else◌,
}
use thundercrab.Prelude.Int.{ℤ, pos}
use thundercrab.Prelude.Eq.{same, text_same, pair_same, distinct, Distinct}
use thundercrab.Prelude.Sorting.{sort_by}
use thundercrab.Prelude.Sql.{text_le}
use thundercrab.Prelude.Hex.{hex, hex_digit}
use thundercrab.Rule.{CrabRule, always, file_into, user}
use thundercrab.Db.{
  max_version, init, put_row, decode_all, save_rule, load_rules, delete_rule, unique_key,
  insert_or_ignore, flag_row, count_pair, pair_counts, record_flag, count_flags_to,
  flag_counts_by_domain_dest,
}
use thundercrab.Db.State.{
  schema_too_new, manual_move, FlagEvent, FlagRow, Db, Encoding, message_hash_hex,
}
use thundercrab.Db.Spec.{Command, save, delete, put, remove, after, rule_before, execute}
use thundercrab.Db.Rules.{load_rules-execute}
use thundercrab.Db.Flags.{event_key, is_recorded, record_flag-counts}

abbrev rule : Text → ℤ → CrabRule
rule id score = record {
  id = id;
  display_name = [];
  when = always;
  action = file_into (codes "Updates");
  score = score;
  stop_on_match = true;
  origin = user;
}

abbrev tokens_text : List Text → Result Text Text
tokens_text ts = ok (codes "[]")

abbrev empty : Db
empty = record { versions = []; rules = []; flag_events = [] }

runs : Unit {0}
unfolding max_version init put_row decode_all save_rule load_rules delete_rule insert_or_ignore
    count_pair pair_counts record_flag count_flags_to flag_counts_by_domain_dest sort_by text_le
    text_eq distinct hex hex_digit message_hash_hex put remove after execute
runs = tt

abbrev newer : Db
newer = record { versions = pos 1 ∷ pos 7 ∷ []; rules = []; flag_events = [] }

newer_refused : init none none newer ≡ err (schema_too_new (pos 7) (pos 1))
unfolding runs
newer_refused = refl

abbrev event : ℕ → Text → FlagEvent
event n dest = record {
  local_id = none;
  message_hash = n ∷ [];
  source = manual_move;
  destination = dest;
  from_domain_with_at = codes "@a";
  list_id = none;
  has_list_unsubscribe = false;
  subject_tokens = [];
  priority_high = false;
  observed_at = pos 5;
}

-- A rule is encoded as its id.
abbrev encoding : Encoding
encoding = record {
  encode_rule = λ r. ok r.id;
  decode_rule = λ t. ok (rule t (pos 20));
  encode_tokens = tokens_text;
}

abbrev recorded : Db
recorded = record empty { flag_events = flag_row (event 171 (codes "X")) (codes "[]") ∷ [] }

first_event : record_flag encoding none (event 171 (codes "X")) empty ≡ ok recorded
unfolding runs
first_event = refl

repeated_event : record_flag encoding none (event 171 (codes "X")) recorded ≡ ok recorded
unfolding runs
repeated_event = refl

hash_text : message_hash_hex (event 171 []) ≡ codes "ab"
unfolding runs
hash_text = refl

record_flag-counts_example :
    Distinct (map unique_key recorded.flag_events)
    × ((d : Text) (n : ℕ)
        → count_flags_to none d empty ≡ ok (pos n)
        → count_flags_to none d recorded
          ≡ ok (
              pos (
                n
                + (if not (is_recorded (event_key (event 171 (codes "X"))) []) && same (codes "X") d
                    then 1
                    else 0))))
    × (recorded ≡ recorded)
record_flag-counts_example =
    record_flag-counts encoding (event 171 (codes "X")) (event 171 (codes "X")) empty recorded
      recorded first_event refl repeated_event tt

abbrev rows : List FlagRow
rows =
    flag_row (event 1 (codes "Y")) []
    ∷ flag_row (event 1 (codes "X")) []
    ∷ flag_row (event 2 (codes "X")) []
    ∷ []

counts_group_correctly :
    flag_counts_by_domain_dest none (record empty { flag_events = rows })
    ≡ ok ((codes "@a", codes "X", pos 2) ∷ (codes "@a", codes "Y", pos 1) ∷ [])
unfolding runs
counts_group_correctly = refl

abbrev commands : List Command
commands =
    save (pos 9) (rule (codes "b") (pos 20))
    ∷ save (pos 9) (rule (codes "c") (pos 20))
    ∷ save (pos 9) (rule (codes "a") (pos 20))
    ∷ delete (codes "c")
    ∷ []

load_rules-execute_example :
    (t : Db) × (execute encoding commands empty ≡ ok t)
    × (load_rules encoding none t ≡ ok (sort_by rule_before (after commands [])))
load_rules-execute_example =
    load_rules-execute encoding commands empty
      ((codes "b", refl, refl), ((codes "c", refl, refl), ((codes "a", refl, refl), tt))) refl

loaded_in_order :
    sort_by rule_before (after commands [])
    ≡ rule (codes "a") (pos 20) ∷ rule (codes "b") (pos 20) ∷ []
unfolding runs
loaded_in_order = refl
