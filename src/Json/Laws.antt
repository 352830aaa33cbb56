-- ===== src/Json/Laws.antt =====
-- `sort_value` and canonical values.
use thundercrab.Prelude.{◌≡◌, refl, ap, ◌∙◌}
use thundercrab.Json.{
  Json, Items, Fields, null, bool, number, string, array, object, nil, cons, end, field,
  sort_entries, insert_all, sort_value, sort_items, sort_children,
}
use thundercrab.Json.Ascending.{sort_children-HasDistinctKeys, sort_entries_of_IsAscending}
use thundercrab.Json.Canonical.{
  IsWellFormed, AreWellFormed, HaveWellFormed, IsCanonical, AreCanonical, HaveCanonical,
  IsCanonical-object, insert_all_of_distinct,
}

mutual
  unfolding sort_value IsWellFormed IsCanonical

  canonical : (v : Json) → IsWellFormed v → IsCanonical (sort_value v)
  canonical null h = tt
  canonical (bool b) h = tt
  canonical (number n) h = tt
  canonical (string s) h = tt
  canonical (array xs) h = canonical_items xs h
  canonical (object fs) h =
      IsCanonical-object (sort_children fs) (sort_children-HasDistinctKeys fs h.0)
        (canonical_children fs h.1)

  canonical_items : (xs : Items) → AreWellFormed xs → AreCanonical (sort_items xs)
  canonical_items nil h = tt
  canonical_items (cons x xs) h = (canonical x h.0, canonical_items xs h.1)

  canonical_children : (fs : Fields) → HaveWellFormed fs → HaveCanonical (sort_children fs)
  canonical_children end h = tt
  canonical_children (field k v fs) h = (canonical v h.0, canonical_children fs h.1)

mutual
  unfolding sort_value IsCanonical

  unchanged : (v : Json) → IsCanonical v → sort_value v ≡ v
  unchanged null h = refl
  unchanged (bool b) h = refl
  unchanged (number n) h = refl
  unchanged (string s) h = refl
  unchanged (array xs) h = ap array (unchanged_items xs h)
  unchanged (object fs) h =
      ap (λ l. object (insert_all end (sort_entries l))) (unchanged_children fs h.2)
      ∙ ap (λ l. object (insert_all end l)) (sort_entries_of_IsAscending fs h.1)
      ∙ ap object (insert_all_of_distinct fs h.0)

  unchanged_items : (xs : Items) → AreCanonical xs → sort_items xs ≡ xs
  unchanged_items nil h = refl
  unchanged_items (cons x xs) h = cc (unchanged x h.0, unchanged_items xs h.1)

  unchanged_children : (fs : Fields) → HaveCanonical fs → sort_children fs ≡ fs
  unchanged_children end h = refl
  unchanged_children (field k v fs) h = cc (unchanged v h.0, unchanged_children fs h.1)

-- For a value in which no object has a key twice, `sort_value` returns a value whose objects have, at
-- every depth, distinct keys in ascending order; and sorting that value again changes nothing.
pub sort_value-IsCanonical :
    (v : Json)
    → IsWellFormed v
    → IsCanonical (sort_value v) × (sort_value (sort_value v) ≡ sort_value v)
sort_value-IsCanonical v h = (canonical v h, unchanged (sort_value v) (canonical v h))
