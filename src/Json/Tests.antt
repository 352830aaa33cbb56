-- ===== src/Json/Tests.antt =====
-- Runs of `sort_value`, and its theorems at a concrete value.
use thundercrab.Prelude.{◌≡◌, refl, codes, arith, text_eq, text_eq_iff, true}
use thundercrab.Prelude.Int.{pos}
use thundercrab.Prelude.Sql.{text_le}
use thundercrab.Json.{
  Json, null, number, array, object, nil, cons, end, field, insert_entry, sort_entries, map_insert,
  insert_all, sort_value,
}
use thundercrab.Json.Canonical.{IsWellFormed}

runs : Unit {0}
unfolding sort_value insert_entry sort_entries map_insert insert_all text_le text_eq
runs = tt

abbrev inner : Json
inner = object (field (codes "b") (number (pos 1)) (field (codes "a") null end))

abbrev inner_sorted : Json
inner_sorted = object (field (codes "a") null (field (codes "b") (number (pos 1)) end))

abbrev outer : Json
outer = object (field (codes "z") null (field (codes "list") (array (cons inner nil)) end))

abbrev outer_sorted : Json
outer_sorted =
    object (field (codes "list") (array (cons inner_sorted nil)) (field (codes "z") null end))

sorted_at_depth : sort_value outer ≡ outer_sorted
unfolding runs
sorted_at_depth = refl

outer-IsWellFormed : IsWellFormed outer
unfolding IsWellFormed
outer-IsWellFormed = ground arith

b_is_not_a : ¬ (codes "b" ≡ codes "a")
unfolding text_eq
b_is_not_a e =
    let h : text_eq (codes "b") (codes "a") ≡ true = (text_eq_iff (codes "b") (codes "a")).1 e in
    ground arith
