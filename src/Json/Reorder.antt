-- ===== src/Json/Reorder.antt =====
-- `sort_value` and the order in which maps yield their entries.
use thundercrab.Prelude.{◌≡◌, ◌≢◌, refl, ap, ◌∙◌, Text, arith}
use thundercrab.Prelude.Sql.{text_le_total, text_le_trans, text_le_antisymm}
use thundercrab.Json.{
  Json, Items, Fields, array, object, nil, cons, end, field, insert_entry, sort_entries, insert_all,
  sort_value, sort_items, sort_children,
}

-- Values that differ only in the order of entries with different keys, at any depth.
mutual
  pub data SameValue : Json → Json → Type 0 where
    same : {v : Json} → SameValue v v
    same_array : {xs ys : Items} → SameItems xs ys → SameValue (array xs) (array ys)
    same_object : {fs gs : Fields} → SameEntries fs gs → SameValue (object fs) (object gs)
    both : {u v w : Json} → SameValue u v → SameValue v w → SameValue u w

  pub data SameItems : Items → Items → Type 0 where
    none : SameItems nil nil
    next :
        {x y : Json} {xs ys : Items}
        → SameValue x y
        → SameItems xs ys
        → SameItems (cons x xs) (cons y ys)

  pub data SameEntries : Fields → Fields → Type 0 where
    empty : SameEntries end end
    entry :
        {k : Text} {v w : Json} {fs gs : Fields}
        → SameValue v w
        → SameEntries fs gs
        → SameEntries (field k v fs) (field k w gs)
    swap :
        {j k : Text} {v w : Json} {fs : Fields}
        → j ≢ k
        → SameEntries (field j v (field k w fs)) (field k w (field j v fs))
    chain : {fs gs hs : Fields} → SameEntries fs gs → SameEntries gs hs → SameEntries fs hs

-- Entries with different keys can be inserted in either order.
insert_entry_comm :
    (j k : Text) (v w : Json) (fs : Fields)
    → j ≢ k
    → insert_entry j v (insert_entry k w fs) ≡ insert_entry k w (insert_entry j v fs)
unfolding insert_entry
insert_entry_comm j k v w end n =
    ground (arith, text_le_total j k, text_le_total k j, text_le_antisymm j k)
insert_entry_comm j k v w (field i u fs) n = ground (
  arith,
  text_le_total j k,
  text_le_total k j,
  text_le_antisymm j k,
  text_le_trans j k i,
  text_le_trans k j i,
  text_le_trans j i k,
  text_le_trans k i j,
  text_le_total j i,
  text_le_total k i,
  insert_entry_comm j k v w fs n,
)

mutual
  unfolding sort_value sort_entries

  value : {v w : Json} → SameValue v w → sort_value v ≡ sort_value w
  value same = refl
  value (same_array h) = ap array (items h)
  value (same_object h) = ap (λ l. object (insert_all end l)) (entries h)
  value (both h k) = value h ∙ value k

  items : {xs ys : Items} → SameItems xs ys → sort_items xs ≡ sort_items ys
  items none = refl
  items (next h k) = cc (value h, items k)

  entries :
      {fs gs : Fields}
      → SameEntries fs gs
      → sort_entries (sort_children fs) ≡ sort_entries (sort_children gs)
  entries empty = refl
  entries (entry {k = k} h t) = cc (value h, entries t)
  entries (swap {j = j} {k = k} {v = v} {w = w} {fs = fs} n) =
      insert_entry_comm j k (sort_value v) (sort_value w) (sort_entries (sort_children fs)) n
  entries (chain h k) = entries h ∙ entries k

-- Two values that differ only in the order in which their maps yield entries, at any depth, have the
-- same canonical value.
pub sort_value-SameValue : (v w : Json) → SameValue v w → sort_value v ≡ sort_value w
sort_value-SameValue v w h = value h
