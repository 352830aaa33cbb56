-- ===== src/Ledger/Store/Ranking.antt =====
-- The `ORDER BY` of store.rs: the order of the listed entries.
use thundercrab.Prelude.{
  ◌≡◌, true, false, List, [], ◌∷◌, Bool-cases, inl, inr, arith, All, ◌⊎◌, ltb, ◌<◌,
}
use thundercrab.Prelude.Eq.{text_same}
use thundercrab.Prelude.Sorting.{IsSorted}
use thundercrab.Prelude.Sql.{text_le, text_le_total, text_le_trans}
use thundercrab.Ledger.Store.{Bytes, Group, listed_before}

pub listed_before-total : (g k : Group) → listed_before g k ≡ false → listed_before k g ≡ true
listed_before-total g k h = ground (arith, text_le_total g.pattern_hash k.pattern_hash)

pub listed_before_trans :
    (g k l : Group) → listed_before g k ≡ true → listed_before k l ≡ true → listed_before g l ≡ true
listed_before_trans g k l h e =
    ground (arith, text_le_trans g.pattern_hash k.pattern_hash l.pattern_hash)

-- The order of texts, and of bytes: the first difference decides, and a text comes before what
-- continues it.
abbrev pub IsBefore : Bytes → Bytes → Type 0
IsBefore [] b = Unit
IsBefore (c ∷ a) [] = ⊥
IsBefore (c ∷ a) (d ∷ b) = (c < d) ⊎ ((c ≡ d) × IsBefore a b)

IsBefore-of_text_le : (a b : Bytes) → text_le a b ≡ true → IsBefore a b
unfolding text_le
IsBefore-of_text_le [] b h = tt
IsBefore-of_text_le (c ∷ a) [] h = absurd (ground arith)
IsBefore-of_text_le (c ∷ a) (d ∷ b) h = elim (Bool-cases (ltb c d)) [
  | inl t ↦ inl (ground arith)
  | inr f ↦ inr (ground arith, IsBefore-of_text_le a b (ground arith))
]

-- The first entry has more corroborators, or as many and no greater hash.
abbrev pub Outranks : Group → Group → Type 0
Outranks g k =
    (k.corroborators < g.corroborators)
    ⊎ ((g.corroborators ≡ k.corroborators) × IsBefore g.pattern_hash k.pattern_hash)

-- Each entry outranks every later one.
abbrev pub IsRanked : List Group → Type 0
IsRanked [] = Unit
IsRanked (g ∷ gs) = All (Outranks g) gs × IsRanked gs

listed_before-Outranks : (g k : Group) → listed_before g k ≡ true → Outranks g k
listed_before-Outranks g k h = elim (Bool-cases (ltb k.corroborators g.corroborators)) [
  | inl t ↦ inl (ground arith)
  | inr f ↦ inr (ground arith, IsBefore-of_text_le g.pattern_hash k.pattern_hash (ground arith))
]

All-Outranks :
    (g : Group) (gs : List Group) → All (λ k. listed_before g k ≡ true) gs → All (Outranks g) gs
All-Outranks g [] h = tt
All-Outranks g (k ∷ gs) h = (listed_before-Outranks g k h.0, All-Outranks g gs h.1)

pub IsSorted-IsRanked : (gs : List Group) → IsSorted listed_before gs → IsRanked gs
IsSorted-IsRanked [] h = tt
IsSorted-IsRanked (g ∷ gs) h = (All-Outranks g gs h.0, IsSorted-IsRanked gs h.1)
