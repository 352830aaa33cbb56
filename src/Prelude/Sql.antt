-- ===== src/Prelude/Sql.antt =====
-- What the SQL statements of the two stores have in common. SQLite itself is not modelled: a
-- statement either runs or fails with a message and changes nothing.
use thundercrab.Prelude.{
  ◌≡◌, refl, Bool, true, false, ◌||◌, ◌&&◌, Text, Option, none, some, [], ◌∷◌, Result, ok, err,
  arith, ltb, ◌==◌, if◌then◌else◌,
}
use thundercrab.Prelude.Int.{ℤ, leb_ℤ}

abbrev pub Fault : Type 0
Fault = Option Text

-- The outcome of a statement that computes `a`.
abbrev pub run {ℓ} : {A : Type ℓ} → Fault → A → Result A Text
run none a = ok a
run (some e) a = err e

-- `BINARY` collation: the order of the UTF-8 bytes, which is that of the code points.
unfoldable pub text_le : Text → Text → Bool
text_le [] b = true
text_le (c ∷ a) [] = false
text_le (c ∷ a) (d ∷ b) = ltb c d || c == d && text_le a b

pub text_le_total : (a b : Text) → text_le a b ≡ false → text_le b a ≡ true
unfolding text_le
text_le_total [] b h = cc
text_le_total (c ∷ a) [] h = refl
text_le_total (c ∷ a) (d ∷ b) h = ground (arith, text_le_total a b)

pub text_le_trans : (a b c : Text) → text_le a b ≡ true → text_le b c ≡ true → text_le a c ≡ true
unfolding text_le
text_le_trans [] b c h k = refl
text_le_trans (x ∷ a) [] c h k = cc
text_le_trans (x ∷ a) (y ∷ b) [] h k = cc
text_le_trans (x ∷ a) (y ∷ b) (z ∷ c) h k = ground (arith, text_le_trans a b c)

pub text_le_antisymm : (a b : Text) → text_le a b ≡ true → text_le b a ≡ true → a ≡ b
unfolding text_le
text_le_antisymm [] [] h k = refl
text_le_antisymm [] (d ∷ b) h k = cc
text_le_antisymm (c ∷ a) [] h k = cc
text_le_antisymm (c ∷ a) (d ∷ b) h k = ground (arith, text_le_antisymm a b)

-- `MIN` of integers and of texts.
abbrev pub min_ℤ : ℤ → ℤ → ℤ
min_ℤ a b = if leb_ℤ a b then a else b

abbrev pub min_text : Text → Text → Text
min_text a b = if text_le a b then a else b
