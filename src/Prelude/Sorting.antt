-- ===== src/Prelude/Sorting.antt =====
-- `ORDER BY`: sorting by a Boolean order, by insertion. Rows that the order does not tell apart keep
-- their order here; SQL promises none.
use Prim.Native.Nat.{suc}
use mathlib.Core.Path.{◌≡◌, refl, sym, ap, subst, ◌∙◌}
use mathlib.Core.Logic.{inl, inr}
use mathlib.Core.Bool.{Bool, true, false}
use mathlib.Core.List.{List, [], ◌∷◌, Perm, Memᴰ}
use mathlib.Core.List.Memᴰ
use mathlib.Core.List.Perm
use thundercrab.Prelude.Tests.{if◌then◌else◌, Bool-cases}
use thundercrab.Prelude.Lists.{All, length}

module _ {ℓ} {A : Type ℓ} (before : A → A → Bool) where
  insert_by : A → List A → List A
  insert_by x [] = x ∷ []
  insert_by x (y ∷ ys) = if before x y then x ∷ y ∷ ys else y ∷ insert_by x ys

  unfoldable pub sort_by : List A → List A
  unfolding insert_by
  sort_by [] = []
  sort_by (x ∷ xs) = insert_by x (sort_by xs)

  -- Each row comes before every later one.
  abbrev pub IsSorted : List A → Type ℓ
  IsSorted [] = Unit
  IsSorted (x ∷ xs) = All (λ y. before x y ≡ true) xs × IsSorted xs

  insert_by-perm : (x : A) (xs : List A) → Perm (insert_by x xs) (x ∷ xs)
  unfolding insert_by
  insert_by-perm x [] = Perm.refl (x ∷ [])
  insert_by-perm x (y ∷ ys) = elim (Bool-cases (before x y)) [
    | inl t ↦ rw t (Perm.refl (x ∷ y ∷ ys))
    | inr f ↦ rw f (Perm.trans (Perm.cons y (insert_by-perm x ys)) (Perm.swap x y ys))
  ]

  pub sort_by-perm : (xs : List A) → Perm (sort_by xs) xs
  unfolding sort_by
  sort_by-perm [] = Perm.refl []
  sort_by-perm (x ∷ xs) = Perm.trans (insert_by-perm x (sort_by xs)) (Perm.cons x (sort_by-perm xs))

  insert_by-All {κ} :
      (P : A → Type κ) (x : A) (xs : List A) → P x → All P xs → All P (insert_by x xs)
  unfolding insert_by
  insert_by-All P x [] p h = (p, tt)
  insert_by-All P x (y ∷ ys) p h = elim (Bool-cases (before x y)) [
    | inl t ↦ rw t (p, h)
    | inr f ↦ rw f (h.0, insert_by-All P x ys p h.1)
  ]

  pub sort_by-All {κ} : (P : A → Type κ) (xs : List A) → All P xs → All P (sort_by xs)
  unfolding sort_by
  sort_by-All P [] h = tt
  sort_by-All P (x ∷ xs) h = insert_by-All P x (sort_by xs) h.0 (sort_by-All P xs h.1)

  mem-insert_by_self : (x : A) (xs : List A) → Memᴰ x (insert_by x xs)
  unfolding insert_by
  mem-insert_by_self x [] = Memᴰ.head refl
  mem-insert_by_self x (y ∷ ys) = elim (Bool-cases (before x y)) [
    | inl t ↦ rw t (Memᴰ.head refl)
    | inr f ↦ rw f (Memᴰ.tail (mem-insert_by_self x ys))
  ]

  mem-insert_by : {y : A} (x : A) (xs : List A) → Memᴰ y xs → Memᴰ y (insert_by x xs)
  unfolding insert_by
  mem-insert_by x [] m = elim m [ ]
  mem-insert_by x (z ∷ zs) m = elim (Bool-cases (before x z)) [
    | inl t ↦ rw t (Memᴰ.tail m)
    | inr f ↦ rw f (elim (Memᴰ.cases_cons m) [
      | inl e ↦ Memᴰ.head e
      | inr k ↦ Memᴰ.tail (mem-insert_by x zs k)
    ])
  ]

  pub mem-sort_by : {x : A} (xs : List A) → Memᴰ x xs → Memᴰ x (sort_by xs)
  unfolding sort_by
  mem-sort_by [] m = elim m [ ]
  mem-sort_by (y ∷ ys) (Memᴰ.head e) =
      subst (λ z. Memᴰ z (insert_by y (sort_by ys))) (sym e) (mem-insert_by_self y (sort_by ys))
  mem-sort_by (y ∷ ys) (Memᴰ.tail m) = mem-insert_by y (sort_by ys) (mem-sort_by ys m)

  length-insert_by : (x : A) (xs : List A) → length (insert_by x xs) ≡ suc (length xs)
  unfolding insert_by
  length-insert_by x [] = refl
  length-insert_by x (y ∷ ys) = elim (Bool-cases (before x y)) [
    | inl t ↦ rw t
    | inr f ↦ rw f (ap suc (length-insert_by x ys))
  ]

  pub length-sort_by : (xs : List A) → length (sort_by xs) ≡ length xs
  unfolding sort_by
  length-sort_by [] = refl
  length-sort_by (x ∷ xs) = length-insert_by x (sort_by xs) ∙ ap suc (length-sort_by xs)

  module _ (total : (x y : A) → before x y ≡ false → before y x ≡ true)
      (transitive : (x y z : A) → before x y ≡ true → before y z ≡ true → before x z ≡ true) where
    before-All :
        (x y : A) (ys : List A)
        → before x y ≡ true
        → All (λ z. before y z ≡ true) ys
        → All (λ z. before x z ≡ true) ys
    before-All x y [] t h = tt
    before-All x y (z ∷ zs) t h = (transitive x y z t h.0, before-All x y zs t h.1)

    insert_by-IsSorted : (x : A) (xs : List A) → IsSorted xs → IsSorted (insert_by x xs)
    unfolding insert_by
    insert_by-IsSorted x [] h = (tt, tt)
    insert_by-IsSorted x (y ∷ ys) h = elim (Bool-cases (before x y)) [
      | inl t ↦ rw t ((t, before-All x y ys t h.0), h)
      | inr f ↦ rw f (
        insert_by-All (λ z. before y z ≡ true) x ys (total x y f) h.0,
        insert_by-IsSorted x ys h.1,
      )
    ]

    pub sort_by-IsSorted : (xs : List A) → IsSorted (sort_by xs)
    unfolding sort_by
    sort_by-IsSorted [] = tt
    sort_by-IsSorted (x ∷ xs) = insert_by-IsSorted x (sort_by xs) (sort_by-IsSorted xs)

-- Lists of one length whose members are related one by one.
abbrev pub Related {ℓ κ} : {A : Type ℓ} {B : Type κ} → (A → B → Type 0) → List A → List B → Type 0
Related R [] [] = Unit
Related R [] (y ∷ ys) = ⊥
Related R (x ∷ xs) [] = ⊥
Related R (x ∷ xs) (y ∷ ys) = R x y × Related R xs ys

-- If two orders agree on related members, sorting keeps lists related.
module _ {ℓ κ} {A : Type ℓ} {B : Type κ} (R : A → B → Type 0) (p : A → A → Bool) (q : B → B → Bool)
    (agree : (a c : A) (b d : B) → R a b → R c d → p a c ≡ q b d) where
  insert_by-Related :
      (x : A) (y : B) (xs : List A) (ys : List B)
      → R x y
      → Related R xs ys
      → Related R (insert_by p x xs) (insert_by q y ys)
  unfolding insert_by
  insert_by-Related x y [] [] r h = (r, tt)
  insert_by-Related x y [] (d ∷ ys) r h = absurd h
  insert_by-Related x y (c ∷ xs) [] r h = absurd h
  insert_by-Related x y (c ∷ xs) (d ∷ ys) r h = elim (Bool-cases (p x c)) [
    | inl t ↦ rw (t, sym (agree x c y d r h.0) ∙ t) (r, h)
    | inr f ↦ rw (f, sym (agree x c y d r h.0) ∙ f) (h.0, insert_by-Related x y xs ys r h.1)
  ]

  pub sort_by-Related :
      (xs : List A) (ys : List B) → Related R xs ys → Related R (sort_by p xs) (sort_by q ys)
  unfolding sort_by
  sort_by-Related [] [] h = tt
  sort_by-Related [] (d ∷ ys) h = absurd h
  sort_by-Related (c ∷ xs) [] h = absurd h
  sort_by-Related (c ∷ xs) (d ∷ ys) h =
      insert_by-Related c d (sort_by p xs) (sort_by q ys) h.0 (sort_by-Related xs ys h.1)
