-- ===== src/Prelude/Eq.antt =====
-- Equality tests as an interface, and lists by them: membership, distinctness, grouping.
use mathlib.Core.Path.{◌≡◌, refl, sym, subst}
use mathlib.Core.Logic.{◌≢◌, ◌↔◌, inl, inr}
use mathlib.Core.Bool.{Bool, true, ◌&&◌, not}
use mathlib.Core.List.{List, [], ◌∷◌, Memᴰ}
use mathlib.Core.List.Memᴰ
use native.Mathlib.Omega.{arith}
use thundercrab.Prelude.Tests.{Bool-cases}
use thundercrab.Prelude.Lists.{All, filter}
use thundercrab.Prelude.Chars.{Text, text_eq, text_eq_iff}

pub record Eq {ℓ} (A : Type ℓ) : Type ℓ where
  pub same : A → A → Bool
  pub same_iff : (a b : A) → (same a b ≡ true) ↔ (a ≡ b)

abbrev pub same {ℓ} : {A : Type ℓ} ⦃e : Eq A⦄ → A → A → Bool
same ⦃e⦄ = e.same

pub same_iff {ℓ} : {A : Type ℓ} ⦃e : Eq A⦄ (a b : A) → (same a b ≡ true) ↔ (a ≡ b)
same_iff ⦃e⦄ = e.same_iff

pub same_refl {ℓ} : {A : Type ℓ} ⦃e : Eq A⦄ (a : A) → same a a ≡ true
same_refl ⦃e⦄ a = (e.same_iff a a).1 refl

instance abbrev pub text_same : Eq Text
text_same = record { same = text_eq; same_iff = text_eq_iff }

module _ {ℓ κ} {A : Type ℓ} {B : Type κ} ⦃e : Eq A⦄ ⦃f : Eq B⦄ where
  abbrev pub same_pair : A × B → A × B → Bool
  same_pair (a, b) (c, d) = same a c && same b d

  pub same_pair_iff : (p q : A × B) → (same_pair p q ≡ true) ↔ (p ≡ q)
  same_pair_iff (a, b) (c, d) = ground (arith, e.same_iff a c, f.same_iff b d)

  instance abbrev pub pair_same : Eq (A × B)
  pair_same = record { same = same_pair; same_iff = same_pair_iff }

module _ {ℓ} {A : Type ℓ} where
  -- No value stands in the list twice.
  abbrev pub Distinct : List A → Type ℓ
  Distinct [] = Unit
  Distinct (x ∷ xs) = All (λ y. x ≢ y) xs × Distinct xs

  pub All-filter {κ} :
      (P : A → Type κ) (p : A → Bool) (xs : List A) → All P xs → All P (filter p xs)
  All-filter P p [] h = tt
  All-filter P p (x ∷ xs) h = elim (Bool-cases (p x)) [
    | inl t ↦ rw t (h.0, All-filter P p xs h.1)
    | inr f ↦ rw f (All-filter P p xs h.1)
  ]

  pub All-mem {κ} : (P : A → Type κ) {x : A} (xs : List A) → All P xs → Memᴰ x xs → P x
  All-mem P [] h m = elim m [ ]
  All-mem P (y ∷ ys) h (Memᴰ.head e) = subst P (sym e) h.0
  All-mem P (y ∷ ys) h (Memᴰ.tail m) = All-mem P ys h.1 m

  pub All-of_mem {κ} : (P : A → Type κ) (xs : List A) → ((x : A) → Memᴰ x xs → P x) → All P xs
  All-of_mem P [] h = tt
  All-of_mem P (x ∷ xs) h = (h x (Memᴰ.head refl), All-of_mem P xs (λ y m. h y (Memᴰ.tail m)))

  pub mem-filter :
      (p : A → Bool) {x : A} (xs : List A) → Memᴰ x xs → p x ≡ true → Memᴰ x (filter p xs)
  mem-filter p [] m h = elim m [ ]
  mem-filter p (y ∷ ys) (Memᴰ.head e) h = rw (subst (λ z. p z ≡ true) e h) (Memᴰ.head e)
  mem-filter p (y ∷ ys) (Memᴰ.tail m) h = elim (Bool-cases (p y)) [
    | inl t ↦ rw t (Memᴰ.tail (mem-filter p ys m h))
    | inr f ↦ rw f (mem-filter p ys m h)
  ]

  pub mem_of_filter :
      (p : A → Bool) {x : A} (xs : List A) → Memᴰ x (filter p xs) → Memᴰ x xs × (p x ≡ true)
  mem_of_filter p [] m = elim m [ ]
  mem_of_filter p (y ∷ ys) m = elim (Bool-cases (p y)) [
    | inl t ↦ elim (Memᴰ.cases_cons (rw t at m)) [
      | inl e ↦ (Memᴰ.head e, subst (λ z. p z ≡ true) (sym e) t)
      | inr n ↦ let (k, h) = mem_of_filter p ys n in (Memᴰ.tail k, h)
    ]
    | inr f ↦ let (k, h) = mem_of_filter p ys (rw f at m) in (Memᴰ.tail k, h)
  ]

module _ {ℓ} {A : Type ℓ} ⦃e : Eq A⦄ where
  -- `SELECT DISTINCT`, and the keys of a `GROUP BY`: each value once, in the order of first occurrence.
  unfoldable pub distinct : List A → List A
  distinct [] = []
  distinct (x ∷ xs) = x ∷ filter (λ y. not (same x y)) (distinct xs)

  Distinct-filter : (p : A → Bool) (xs : List A) → Distinct xs → Distinct (filter p xs)
  Distinct-filter p [] h = tt
  Distinct-filter p (x ∷ xs) h = elim (Bool-cases (p x)) [
    | inl t ↦ rw t (All-filter (λ y. x ≢ y) p xs h.0, Distinct-filter p xs h.1)
    | inr f ↦ rw f (Distinct-filter p xs h.1)
  ]

  ne_of_not_same : (x : A) (xs : List A) → All (λ y. x ≢ y) (filter (λ y. not (same x y)) xs)
  ne_of_not_same x [] = tt
  ne_of_not_same x (y ∷ ys) = elim (Bool-cases (same x y)) [
    | inl t ↦ rw t (ne_of_not_same x ys)
    | inr f ↦ rw f (λ p. cc (f, (same_iff x y).1 p), ne_of_not_same x ys)
  ]

  pub distinct-Distinct : (xs : List A) → Distinct (distinct xs)
  unfolding distinct
  distinct-Distinct [] = tt
  distinct-Distinct (x ∷ xs) =
      (ne_of_not_same x (distinct xs), Distinct-filter _ (distinct xs) (distinct-Distinct xs))

  pub mem-distinct : {x : A} (xs : List A) → Memᴰ x xs → Memᴰ x (distinct xs)
  unfolding distinct
  mem-distinct [] m = elim m [ ]
  mem-distinct (y ∷ ys) (Memᴰ.head p) = Memᴰ.head p
  mem-distinct {x} (y ∷ ys) (Memᴰ.tail m) = elim (Bool-cases (same y x)) [
    | inl t ↦ Memᴰ.head (sym ((same_iff y x).0 t))
    | inr f ↦ Memᴰ.tail (mem-filter _ (distinct ys) (mem-distinct ys m) (rw f))
  ]

  pub mem_of_distinct : {x : A} (xs : List A) → Memᴰ x (distinct xs) → Memᴰ x xs
  unfolding distinct
  mem_of_distinct [] m = elim m [ ]
  mem_of_distinct (y ∷ ys) (Memᴰ.head p) = Memᴰ.head p
  mem_of_distinct (y ∷ ys) (Memᴰ.tail m) =
      Memᴰ.tail (mem_of_distinct ys (mem_of_filter _ (distinct ys) m).0)
