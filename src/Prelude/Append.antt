-- ===== src/Prelude/Append.antt =====
-- Adding one value at the end of a list: what becomes of its distinct values.
use mathlib.Core.Bool.{not}
use mathlib.Core.List.{append-nil}
use thundercrab.Prelude.{
  ◌+◌, ◌≡◌, ◌≢◌, refl, ap, ◌∙◌, Bool, true, false, ◌||◌, List, [], ◌∷◌, ◌++◌, filter, any, length,
  All, length-append, All-append, Bool-cases, inl, inr, arith, if◌then◌else◌,
}
use thundercrab.Prelude.Eq.{Eq, same, same_iff, distinct, Distinct}

module _ {ℓ} {A : Type ℓ} where
  pub filter-append :
      (p : A → Bool) (xs ys : List A) → filter p (xs ++ ys) ≡ filter p xs ++ filter p ys
  filter-append p [] ys = refl
  filter-append p (x ∷ xs) ys = elim (Bool-cases (p x)) [
    | inl t ↦ rw (t, filter-append p xs ys)
    | inr f ↦ rw (f, filter-append p xs ys)
  ]

  pub filter_of_All : (p : A → Bool) (xs : List A) → All (λ x. p x ≡ true) xs → filter p xs ≡ xs
  filter_of_All p [] h = refl
  filter_of_All p (x ∷ xs) h = rw h.0 (ap (λ l. x ∷ l) (filter_of_All p xs h.1))

  pub cons-if :
      (b : Bool) (y : A) (xs ys : List A)
      → y ∷ (if b then xs else ys) ≡ (if b then y ∷ xs else y ∷ ys)
  cons-if true y xs ys = refl
  cons-if false y xs ys = refl

module _ {ℓ} {A : Type ℓ} ⦃e : Eq A⦄ where
  -- `x` stands in the list.
  abbrev pub contains : A → List A → Bool
  contains x xs = any (λ y. same y x) xs

  distinct_step :
      (y x : A) (b : Bool) (d ys : List A)
      → d ≡ (if b then ys else ys ++ (x ∷ []))
      → filter (λ z. not (same y z)) d ≡ (
          if same y x || b
          then filter (λ z. not (same y z)) ys
          else filter (λ z. not (same y z)) ys ++ (x ∷ []))
  distinct_step y x true d ys h = elim (Bool-cases (same y x)) [
    | inl t ↦ rw (t, h)
    | inr f ↦ rw (f, h)
  ]
  distinct_step y x false d ys h = elim (Bool-cases (same y x)) [
    | inl t ↦ rw (h, filter-append, t) (append-nil _)
    | inr f ↦ rw (h, filter-append, f)
  ]

  -- A value at the end adds itself to the distinct values if it is new, and nothing otherwise.
  pub distinct-append :
      (xs : List A) (x : A)
      → distinct (xs ++ (x ∷ [])) ≡ (if contains x xs then distinct xs else distinct xs ++ (x ∷ []))
  unfolding distinct
  distinct-append [] x = refl
  distinct-append (y ∷ xs) x =
      ap (λ l. y ∷ l)
        (distinct_step y x (contains x xs) (distinct (xs ++ (x ∷ []))) (distinct xs)
          (distinct-append xs x))
      ∙ cons-if (same y x || contains x xs) y _ _

  pub length-distinct-append :
      (xs : List A) (x : A)
      → length (distinct (xs ++ (x ∷ []))) ≡ length (distinct xs) + (if contains x xs then 0 else 1)
  length-distinct-append xs x = elim (Bool-cases (contains x xs)) [
    | inl t ↦ rw (distinct-append, t) (omega arith)
    | inr f ↦ rw (distinct-append, f) (length-append (distinct xs) (x ∷ []))
  ]

  pub Distinct-append :
      (xs : List A) (x : A) → Distinct xs → contains x xs ≡ false → Distinct (xs ++ (x ∷ []))
  Distinct-append [] x h k = (tt, tt)
  Distinct-append (y ∷ xs) x h k = (
    All-append (λ z. y ≢ z) xs (x ∷ []) h.0 ((λ p. ground (arith, same_iff y x)), tt),
    Distinct-append xs x h.1 (ground arith),
  )

  contains-filter :
      (p : A → Bool) (x : A) (xs : List A) → p x ≡ true → contains x (filter p xs) ≡ contains x xs
  contains-filter p x [] h = refl
  contains-filter p x (y ∷ xs) h = elim (Bool-cases (p y)) [
    | inl t ↦ rw t (ap (λ b. same y x || b) (contains-filter p x xs h))
    | inr f ↦ ground (arith, same_iff y x, contains-filter p x xs)
  ]

  -- A list and its distinct values contain the same values.
  pub contains-distinct : (x : A) (xs : List A) → contains x (distinct xs) ≡ contains x xs
  unfolding distinct
  contains-distinct x [] = refl
  contains-distinct x (y ∷ xs) = elim (Bool-cases (same y x)) [
    | inl t ↦ rw t refl
    | inr f ↦
        rw f (
          contains-filter (λ z. not (same y z)) x (distinct xs) (rw f refl)
          ∙ contains-distinct x xs)
  ]

  not_same_of_ne : (x : A) (xs : List A) → All (λ y. x ≢ y) xs → All (λ y. not (same x y) ≡ true) xs
  not_same_of_ne x [] h = tt
  not_same_of_ne x (y ∷ xs) h = (ground (arith, h.0, same_iff x y), not_same_of_ne x xs h.1)

  -- The distinct values of a list without repetition are the list.
  pub distinct_of_Distinct : (xs : List A) → Distinct xs → distinct xs ≡ xs
  unfolding distinct
  distinct_of_Distinct [] h = refl
  distinct_of_Distinct (x ∷ xs) h =
      rw (distinct_of_Distinct xs h.1)
        (ap (λ l. x ∷ l) (filter_of_All _ xs (not_same_of_ne x xs h.0)))
