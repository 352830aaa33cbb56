-- ===== src/Derive/Learned/Totals.antt =====
-- The total of a domain in the counts that the local store gives: the number of its flag events.
use mathlib.Core.List.{Memᴰ, Perm, foldr}
use mathlib.Core.List.Memᴰ
use mathlib.Core.Path.{subst}
use mathlib.Core.List.Perm.{foldr-eq}
use native.Mathlib.Nat.{ℕ_set}
use thundercrab.Prelude.{
  ℕ, ◌+◌, ◌≤◌, ◌<◌, ◌≡◌, ◌≢◌, refl, sym, ap, ◌∙◌, Bool, true, false, ◌&&◌, List, [], ◌∷◌, map,
  filter, length, Text, text_eq, text_eq_iff, Bool-cases, inl, inr, arith, All, if◌then◌else◌,
}
use thundercrab.Prelude.Int.{pos, ◌<ℤ◌, int_laws}
use thundercrab.Prelude.Eq.{
  same, same_iff, same_refl, text_same, pair_same, distinct, Distinct, distinct-Distinct,
  mem-filter,
}
use thundercrab.Prelude.Append.{contains, contains-distinct}
use thundercrab.Prelude.Sorting.{sort_by-perm}
use thundercrab.Db.{pair_of, count_pair, has_domain, pair_counts}
use thundercrab.Db.State.{FlagRow}
use thundercrab.Db.Flags.{more_first}
use thundercrab.Derive.Sums.{FlagCount, domain_total}

abbrev Counts : Type 0
Counts = List ((Text × Text) × ℕ)

-- A row of the answer.
abbrev pub answered : (Text × Text) × ℕ → FlagCount
answered g = (g.0.0, g.0.1, pos g.1)

abbrev pub in_domain : Text → FlagRow → Bool
in_domain d r = text_eq r.from_domain_with_at d

module _ (d : Text) where
  weight : (Text × Text) × ℕ → ℕ
  weight (k, n) = if text_eq k.0 d then n else 0

  total : Counts → ℕ
  unfolding weight
  total gs = foldr (λ g n. weight g + n) 0 gs

  total-domain_total : (gs : Counts) → domain_total d (map answered gs) ≡ pos (total gs)
  unfolding domain_total total weight
  total-domain_total [] = refl
  total-domain_total ((k, n) ∷ gs) = elim (Bool-cases (text_eq k.0 d)) [
    | inl t ↦ rw (t, total-domain_total gs) (omega int_laws)
    | inr f ↦ rw (f, total-domain_total gs) (ap pos (omega arith))
  ]

  total-perm : {gs hs : Counts} → Perm gs hs → total gs ≡ total hs
  unfolding total
  total-perm p = foldr-eq ℕ_set (λ g n. weight g + n) (λ a b n. omega arith) p 0

  counted : List FlagRow → List (Text × Text) → ℕ
  counted rows ks = total (map (λ k. (k, count_pair k rows)) ks)

  -- A row counts for its own pair alone.
  hits : Text × Text → List (Text × Text) → ℕ
  hits p [] = 0
  hits p (k ∷ ks) = (if text_eq k.0 d && same p k then 1 else 0) + hits p ks

  hits-absent : (p : Text × Text) (ks : List (Text × Text)) → All (λ k. p ≢ k) ks → hits p ks ≡ 0
  unfolding hits
  hits-absent p [] h = refl
  hits-absent p (k ∷ ks) h =
      let other : same p k ≡ false = ground (arith, same_iff p k, h.0) in
      elim (Bool-cases (text_eq k.0 d)) [
        | inl t ↦ rw (t, other) (omega (arith, hits-absent p ks h.1))
        | inr f ↦ rw f (omega (arith, hits-absent p ks h.1))
      ]

  hits_self :
      (k : Text × Text) (ks : List (Text × Text))
      → All (λ j. k ≢ j) ks
      → hits k (k ∷ ks) ≡ (if text_eq k.0 d && contains k (k ∷ ks) then 1 else 0)
  unfolding hits
  hits_self k ks h = elim (Bool-cases (text_eq k.0 d)) [
    | inl t ↦ rw (t, same_refl k) (omega (arith, hits-absent k ks h))
    | inr f ↦ rw f (omega (arith, hits-absent k ks h))
  ]

  hits-eq :
      (p : Text × Text) (ks : List (Text × Text))
      → Distinct ks
      → hits p ks ≡ (if text_eq p.0 d && contains p ks then 1 else 0)
  unfolding hits
  hits-eq p [] h = elim (Bool-cases (text_eq p.0 d)) [ inl t ↦ rw t refl | inr f ↦ rw f refl ]
  hits-eq p (k ∷ ks) h = elim (Bool-cases (same p k)) [
    | inl y ↦
        subst (λ q. hits q (k ∷ ks) ≡ (if text_eq q.0 d && contains q (k ∷ ks) then 1 else 0))
          (sym ((same_iff p k).0 y)) (hits_self k ks h.0)
    | inr n ↦
        let n' : same k p ≡ false = ground (arith, same_iff p k, same_iff k p) in
        elim (Bool-cases (text_eq k.0 d)) [
          | inl t ↦ rw (n, n', t) (omega (arith, hits-eq p ks h.1))
          | inr f ↦ rw (n', f) (omega (arith, hits-eq p ks h.1))
        ]
  ]

  counted-step :
      (r : FlagRow) (rows : List FlagRow) (ks : List (Text × Text))
      → counted (r ∷ rows) ks ≡ hits (pair_of r) ks + counted rows ks
  unfolding counted hits total weight count_pair
  counted-step r rows [] = omega arith
  counted-step r rows (k ∷ ks) = elim (Bool-cases (text_eq k.0 d)) [
    | inl t ↦ elim (Bool-cases (same (pair_of r) k)) [
      | inl y ↦ rw (t, y) (omega (arith, counted-step r rows ks))
      | inr n ↦ rw (t, n) (omega (arith, counted-step r rows ks))
    ]
    | inr f ↦ rw f (omega (arith, counted-step r rows ks))
  ]

  counted-none : (ks : List (Text × Text)) → counted [] ks ≡ 0
  unfolding counted total weight count_pair
  counted-none [] = refl
  counted-none (k ∷ ks) = elim (Bool-cases (text_eq k.0 d)) [
    | inl t ↦ rw t (omega (arith, counted-none ks))
    | inr f ↦ rw f (omega (arith, counted-none ks))
  ]

  counted-eq :
      (rows : List FlagRow) (ks : List (Text × Text))
      → Distinct ks
      → counted rows ks ≡ length (filter (λ r. in_domain d r && contains (pair_of r) ks) rows)
  unfolding counted
  counted-eq [] ks h = counted-none ks
  counted-eq (r ∷ rows) ks h = elim (Bool-cases (in_domain d r && contains (pair_of r) ks)) [
    | inl t ↦ rw t (
        omega
          (arith, counted-step r rows ks, rw t at (hits-eq (pair_of r) ks h), counted-eq rows ks h))
    | inr f ↦ rw f (
        omega
          (arith, counted-step r rows ks, rw f at (hits-eq (pair_of r) ks h), counted-eq rows ks h))
  ]

abbrev pairs : List FlagRow → List (Text × Text)
pairs rows = distinct (map pair_of (filter has_domain rows))

total-pairs :
    (d : Text) (rows : List FlagRow)
    → domain_total d (map answered (pair_counts rows))
      ≡ pos (length (filter (λ r. in_domain d r && contains (pair_of r) (pairs rows)) rows))
unfolding pair_counts counted
total-pairs d rows =
    total-domain_total d (pair_counts rows)
    ∙ ap pos (
        total-perm d (sort_by-perm more_first (map (λ k. (k, count_pair k rows)) (pairs rows)))
        ∙ counted-eq d rows (pairs rows) (distinct-Distinct (map pair_of (filter has_domain rows))))

length-filter : {A : Type 0} (p : A → Bool) (xs : List A) → length (filter p xs) ≤ length xs
length-filter p [] = omega arith
length-filter p (x ∷ xs) = elim (Bool-cases (p x)) [
  | inl t ↦ rw t (omega (arith, length-filter p xs))
  | inr f ↦ rw f (omega (arith, length-filter p xs))
]

filter-same :
    {A : Type 0} (p q : A → Bool) (xs : List A)
    → ((x : A) → Memᴰ x xs → p x ≡ q x)
    → filter p xs ≡ filter q xs
filter-same p q [] h = refl
filter-same p q (x ∷ xs) h =
    let rest = filter-same p q xs (λ y m. h y (Memᴰ.tail m)) in
    elim (Bool-cases (q x)) [
      | inl t ↦ rw (h x (Memᴰ.head refl), t, rest) refl
      | inr f ↦ rw (h x (Memᴰ.head refl), f, rest) refl
    ]

-- The total of a domain is at most the number of events.
pub total_le :
    (d : Text) (rows : List FlagRow) (n : ℕ)
    → length rows < n
    → domain_total d (map answered (pair_counts rows)) <ℤ pos n
total_le d rows n h =
    let few = length-filter (λ r. in_domain d r && contains (pair_of r) (pairs rows)) rows in
    rw (total-pairs d rows) (omega (arith, few, h))

contains_of_mem : (x : Text × Text) (xs : List (Text × Text)) → Memᴰ x xs → contains x xs ≡ true
contains_of_mem x [] m = elim m [ ]
contains_of_mem x (y ∷ ys) (Memᴰ.head e) = ground (arith, (same_iff y x).1 (sym e))
contains_of_mem x (y ∷ ys) (Memᴰ.tail m) = ground (arith, contains_of_mem x ys m)

-- The total of a domain that has a name is the number of its events.
pub total-eq :
    (d : Text) (rows : List FlagRow)
    → d ≢ []
    → domain_total d (map answered (pair_counts rows)) ≡ pos (length (filter (in_domain d) rows))
total-eq d rows named =
    total-pairs d rows ∙ ap (λ l. pos (length l)) (filter-same _ (in_domain d) rows known)
  where
    known :
        (r : FlagRow)
        → Memᴰ r rows
        → (in_domain d r && contains (pair_of r) (pairs rows)) ≡ in_domain d r
    known r m = elim (Bool-cases (in_domain d r)) [
      | inr f ↦ rw f refl
      | inl t ↦
          let has : has_domain r ≡ true = ground (
            arith,
            (text_eq_iff r.from_domain_with_at d).0 t,
            named,
            same_iff r.from_domain_with_at [],
          ) in
          let is : contains (pair_of r) (map pair_of (filter has_domain rows)) ≡ true =
            contains_of_mem (pair_of r) _ (Memᴰ.map pair_of (mem-filter has_domain rows m has)) in
          rw (t, contains-distinct, is) refl
    ]
