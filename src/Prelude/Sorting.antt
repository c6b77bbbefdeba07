-- ===== src/Prelude/Sorting.antt =====
-- The stable sort of `Array.prototype.sort` with a comparator, by a Boolean order: an element goes
-- before the first one it may stand before. And totals and bounds over a list, which sorting keeps.
use mathlib.Core.Path.{subst}
use cpa_keeper_dashboard.Prelude.{
  ℕ, zero, suc, ◌+◌, ◌≤◌, ◌<◌, ltb, if◌then◌else◌, ◌≡◌, refl, ap, map, ◌∙◌, Bool, true, false,
  Bool-cases, List, [], ◌∷◌, ◌++◌, length, take, drop, arith, inl, inr,
}

module _ {ℓ} {A : Type ℓ} where
  abbrev pub sum_by : (A → ℕ) → List A → ℕ
  sum_by f [] = 0
  sum_by f (x ∷ xs) = f x + sum_by f xs

  abbrev pub filter : (A → Bool) → List A → List A
  filter p [] = []
  filter p (x ∷ xs) = if p x then x ∷ filter p xs else filter p xs

  abbrev pub All {κ} : (A → Type κ) → List A → Type κ
  All P [] = Unit
  All P (x ∷ xs) = P x × All P xs

  pub sum_by-append : (f : A → ℕ) (xs ys : List A) → sum_by f (xs ++ ys) ≡ sum_by f xs + sum_by f ys
  sum_by-append f [] ys = omega arith
  sum_by-append f (x ∷ xs) ys = omega (arith, sum_by-append f xs ys)

  pub sum_by-take-drop :
      (f : A → ℕ) (n : ℕ) (xs : List A) → sum_by f (take n xs) + sum_by f (drop n xs) ≡ sum_by f xs
  sum_by-take-drop f zero xs = omega arith
  sum_by-take-drop f (suc n) [] = refl
  sum_by-take-drop f (suc n) (x ∷ xs) = omega (arith, sum_by-take-drop f n xs)

  -- What a test leaves out does not count.
  pub sum_by-filter_positive :
      (f : A → ℕ) (xs : List A) → sum_by f (filter (λ x. ltb 0 (f x)) xs) ≡ sum_by f xs
  sum_by-filter_positive f [] = refl
  sum_by-filter_positive f (x ∷ xs) = ground (arith, sum_by-filter_positive f xs)

  pub All-filter {κ} :
      (P : A → Type κ) (p : A → Bool) (xs : List A)
      → ((x : A) → p x ≡ true → P x)
      → All P (filter p xs)
  All-filter P p [] h = tt
  All-filter P p (x ∷ xs) h =
      elim (p x) as (λ b. (p x ≡ b) → All P (if b then x ∷ filter p xs else filter p xs)) [
        | true ↦ λ e. (h x e, All-filter P p xs h)
        | false ↦ λ e. All-filter P p xs h
      ]
        refl

  pub All-take {κ} : (P : A → Type κ) (n : ℕ) (xs : List A) → All P xs → All P (take n xs)
  All-take P zero xs a = tt
  All-take P (suc n) [] a = tt
  All-take P (suc n) (x ∷ xs) a = (a.0, All-take P n xs a.1)

  pub length_le_sum : (f : A → ℕ) (xs : List A) → All (λ x. 0 < f x) xs → length xs ≤ sum_by f xs
  length_le_sum f [] a = omega arith
  length_le_sum f (x ∷ xs) a = omega (arith, length_le_sum f xs a.1, a.0)

module _ {ℓ} {A : Type ℓ} (before : A → A → Bool) where
  abbrev pub insert_by : A → List A → List A
  insert_by x [] = x ∷ []
  insert_by x (y ∷ ys) = if before x y then x ∷ y ∷ ys else y ∷ insert_by x ys

  abbrev pub sort_by : List A → List A
  sort_by [] = []
  sort_by (x ∷ xs) = insert_by x (sort_by xs)

  -- Each element may stand before the next.
  abbrev pub IsSorted : List A → Type 0
  IsSorted [] = Unit
  IsSorted (x ∷ []) = Unit
  IsSorted (x ∷ y ∷ r) = (before x y ≡ true) × IsSorted (y ∷ r)

module _ {ℓ} {A : Type ℓ} (before : A → A → Bool) where
  sum_by-insert_by :
      (f : A → ℕ) (x : A) (xs : List A) → sum_by f (insert_by before x xs) ≡ f x + sum_by f xs
  sum_by-insert_by f x [] = refl
  sum_by-insert_by f x (y ∷ ys) = ground (arith, sum_by-insert_by f x ys)

  pub sum_by-sort_by : (f : A → ℕ) (xs : List A) → sum_by f (sort_by before xs) ≡ sum_by f xs
  sum_by-sort_by f [] = refl
  sum_by-sort_by f (x ∷ xs) =
      omega (arith, sum_by-insert_by f x (sort_by before xs), sum_by-sort_by f xs)

  All-insert_by {κ} :
      (P : A → Type κ) (x : A) (xs : List A) → P x → All P xs → All P (insert_by before x xs)
  All-insert_by P x [] p a = (p, tt)
  All-insert_by P x (y ∷ ys) p a =
      elim (before x y) as (λ b. All P (if b then x ∷ y ∷ ys else y ∷ insert_by before x ys)) [
        | true ↦ (p, a)
        | false ↦ (a.0, All-insert_by P x ys p a.1)
      ]

  pub All-sort_by {κ} : (P : A → Type κ) (xs : List A) → All P xs → All P (sort_by before xs)
  All-sort_by P [] a = tt
  All-sort_by P (x ∷ xs) a = All-insert_by P x (sort_by before xs) a.0 (All-sort_by P xs a.1)

  module _ (is_total : (x y : A) → before x y ≡ false → before y x ≡ true) where
    -- Below `y`, what was inserted is still after it.
    insert_below :
        (x y : A) (ys : List A)
        → before x y ≡ false
        → IsSorted before (y ∷ ys)
        → IsSorted before (insert_by before x ys)
        → IsSorted before (y ∷ insert_by before x ys)
    insert_below x y [] e s t = (is_total x y e, tt)
    insert_below x y (z ∷ zs) e s t = elim (Bool-cases (before x z)) [
      | inl first ↦ rw first (is_total x y e, (first, s.1))
      | inr later ↦ rw later (
        s.0,
        subst (λ b. IsSorted before (if b then x ∷ z ∷ zs else z ∷ insert_by before x zs)) later t,
      )
    ]

    insert_by-IsSorted :
        (x : A) (xs : List A) → IsSorted before xs → IsSorted before (insert_by before x xs)
    insert_by-IsSorted x [] s = tt
    insert_by-IsSorted x (y ∷ ys) s = elim (Bool-cases (before x y)) [
      | inl first ↦ rw first (first, s)
      | inr later ↦ rw later (insert_below x y ys later s (insert_by-IsSorted x ys (rest y ys s)))
    ]
      where
        rest : (y : A) (ys : List A) → IsSorted before (y ∷ ys) → IsSorted before ys
        rest y [] s = tt
        rest y (z ∷ zs) s = s.1

    pub sort_by-IsSorted : (xs : List A) → IsSorted before (sort_by before xs)
    sort_by-IsSorted [] = tt
    sort_by-IsSorted (x ∷ xs) = insert_by-IsSorted x (sort_by before xs) (sort_by-IsSorted xs)

  -- What is sorted stays as it is.
  pub sort_by-sorted : (xs : List A) → IsSorted before xs → sort_by before xs ≡ xs
  sort_by-sorted [] s = refl
  sort_by-sorted (x ∷ []) s = refl
  sort_by-sorted (x ∷ y ∷ r) s =
      ap (insert_by before x) (sort_by-sorted (y ∷ r) s.1) ∙ rw (s.0) refl

pub map-fixed {ℓ} : {A : Type ℓ} (f : A → A) (xs : List A) → All (λ x. f x ≡ x) xs → map f xs ≡ xs
map-fixed f [] a = refl
map-fixed f (x ∷ xs) a = ap (λ y. y ∷ map f xs) a.0 ∙ ap (λ ys. x ∷ ys) (map-fixed f xs a.1)

pub All-map {ℓ κ} :
    {A : Type ℓ} (P : A → Type κ) (f : A → A) (xs : List A) → ((x : A) → P (f x)) → All P (map f xs)
All-map P f [] h = tt
All-map P f (x ∷ xs) h = (h x, All-map P f xs h)
