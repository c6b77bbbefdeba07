-- ===== src/Dates/Locate.antt =====
-- Counting days through years and months of varying length, forth and back.
use cpa_keeper_dashboard.Prelude.{
  ℕ, zero, suc, ◌+◌, ◌-◌, ◌≤◌, ◌<◌, ◌≡◌, ltb, arith, Bool-cases, inl, inr,
}
use cpa_keeper_dashboard.Dates.{span, locate}

-- A day r days into the k-th next unit is found there.
pub locate-span :
    (f : ℕ → ℕ) (k fuel i r : ℕ)
    → k < fuel
    → r < f (i + k)
    → locate f fuel i (span f i k + r) ≡ (i + k, r)
unfolding span locate
locate-span f k zero i r h q = absurd (omega arith)
locate-span f zero (suc fuel) i r h q =
    let e : i + 0 ≡ i = omega arith in
    let lt : r < f i = rw e at q in let s : 0 + r ≡ r = omega arith in ground arith
locate-span f (suc k) (suc fuel) i r h q =
    let e : i + suc k ≡ suc i + k = omega arith in
    let s : f i + span f (suc i) k + r - f i ≡ span f (suc i) k + r = omega arith in
    let rec : locate f fuel (suc i) (span f (suc i) k + r) ≡ (suc i + k, r) =
      locate-span f k fuel (suc i) r (omega arith) (rw e at q) in
    rw (s, rec) (ground arith)

-- Where a unit is found, what is left lies in it.
pub locate-lt :
    (f : ℕ → ℕ) (fuel i d : ℕ)
    → ((j : ℕ) → 1 ≤ f j)
    → d < fuel
    → (locate f fuel i d).1 < f (locate f fuel i d).0
unfolding locate
locate-lt f zero i d pos h = absurd (omega arith)
locate-lt f (suc fuel) i d pos h = elim (Bool-cases (ltb d (f i))) [
  | inl here ↦ rw here (ground arith)
  | inr later ↦ rw later (locate-lt f fuel (suc i) (d - f i) pos (ground (arith, pos i)))
]

-- A day in one of the first n units lies before their end, and is found in one of them.
pub span-lt : (f : ℕ → ℕ) (k n i r : ℕ) → k < n → r < f (i + k) → span f i k + r < span f i n
unfolding span
span-lt f k zero i r h q = absurd (omega arith)
span-lt f zero (suc n) i r h q =
    let e : i + 0 ≡ i = omega arith in let lt : r < f i = rw e at q in omega arith
span-lt f (suc k) (suc n) i r h q =
    let e : i + suc k ≡ suc i + k = omega arith in
    omega (arith, span-lt f k n (suc i) r (omega arith) (rw e at q))

pub locate-within :
    (f : ℕ → ℕ) (fuel i d : ℕ)
    → d < span f i fuel
    → ((locate f fuel i d).0 < i + fuel) × ((locate f fuel i d).1 < f (locate f fuel i d).0)
unfolding locate span
locate-within f zero i d h = absurd (omega arith)
locate-within f (suc fuel) i d h = elim (Bool-cases (ltb d (f i))) [
  | inl here ↦ rw here (omega arith, ground arith)
  | inr later ↦
      let (within, lt) = locate-within f fuel (suc i) (d - f i) (ground arith) in
      rw later (omega arith, lt)
]
