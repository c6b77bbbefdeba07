-- ===== src/Providers/Bars.antt =====
-- The bars of the providers show the active tokens, all of them, the most first
-- (`renderProviderTokenChart`).
use cpa_keeper_dashboard.Prelude.{
  ℕ, ◌+◌, ◌≤◌, ◌<◌, ◌≡◌, refl, ◌∙◌, Bool, ◌&&◌, List, [], ◌∷◌, map, if◌then◌else◌, ltb, arith,
}
use cpa_keeper_dashboard.Prelude.Sorting.{
  All, sum_by, filter, sort_by, sum_by-filter_positive, sum_by-sort_by, IsSorted, sort_by-IsSorted,
  All-sort_by, All-filter,
}
use cpa_keeper_dashboard.Tokens.{TokenCounts, regular_input, regular_output}
use cpa_keeper_dashboard.Providers.{
  Upstream, TokenDims, is_active, all_segments, active_segments, active_total, Bar, bar_of, bars,
  more_tokens, max_tokens,
}

-- The tokens of the active dimensions, those that are 0 too.
abbrev pub counted : TokenDims → TokenCounts → ℕ
counted a t =
    (if a.input then regular_input t else 0)
    + (if a.output then regular_output t else 0)
    + (if a.cache_read then t.cache_read else 0)
    + (if a.cache_write then t.cache_write else 0)
    + (if a.reasoning then t.reasoning else 0)

sum_by-filter :
    {A : Type 0} (f : A → ℕ) (p : A → Bool) (xs : List A)
    → sum_by f (filter p xs) ≡ sum_by (λ x. if p x then f x else 0) xs
sum_by-filter f p [] = refl
sum_by-filter f p (x ∷ xs) = ground (arith, sum_by-filter f p xs)

counted_part :
    (active : Bool) (n : ℕ) → (if active && ltb 0 n then n else 0) ≡ (if active then n else 0)
counted_part active n = ground arith

active_total_lem : (a : TokenDims) (t : TokenCounts) → active_total a t ≡ counted a t
unfolding active_total active_segments
active_total_lem a t = omega (
  arith,
  sum_by-filter (λ s. s.1) (λ s. is_active a s.0 && ltb 0 s.1) (all_segments t),
  counted_part a.input (regular_input t),
  counted_part a.output (regular_output t),
  counted_part a.cache_read t.cache_read,
  counted_part a.cache_write t.cache_write,
  counted_part a.reasoning t.reasoning,
)

total_of : {F : Type 0} → Bar F → ℕ
total_of b = b.active_total

sum_by-bar_of :
    {F : Type 0} (a : TokenDims) (us : List (Upstream F))
    → sum_by (λ b. b.active_total) (map (bar_of a) us) ≡ sum_by (λ u. counted a u.tokens) us
sum_by-bar_of a [] = refl
sum_by-bar_of a (u ∷ us) = omega (arith, active_total_lem a u.tokens, sum_by-bar_of a us)

le_max_tokens : {F : Type 0} (bs : List (Bar F)) → All (λ b. b.active_total ≤ max_tokens bs) bs
unfolding max_tokens
le_max_tokens bs = within bs (max_tokens bs) (omega arith)
  where
    within :
        {F : Type 0} (bs : List (Bar F)) (n : ℕ)
        → max_tokens bs ≤ n
        → All (λ b. b.active_total ≤ n) bs
    within [] n h = tt
    within (b ∷ bs) n h = (omega arith, within bs n (omega arith))

-- The first bar sets the scale of them all; without bars the scale is 1.
abbrev pub IsScale : {F : Type 0} → ℕ → List (Bar F) → Type 0
IsScale n [] = n ≡ 1
IsScale n (b ∷ bs) = n ≡ b.active_total

bounded-max_tokens :
    {F : Type 0} (n : ℕ) (bs : List (Bar F))
    → 0 < n
    → All (λ b. b.active_total ≤ n) bs
    → max_tokens bs ≤ n
unfolding max_tokens
bounded-max_tokens n [] p h = p
bounded-max_tokens n (b ∷ bs) p (h, hs) = omega (arith, bounded-max_tokens n bs p hs)

-- In a sorted list no bar shows more than the first.
sorted-below :
    {F : Type 0} (n : ℕ) (b : Bar F) (bs : List (Bar F))
    → b.active_total ≤ n
    → IsSorted more_tokens (b ∷ bs)
    → All (λ c. c.active_total ≤ n) bs
sorted-below n b [] h s = tt
sorted-below n b (c ∷ bs) h (e, s) =
    let le : c.active_total ≤ n = ground (arith, e) in (le, sorted-below n c bs le s)

IsScale-max_tokens :
    {F : Type 0} (bs : List (Bar F))
    → IsSorted more_tokens bs
    → All (λ b. 0 < b.active_total) bs
    → IsScale (max_tokens bs) bs
unfolding max_tokens
IsScale-max_tokens [] s p = refl
IsScale-max_tokens (b ∷ bs) s p =
    let rest =
      bounded-max_tokens b.active_total bs p.0 (sorted-below b.active_total b bs (omega arith) s) in
    omega arith

-- The bars stand in descending order, together show all the tokens of the active dimensions of all
-- the upstreams, and none is empty; the scale that their widths are taken of is the total of the first
-- bar, which none exceeds, and 1 where there is no bar.
pub bars-tokens :
    {F : Type 0} (a : TokenDims) (us : List (Upstream F))
    → IsSorted more_tokens (bars a us)
      × (sum_by (λ b. b.active_total) (bars a us) ≡ sum_by (λ u. counted a u.tokens) us)
      × All (λ b. 0 < b.active_total) (bars a us)
      × All (λ b. b.active_total ≤ max_tokens (bars a us)) (bars a us)
      × IsScale (max_tokens (bars a us)) (bars a us)
unfolding bars
bars-tokens a us =
    let shown = filter (λ b. ltb 0 b.active_total) (map (bar_of a) us) in
    let sorted = sort_by-IsSorted more_tokens (λ b c e. ground arith) shown in
    let filled =
      All-sort_by more_tokens _ shown (All-filter _ _ (map (bar_of a) us) (λ b h. ground arith)) in
    (
      sorted,
      sum_by-sort_by more_tokens (λ b. b.active_total) shown
          ∙ sum_by-filter_positive (λ b. b.active_total) (map (bar_of a) us)
          ∙ sum_by-bar_of a us,
      filled,
      le_max_tokens (sort_by more_tokens shown),
      IsScale-max_tokens (sort_by more_tokens shown) sorted filled,
    )
