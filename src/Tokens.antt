-- ===== src/Tokens.antt =====
-- The composition of the tokens (go/dashboard/app.js, `renderTokenComposition` and the cells of the
-- tables): the numbers that it draws, before they are rounded, and in the child Pinned the tooltip
-- of `bindTokenInteractivity`. Token counts are natural numbers, costs are doubles; a count or a cost
-- that a response leaves out is 0. The markup is left out.
pub mod Parts
pub mod Pinned
pub mod Pins
mod Tests
use cpa_keeper_dashboard.Prelude.{
  ℕ, ◌+◌, ◌-◌, Bool, true, false, ◌||◌, List, [], ◌∷◌, ◌++◌, if◌then◌else◌, ltb, ◌==◌, Option, none,
  some, not,
}
use cpa_keeper_dashboard.Prelude.Floats.{Floats}

pub record TokenCounts : Type 0 where
  pub input : ℕ
  pub output : ℕ
  pub cache_read : ℕ
  pub cache_write : ℕ
  pub reasoning : ℕ
  pub total : ℕ

pub data TokenKind : Type 0 where
  input cache_read cache_write output reasoning : TokenKind

-- `a || b` on counts
abbrev pub count_or : ℕ → ℕ → ℕ
count_or a b = if a == 0 then b else a

-- `Math.max(0, a - b)` on counts is the subtraction that stops at 0.
unfoldable pub regular_input : TokenCounts → ℕ
regular_input t = t.input - t.cache_read - t.cache_write

unfoldable pub regular_output : TokenCounts → ℕ
regular_output t = t.output - t.reasoning

unfoldable pub all_parts : TokenCounts → ℕ
unfolding regular_input regular_output
all_parts t = regular_input t + regular_output t + t.cache_read + t.cache_write + t.reasoning

unfoldable pub total_tokens : TokenCounts → ℕ
unfolding all_parts
total_tokens t = count_or t.total (all_parts t)

unfoldable pub sum_tokens : TokenCounts → ℕ
unfolding all_parts total_tokens
sum_tokens t = count_or (all_parts t) (count_or (total_tokens t) 1)

-- `parts`, their kinds and counts
unfoldable pub token_parts : TokenCounts → List (TokenKind × ℕ)
unfolding regular_input regular_output
token_parts t =
    (input, regular_input t)
    ∷ (cache_read, t.cache_read)
    ∷ (cache_write, t.cache_write)
    ∷ (output, regular_output t)
    ∷ (if ltb 0 t.reasoning then (reasoning, t.reasoning) ∷ [] else [])

pub record Costs (F : Type 0) : Type 0 where
  pub input : F
  pub output : F
  pub cache_read : F
  pub cache_write : F
  pub reasoning : F

pub record Model (F : Type 0) : Type 0 where
  pub cost : F
  pub saved_cost : F
  pub costs : Option (Costs F)

-- A point of the trend: its costs at the standard and the actual prices.
pub record CostPoint (F : Type 0) : Type 0 where
  pub standard_cost : F
  pub actual_cost : F

abbrev is_given : {F : Type 0} → Option (Costs F) → Bool
is_given none = false
is_given (some c) = true

unfoldable pub has_category_costs : {F : Type 0} → List (Model F) → Bool
has_category_costs [] = false
has_category_costs (m ∷ ms) = is_given m.costs || has_category_costs ms

-- A part that gets a segment; `show_text` where the segment has room for it.
pub record StackSegment (F : Type 0) : Type 0 where
  pub kind : TokenKind
  pub tokens : ℕ
  pub percentage : F
  pub show_text : Bool

module _ {F : Type 0} ⦃f : Floats F⦄ where
  abbrev pub nothing : F
  nothing = f.literal 0 1

  -- `a || b` on doubles
  abbrev pub or_falsy : F → F → F
  or_falsy a b = if f.is_falsy a then b else a

  -- `reduce` with a sum that starts at 0
  abbrev pub sum_from {ℓ} : {A : Type ℓ} → F → (A → F) → List A → F
  sum_from sum g [] = sum
  sum_from sum g (x ∷ xs) = sum_from (f.add sum (g x)) g xs

  -- The cost of a kind, or 0
  abbrev pub cost_of : TokenKind → Option (Costs F) → F
  cost_of kind none = nothing
  cost_of input (some c) = c.input
  cost_of cache_read (some c) = c.cache_read
  cost_of cache_write (some c) = c.cache_write
  cost_of output (some c) = c.output
  cost_of reasoning (some c) = c.reasoning

  unfoldable pub total_cost : (summary_cost : F) → List (Model F) → F
  total_cost summary_cost models =
      or_falsy (or_falsy (sum_from nothing (λ m. m.cost) models) summary_cost) nothing

  -- The sum of what there is, where nothing is known to be saved.
  abbrev pub or_sum {ℓ} : {A : Type ℓ} → (A → F) → F → List A → F
  or_sum g saved [] = saved
  or_sum g saved (x ∷ xs) = if f.is_falsy saved then sum_from nothing g (x ∷ xs) else saved

  -- The saving of the summary, else that of the models, else that of the trend.
  unfoldable pub saved_cost : (summary_saved : F) → List (Model F) → List (CostPoint F) → F
  saved_cost summary_saved models trend =
      let by_models = or_sum (λ (m : Model F). m.saved_cost) summary_saved models in
      or_sum (λ (p : CostPoint F). f.max nothing (f.sub p.standard_cost p.actual_cost)) by_models
        trend

  -- What the banner shows, in percent.
  unfoldable pub saving_percentage : (total_cost saved_cost : F) → F
  saving_percentage total_cost saved_cost =
      let standard_cost = f.add total_cost saved_cost in
      if f.lt nothing standard_cost
      then f.mul (f.div saved_cost standard_cost) (f.literal 100 1)
      else nothing

  unfoldable pub cost_per_million : (total_cost : F) → TokenCounts → F
  unfolding total_tokens
  cost_per_million total_cost t =
      if ltb 0 (total_tokens t)
      then f.mul (f.div total_cost (f.literal (total_tokens t) 1)) (f.literal 1000000 1)
      else nothing

  -- `p.pctNum`
  unfoldable pub part_percentage : TokenCounts → TokenKind × ℕ → F
  unfolding sum_tokens
  part_percentage t p =
      f.mul (f.div (f.literal p.1 1) (f.literal (sum_tokens t) 1)) (f.literal 100 1)

  -- `p.cost`
  unfoldable pub part_cost : F → List (Model F) → TokenCounts → TokenKind × ℕ → F
  unfolding sum_tokens has_category_costs
  part_cost total_cost models t p =
      if has_category_costs models
      then or_falsy (sum_from nothing (λ m. cost_of p.0 m.costs) models) nothing
      else f.mul total_cost (f.div (f.literal p.1 1) (f.literal (sum_tokens t) 1))

  unfoldable pub stack_segments : TokenCounts → List (TokenKind × ℕ) → List (StackSegment F)
  unfolding part_percentage
  stack_segments t [] = []
  stack_segments t (p ∷ ps) =
      let rest = stack_segments t ps in
      let percentage = part_percentage t p in
      if f.le percentage nothing
      then rest
      else record {
        kind = p.0;
        tokens = p.1;
        percentage = percentage;
        show_text = f.le (f.literal 5 1) percentage;
      }
        ∷ rest
