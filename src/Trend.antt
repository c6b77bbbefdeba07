-- ===== src/Trend.antt =====
-- The chart of the trend (go/dashboard/app.js): what `renderTrend` reads and draws, the legend of
-- `bindTrendInteractiveLegend`, and in the child Pointer what the pointer shows. The heights are in
-- Charts; the markup is left out.
pub mod Legend
pub mod Pointer
pub mod Frames
mod Tests
use cpa_keeper_dashboard.Prelude.{
  ℕ, suc, ◌+◌, ◌-◌, ◌*◌, ◌/◌, ◌%◌, Bool, true, false, ◌||◌, ◌&&◌, not, List, [], ◌∷◌, ◌++◌,
  if◌then◌else◌, leb, ltb, ◌==◌, max, length, Option, none, some, ◌≡◌, map,
}
use cpa_keeper_dashboard.Prelude.Floats.{Floats}
use cpa_keeper_dashboard.Prelude.Sorting.{filter, sort_by}
use cpa_keeper_dashboard.Tokens.{nothing, or_falsy}

-- A point, as the response gives it or with its numbers filled in; what a response leaves out is 0.
pub record TrendPoint (F : Type 0) : Type 0 where
  pub timestamp_ms : ℕ
  pub requests : F
  pub tokens : F
  pub total_tokens : F
  pub reasoning : F
  pub reasoning_tokens : F
  pub input : F
  pub output : F
  pub cache_write : F
  pub cache_read : F
  pub hit_rate : F
  pub actual_cost : F
  pub cost_usd : F
  pub standard_cost : F

pub data Dimension : Type 0 where
  input output cache_write cache_read hit_rate : Dimension

pub record ActiveDims : Type 0 where
  pub input : Bool
  pub output : Bool
  pub cache_write : Bool
  pub cache_read : Bool
  pub hit_rate : Bool

abbrev pub is_active : ActiveDims → Dimension → Bool
is_active a input = a.input
is_active a output = a.output
is_active a cache_write = a.cache_write
is_active a cache_read = a.cache_read
is_active a hit_rate = a.hit_rate

-- `state.trendActiveDims[dim] = !state.trendActiveDims[dim]`
unfoldable pub toggle_dim : Dimension → ActiveDims → ActiveDims
toggle_dim input a = record a { input = not a.input }
toggle_dim output a = record a { output = not a.output }
toggle_dim cache_write a = record a { cache_write = not a.cache_write }
toggle_dim cache_read a = record a { cache_read = not a.cache_read }
toggle_dim hit_rate a = record a { hit_rate = not a.hit_rate }

abbrev pub dimensions : List Dimension
dimensions = input ∷ output ∷ cache_write ∷ cache_read ∷ hit_rate ∷ []

abbrev pub active_dimensions : ActiveDims → List Dimension
active_dimensions a = filter (is_active a) dimensions

-- The axis `token`
abbrev pub is_token : Dimension → Bool
is_token hit_rate = false
is_token _ = true

abbrev pub earlier : {F : Type 0} → TrendPoint F → TrendPoint F → Bool
earlier p q = leb p.timestamp_ms q.timestamp_ms

-- `Math.max(1, Math.floor(points.length / 7))`
unfoldable pub label_step : ℕ → ℕ
label_step count = max 1 (count / 7)

unfoldable pub is_labelled : (count index : ℕ) → Bool
unfolding label_step
is_labelled count index = index % label_step count == 0 || index == count - 1

module _ {F : Type 0} ⦃f : Floats F⦄ where
  abbrev pub normalize : TrendPoint F → TrendPoint F
  normalize p = record p {
    tokens = or_falsy p.tokens p.total_tokens;
    reasoning = or_falsy p.reasoning p.reasoning_tokens;
    actual_cost = or_falsy p.actual_cost p.cost_usd;
  }

  unfoldable pub normalized_points : List (TrendPoint F) → List (TrendPoint F)
  normalized_points raw = sort_by earlier (map normalize raw)

  abbrev is_used : TrendPoint F → Bool
  is_used p =
      f.lt nothing p.requests
      || f.lt nothing p.tokens
      || f.lt nothing p.input
      || f.lt nothing p.output
      || f.lt nothing p.cache_write
      || f.lt nothing p.cache_read
      || f.lt nothing p.reasoning
      || f.lt nothing p.actual_cost
      || f.lt nothing p.standard_cost

  unfoldable pub has_any_usage : List (TrendPoint F) → Bool
  has_any_usage [] = false
  has_any_usage (p ∷ ps) = is_used p || has_any_usage ps

  abbrev pub value_of : Dimension → TrendPoint F → F
  value_of input p = p.input
  value_of output p = p.output
  value_of cache_write p = p.cache_write
  value_of cache_read p = p.cache_read
  value_of hit_rate p = p.hit_rate

  abbrev max_of : F → List F → F
  max_of m [] = m
  max_of m (x ∷ xs) = max_of (f.max m x) xs

  abbrev values_of : List Dimension → List (TrendPoint F) → List F
  values_of [] ps = []
  values_of (d ∷ ds) ps = map (value_of d) ps ++ values_of ds ps

  -- `maxToken`
  unfoldable pub max_token : ActiveDims → List (TrendPoint F) → F
  max_token active points = elim (filter is_token (active_dimensions active)) [
    | [] ↦ f.literal 1 1
    | d ∷ ds ↦ f.mul (max_of (f.literal 1 1) (values_of (d ∷ ds) points)) (f.literal 115 100)
  ]

  -- `x`, of a point between the first and the last timestamps
  unfoldable pub point_x : (left plot_width : F) (count first last timestamp : ℕ) → F
  point_x left plot_width count first last timestamp =
      let span = last - first in
      if count == 1 || span == 0
      then f.add left (f.div plot_width (f.literal 2 1))
      else f.add left (
          f.mul
            (f.max nothing
              (f.min (f.literal 1 1) (f.div (f.literal (timestamp - first) 1) (f.literal span 1))))
            plot_width)

-- What is drawn: a text where there is nothing to show, or the lines of some dimensions.
pub data TrendView (F : Type 0) : Type 0 where
  no_usage all_hidden : TrendView F
  chart : List Dimension → List (TrendPoint F) → TrendView F

unfoldable pub trend_view :
    {F : Type 0} ⦃f : Floats F⦄ → ActiveDims → List (TrendPoint F) → TrendView F
unfolding has_any_usage
trend_view active points =
    if has_any_usage points
    then elim (active_dimensions active) [ [] ↦ all_hidden | d ∷ ds ↦ chart (d ∷ ds) points ]
    else no_usage
