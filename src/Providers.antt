-- ===== src/Providers.antt =====
-- The page of the interfaces (go/dashboard/app.js): what `renderProviderTokenChart`,
-- `renderUpstreamLatencyBoard`, `renderInterfaceSummary`, `renderAPIKeys` and `renderUpstreams` draw,
-- with the numbers before they are rounded, and in the child Chips the legend of
-- `bindProviderTokenInteractivity`. The markup is left out.
pub mod Bars
pub mod Chips
pub mod Board
mod Tests
use cpa_keeper_dashboard.Prelude.{
  ℕ, suc, ◌+◌, ◌-◌, Bool, true, false, ◌||◌, ◌&&◌, not, List, [], ◌∷◌, if◌then◌else◌, leb, ltb,
  ◌==◌, length, map, max,
}
use cpa_keeper_dashboard.Prelude.Floats.{Floats}
use cpa_keeper_dashboard.Prelude.Sorting.{filter, sort_by, sum_by}
use cpa_keeper_dashboard.Prelude.Text.{Text}
use cpa_keeper_dashboard.Charts.{clamp}
use cpa_keeper_dashboard.Tokens.{
  TokenCounts, TokenKind, input, output, cache_read, cache_write, reasoning, regular_input,
  regular_output, nothing, sum_from,
}

-- An upstream of the response; what it leaves out is 0.
pub record Upstream (F : Type 0) : Type 0 where
  pub name : Text
  pub requests : ℕ
  pub total_tokens : ℕ
  pub tokens : TokenCounts
  pub successes : F
  pub success_rate : F
  pub avg_latency_ms : F
  pub cost_usd : F

pub record TokenDims : Type 0 where
  pub input : Bool
  pub output : Bool
  pub cache_read : Bool
  pub cache_write : Bool
  pub reasoning : Bool

abbrev pub is_active : TokenDims → TokenKind → Bool
is_active a input = a.input
is_active a output = a.output
is_active a cache_read = a.cache_read
is_active a cache_write = a.cache_write
is_active a reasoning = a.reasoning

abbrev any_active : TokenDims → Bool
any_active a = a.input || a.output || a.cache_read || a.cache_write || a.reasoning

abbrev pub all_segments : TokenCounts → List (TokenKind × ℕ)
all_segments t =
    (input, regular_input t)
    ∷ (output, regular_output t)
    ∷ (cache_read, t.cache_read)
    ∷ (cache_write, t.cache_write)
    ∷ (reasoning, t.reasoning)
    ∷ []

-- `segs`
unfoldable pub active_segments : TokenDims → TokenCounts → List (TokenKind × ℕ)
unfolding regular_input regular_output
active_segments active t = filter (λ s. is_active active s.0 && ltb 0 s.1) (all_segments t)

-- `activeTotal`
unfoldable pub active_total : TokenDims → TokenCounts → ℕ
unfolding active_segments
active_total active t = sum_by (λ s. s.1) (active_segments active t)

pub record Bar (F : Type 0) : Type 0 where
  pub upstream : Upstream F
  pub segments : List (TokenKind × ℕ)
  pub active_total : ℕ

abbrev pub more_tokens : {F : Type 0} → Bar F → Bar F → Bool
more_tokens a b = leb b.active_total a.active_total

abbrev pub bar_of : {F : Type 0} → TokenDims → Upstream F → Bar F
bar_of active u = record {
  upstream = u;
  segments = active_segments active u.tokens;
  active_total = active_total active u.tokens;
}

-- `items`
unfoldable pub bars : {F : Type 0} → TokenDims → List (Upstream F) → List (Bar F)
unfolding active_segments active_total
bars active upstreams =
    sort_by more_tokens (filter (λ bar. ltb 0 bar.active_total) (map (bar_of active) upstreams))

-- `maxTokens`
unfoldable pub max_tokens : {F : Type 0} → List (Bar F) → ℕ
max_tokens [] = 1
max_tokens (b ∷ bs) = max b.active_total (max_tokens bs)

-- A text where there is nothing to show, or the bars.
pub data ChartView (F : Type 0) : Type 0 where
  no_upstreams none_active no_tokens : ChartView F
  rows : List (Bar F) → ChartView F

abbrev rows_or_none : {F : Type 0} → List (Bar F) → ChartView F
rows_or_none [] = no_tokens
rows_or_none (b ∷ bs) = rows (b ∷ bs)

unfoldable pub render_provider_token_chart :
    {F : Type 0} → TokenDims → List (Upstream F) → ChartView F
unfolding bars
render_provider_token_chart active [] = no_upstreams
render_provider_token_chart active (u ∷ us) =
    if any_active active then rows_or_none (bars active (u ∷ us)) else none_active

module _ {F : Type 0} ⦃f : Floats F⦄ where
  -- `relativeWidth`, in percent
  unfoldable pub relative_width : (active_total max_tokens : ℕ) → F
  relative_width active_total max_tokens =
      clamp (f.literal 12 1) (f.literal 100 1)
        (f.mul (f.div (f.literal active_total 1) (f.literal max_tokens 1)) (f.literal 100 1))

  -- `pctNum` of a segment
  unfoldable pub segment_percentage : (active_total tokens : ℕ) → F
  segment_percentage active_total tokens =
      if ltb 0 active_total
      then f.mul (f.div (f.literal tokens 1) (f.literal active_total 1)) (f.literal 100 1)
      else nothing

  -- `Math.min(100, requests / total * 100)`
  unfoldable pub request_percentage : (requests total : ℕ) → F
  request_percentage requests total =
      f.min (f.literal 100 1)
        (f.mul (f.div (f.literal requests 1) (f.literal total 1)) (f.literal 100 1))

  -- `|| 1`
  unfoldable pub request_total : List (Upstream F) → ℕ
  request_total upstreams =
      let sum = sum_by (λ u. u.requests) upstreams in if sum == 0 then 1 else sum
