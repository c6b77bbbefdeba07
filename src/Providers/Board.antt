-- ===== src/Providers/Board.antt =====
-- The board of the latencies, the summary and the tables of the upstreams
-- (`renderUpstreamLatencyBoard`, `renderInterfaceSummary`, `renderUpstreams`).
use cpa_keeper_dashboard.Prelude.{
  ℕ, ◌+◌, ◌-◌, ◌≡◌, refl, Bool, true, false, not, List, [], ◌∷◌, if◌then◌else◌, length, arith, map,
  ◌==◌, Bool-cases, inl, inr,
}
use cpa_keeper_dashboard.Prelude.Floats.{Floats, IsLinear, ◌≼◌}
use cpa_keeper_dashboard.Prelude.Sorting.{filter, sort_by, sum_by}
use cpa_keeper_dashboard.Charts.{clamp}
use cpa_keeper_dashboard.Tokens.{nothing, sum_from}
use cpa_keeper_dashboard.Providers.{Upstream}

pub data Tier : Type 0 where
  is_fast is_mid is_slow : Tier

-- `healthLabel` and `dotCls` of the table
pub data HealthLabel : Type 0 where
  online unsteady needs_attention : HealthLabel

pub record BoardRow (F : Type 0) : Type 0 where
  pub upstream : Upstream F
  pub tier : Tier
  pub width : F
  pub is_warn : Bool

pub record Summary (F : Type 0) : Type 0 where
  pub upstreams : ℕ
  pub requests : ℕ
  pub weighted_latency : F
  pub healthy : ℕ
  pub unhealthy : ℕ
  pub total_tokens : ℕ
  pub total_cost : F
  pub overall_success_rate : F

module _ {F : Type 0} ⦃f : Floats F⦄ where
  -- A comparator's difference is not positive.
  abbrev faster : Upstream F → Upstream F → Bool
  faster a b = f.le (f.sub a.avg_latency_ms b.avg_latency_ms) nothing

  unfoldable pub ranked_upstreams : List (Upstream F) → List (Upstream F)
  ranked_upstreams upstreams = sort_by faster (filter (λ u. f.lt nothing u.success_rate) upstreams)

  unfoldable pub max_latency : F → List (Upstream F) → F
  max_latency m [] = m
  max_latency m (u ∷ us) = max_latency (f.max m u.avg_latency_ms) us

  unfoldable pub latency_tier : F → Tier
  latency_tier latency =
      if f.le (f.literal 10000 1) latency
      then is_slow
      else if f.le (f.literal 2000 1) latency
      then is_mid
      else is_fast

  unfoldable pub board_row : F → Upstream F → BoardRow F
  unfolding latency_tier
  board_row max_latency u = record {
    upstream = u;
    tier = latency_tier u.avg_latency_ms;
    width =
        clamp (f.literal 8 1) (f.literal 100 1)
          (f.mul (f.div u.avg_latency_ms max_latency) (f.literal 100 1));
    is_warn = f.lt u.success_rate (f.literal 9 10);
  }

  -- No rows: the text that there are no latencies to show.
  unfoldable pub latency_board : List (Upstream F) → List (BoardRow F)
  unfolding ranked_upstreams max_latency board_row
  latency_board upstreams =
      let ranked = ranked_upstreams upstreams in
      map (board_row (max_latency (f.literal 1000 1) ranked)) ranked

  unfoldable pub health_label : F → HealthLabel
  health_label rate =
      if f.le (f.literal 98 100) rate
      then online
      else if f.le (f.literal 9 10) rate
      then unsteady
      else needs_attention

  abbrev pub is_healthy : Upstream F → Bool
  is_healthy u = f.le (f.literal 9 10) u.success_rate

  unfoldable pub interface_summary : List (Upstream F) → Summary F
  interface_summary upstreams =
      let requests = sum_by (λ u. u.requests) upstreams in
      let healthy = length (filter is_healthy upstreams) in
      record {
        upstreams = length upstreams;
        requests = requests;
        weighted_latency =
            if requests == 0
            then nothing
            else f.div
                (sum_from nothing (λ u. f.mul u.avg_latency_ms (f.literal u.requests 1)) upstreams)
                (f.literal requests 1);
        healthy = healthy;
        unhealthy = length upstreams - healthy;
        total_tokens = sum_by (λ u. u.total_tokens) upstreams;
        total_cost = sum_from nothing (λ u. u.cost_usd) upstreams;
        overall_success_rate =
            if requests == 0
            then f.literal 1 1
            else f.div (sum_from nothing (λ u. u.successes) upstreams) (f.literal requests 1);
      }

  abbrev pub needs_care : Upstream F → Bool
  needs_care u = elim (health_label u.success_rate) [ needs_attention ↦ true | _ ↦ false ]

length-filter-not :
    {A : Type 0} (p q : A → Bool) (xs : List A)
    → ((x : A) → q x ≡ not (p x))
    → length (filter p xs) + length (filter q xs) ≡ length xs
length-filter-not p q [] h = refl
length-filter-not p q (x ∷ xs) h = ground (arith, h x, length-filter-not p q xs h)

module _ {F : Type 0} ⦃f : Floats F⦄ ⦃l : IsLinear F⦄ where
  needs_care_lem :
      (u : Upstream F) → f.literal 9 10 ≼ f.literal 98 100 → needs_care u ≡ not (is_healthy u)
  unfolding health_label
  needs_care_lem u h = elim (Bool-cases (f.le (f.literal 98 100) u.success_rate)) [
    | inl fine ↦ ground (arith, l.le_trans _ _ u.success_rate h fine)
    | inr low ↦ ground arith
  ]

  -- Where 90 % is at most 98 %, the summary counts as unhealthy exactly the upstreams that the table says
  -- need attention, and as healthy all the others.
  pub interface_summary-health :
      (upstreams : List (Upstream F))
      → f.literal 9 10 ≼ f.literal 98 100
      → ((interface_summary upstreams).unhealthy ≡ length (filter needs_care upstreams))
        × ((interface_summary upstreams).healthy + length (filter needs_care upstreams)
            ≡ length upstreams)
  unfolding interface_summary
  interface_summary-health upstreams h =
      let split = length-filter-not is_healthy needs_care upstreams (λ u. needs_care_lem u h) in
      (omega (arith, split), split)
