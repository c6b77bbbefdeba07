-- ===== src/Providers/Tests.antt =====
-- Two upstreams, one of which fails.
use cpa_keeper_dashboard.Prelude.{◌≤◌, ◌<◌, ◌≡◌, refl, true, false, some, [], ◌∷◌}
use cpa_keeper_dashboard.Prelude.Floats.{Tenths, tenths, Tenths-IsLinear}
use cpa_keeper_dashboard.Prelude.Sorting.{All, sum_by, IsSorted}
use cpa_keeper_dashboard.Prelude.Text.{codes}
use cpa_keeper_dashboard.Providers.{Upstream, TokenDims, bars, more_tokens, max_tokens}
use cpa_keeper_dashboard.Providers.Bars.{counted, IsScale, bars-tokens}
use cpa_keeper_dashboard.Providers.Board.{
  latency_board, ranked_upstreams, max_latency, board_row, latency_tier, is_mid,
}

abbrev good : Upstream Tenths
good = record {
  name = codes "a";
  requests = 9;
  total_tokens = 15;
  tokens = record {
    input = 10;
    output = 5;
    cache_read = 4;
    cache_write = 0;
    reasoning = 0;
    total = 15;
  };
  successes = some 90;
  success_rate = some 10;
  avg_latency_ms = some 30000;
  cost_usd = some 0;
}

abbrev bad : Upstream Tenths
bad = record good { name = codes "b"; success_rate = some 0 }

abbrev all_dims : TokenDims
all_dims = record {
  input = true;
  output = true;
  cache_read = true;
  cache_write = true;
  reasoning = true;
}

slow :
    latency_board {F = Tenths} (bad ∷ good ∷ [])
    ≡ record { upstream = good; tier = is_mid; width = some 1000; is_warn = false } ∷ []
unfolding latency_board ranked_upstreams max_latency board_row latency_tier
slow = refl

bars-tokens_example :
    IsSorted more_tokens (bars all_dims (good ∷ bad ∷ []))
    × (sum_by (λ b. b.active_total) (bars all_dims (good ∷ bad ∷ []))
        ≡ sum_by (λ u. counted all_dims u.tokens) (good ∷ bad ∷ []))
    × All (λ b. 0 < b.active_total) (bars all_dims (good ∷ bad ∷ []))
    × All
        (λ b. b.active_total ≤ max_tokens (bars all_dims (good ∷ bad ∷ [])))
        (bars all_dims (good ∷ bad ∷ []))
    × IsScale (max_tokens (bars all_dims (good ∷ bad ∷ []))) (bars all_dims (good ∷ bad ∷ []))
bars-tokens_example = bars-tokens all_dims (good ∷ bad ∷ [])
