-- ===== src/Rows/Counts.antt =====
-- The totals that a row shows of an event's tokens (`renderTokenCell`).
use cpa_keeper_dashboard.Prelude.{◌+◌, ◌≤◌, ◌≡◌, arith}
use cpa_keeper_dashboard.Rows.{EventTokens, shown_tokens, token_cell_total}

-- The three counts of input and cache tokens that a row shows make up the input, where the cache is
-- part of it. Where an event has no total of its own, the total of its cell is that of the input, the output
-- and the reasoning, but without the tokens read from the cache.
pub token_cell_total-missing :
    (e : EventTokens)
    → (shown_tokens e).cache_read + (shown_tokens e).cache_creation ≤ e.input_tokens
    → e.total_tokens ≡ 0
    → ((shown_tokens e).uncached_input
          + (shown_tokens e).cache_read
          + (shown_tokens e).cache_creation
        ≡ e.input_tokens)
      × (token_cell_total (shown_tokens e) + (shown_tokens e).cache_read
          ≡ e.input_tokens + e.output_tokens + e.reasoning_tokens)
unfolding shown_tokens token_cell_total
token_cell_total-missing e h z = ground arith
