-- ===== src/Tokens/Parts.antt =====
-- No token is counted twice or left out (`renderTokenComposition`).
use cpa_keeper_dashboard.Prelude.{ℕ, ◌+◌, ◌≤◌, ◌<◌, ◌≡◌, max, arith}
use cpa_keeper_dashboard.Prelude.Sorting.{sum_by}
use cpa_keeper_dashboard.Tokens.{
  TokenCounts, TokenKind, regular_input, regular_output, all_parts, total_tokens, sum_tokens,
  token_parts,
}

abbrev pub tokens_of : TokenKind × ℕ → ℕ
tokens_of p = p.1

-- The parts together are the greater of the input and what of it the cache accounts for, and the
-- greater of the output and the reasoning in it. The whole that their shares are taken of is at least
-- that, and is never 0.
pub token_parts-total :
    (t : TokenCounts)
    → (sum_by tokens_of (token_parts t)
        ≡ max t.input (t.cache_read + t.cache_write) + max t.output t.reasoning)
      × (sum_by tokens_of (token_parts t) ≤ sum_tokens t)
      × (0 < sum_tokens t)
unfolding token_parts sum_tokens all_parts total_tokens regular_input regular_output
token_parts-total t = ground arith
