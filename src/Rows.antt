-- ===== src/Rows.antt =====
-- The rows of events and their details (go/dashboard/app.js): what `renderEvents`, `renderTokenCell`,
-- `openEventDetail` and `openUpstream` compute of a response, before it is written as text, and
-- `formatTPS`. Counts and statuses are natural numbers; what a response leaves out is 0.
pub mod Counts
pub mod Errors
pub mod Paging
mod Tests
use cpa_keeper_dashboard.Prelude.{
  ℕ, ◌+◌, ◌-◌, Bool, true, false, ◌||◌, ◌&&◌, not, Option, none, some, List, [], ◌∷◌, if◌then◌else◌,
  ltb, leb, ◌==◌,
}
use cpa_keeper_dashboard.Prelude.Floats.{Floats}
use cpa_keeper_dashboard.Prelude.Interface.{nat_eq}
use cpa_keeper_dashboard.Prelude.OrdMap.{OrdMap, get, put}
use cpa_keeper_dashboard.Tokens.{nothing, count_or}

pub record EventTokens : Type 0 where
  pub input_tokens : ℕ
  pub cache_read_tokens : ℕ
  pub cached_tokens : ℕ
  pub cache_creation_tokens : ℕ
  pub output_tokens : ℕ
  pub reasoning_tokens : ℕ
  pub total_tokens : ℕ

-- What a row and the details show of an event's tokens.
pub record ShownTokens : Type 0 where
  pub uncached_input : ℕ
  pub cache_read : ℕ
  pub cache_creation : ℕ
  pub output : ℕ
  pub reasoning : ℕ
  pub total : ℕ

unfoldable pub shown_tokens : EventTokens → ShownTokens
shown_tokens e =
    let cache_read = count_or e.cache_read_tokens e.cached_tokens in
    record {
      uncached_input = e.input_tokens - cache_read - e.cache_creation_tokens;
      cache_read = cache_read;
      cache_creation = e.cache_creation_tokens;
      output = e.output_tokens;
      reasoning = e.reasoning_tokens;
      total = e.total_tokens;
    }

-- The cell of a row: its `total`, and whether it has a line for the cache.
unfoldable pub token_cell_total : ShownTokens → ℕ
token_cell_total t = count_or t.total (t.uncached_input + t.output + t.cache_creation + t.reasoning)

unfoldable pub has_cache_line : ShownTokens → Bool
has_cache_line t = ltb 0 t.cache_read

-- The page and its buttons; `accessible` is `data.accessible_pages ?? data.pages ?? 0`.
pub data PageLabel : Type 0 where
  no_pages : PageLabel
  page_of : (page pages : ℕ) → PageLabel
  first_pages_of : (page pages accessible : ℕ) → PageLabel

unfoldable pub page_label : (page pages accessible : ℕ) → PageLabel
page_label page pages accessible =
    if pages == 0
    then no_pages
    else if ltb accessible pages
    then first_pages_of page pages accessible
    else page_of page pages

unfoldable pub prev_disabled : (page : ℕ) → Bool
prev_disabled page = leb page 1

unfoldable pub next_disabled : (page accessible : ℕ) → Bool
next_disabled page accessible = accessible == 0 || leb accessible page

-- An event of an upstream: whether it failed, and its status.
pub record RecentEvent : Type 0 where
  pub failed : Bool
  pub status_code : ℕ

-- `errorMap.get(code) || 0`
abbrev pub count_so_far : Option ℕ → ℕ
count_so_far none = 0
count_so_far (some n) = n

-- `errorMap`; the key 0 stands for '异常', which an event without a status counts under.
unfoldable pub error_map : List RecentEvent → OrdMap ℕ ℕ → OrdMap ℕ ℕ
error_map [] m = m
error_map (e ∷ es) m =
    error_map es
      (if e.failed then put e.status_code (count_so_far (get e.status_code m) + 1) m else m)

-- The classes of the pills of an upstream.
pub data Pill : Type 0 where
  is_good is_bad is_plain : Pill

module _ {F : Type 0} ⦃f : Floats F⦄ where
  unfoldable pub availability_pill : (success_rate : F) (total_requests : ℕ) → Pill
  availability_pill success_rate total_requests =
      if f.le (f.literal 99 100) success_rate
      then is_good
      else if f.lt success_rate (f.literal 95 100) && ltb 0 total_requests
      then is_bad
      else is_plain

  unfoldable pub latency_pill : F → Pill
  latency_pill avg_latency =
      if f.lt nothing avg_latency && f.lt avg_latency (f.literal 1000 1)
      then is_good
      else if f.lt (f.literal 3000 1) avg_latency
      then is_bad
      else is_plain

  -- The share of a model among an upstream's requests, in percent
  unfoldable pub model_percentage : (requests total_requests : ℕ) → F
  model_percentage requests total_requests =
      if ltb 0 total_requests
      then f.mul (f.div (f.literal requests 1) (f.literal total_requests 1)) (f.literal 100 1)
      else nothing

  -- `if (durationSec < least) durationSec = least`
  abbrev at_least : F → F → F
  at_least least duration = if f.lt duration least then least else duration

  -- `formatTPS` before its digits; `none` is '--'. The arguments are `Number(value || 0)`.
  unfoldable pub tokens_per_second : (is_finite : F → Bool) → (tokens latency ttft : F) → Option F
  tokens_per_second is_finite tokens latency ttft =
      let t = f.max nothing tokens in
      let l = f.max nothing latency in
      let first = f.max nothing ttft in
      let waited = if f.lt nothing first && f.lt first l then f.sub l first else l in
      let duration = at_least (f.literal 2 100) (f.div waited (f.literal 1000 1)) in
      let tps = f.div t duration in
      if f.le t nothing || f.le l nothing
      then none
      else if not (is_finite tps) || f.le tps nothing
      then none
      else some tps
