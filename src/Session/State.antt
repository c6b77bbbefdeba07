-- ===== src/Session/State.antt =====
-- What the parts of a session share: `state` and the parts of the page that its functions write.
-- An AbortController is known by the request that made it, and its signal by the lists of aborted
-- requests; a response is a value of the type D, and rendering writes it to the page.
use cpa_keeper_dashboard.Prelude.{
  ℕ, Bool, true, false, ◌||◌, Option, none, some, List, [], ◌∷◌, ◌==◌, if◌then◌else◌,
}
use cpa_keeper_dashboard.Prelude.Text.{Text}
pub use cpa_keeper_dashboard.Prelude.Text.{is_empty}

pub data Page : Type 0 where
  overview interfaces settings : Page

abbrev pub is_settings : Page → Bool
is_settings settings = true
is_settings _ = false

abbrev pub same_page : Page → Page → Bool
same_page overview overview = true
same_page interfaces interfaces = true
same_page settings settings = true
same_page _ _ = false

pub data Freshness : Type 0 where
  connecting stale fresh error : Freshness

-- Where a load waits: for a response, or (`yieldToBrowser`) for the browser to paint.
pub data Stage : Type 0 where
  at_summary at_paint at_analysis at_second_paint at_events at_interfaces at_settings : Stage

-- A call of `loadActivePage` that is waiting. `event_id` is the `eventRequestID` of `loadOverview`.
pub record Load : Type 0 where
  pub id : ℕ
  pub event_id : ℕ
  pub stage : Stage

pub record Session (D : Type 0) : Type 0 where
  pub page : Page
  pub management_key : Text
  pub visible : Bool  -- document.visibilityState === 'visible'
  pub loading : Bool
  pub pending_requests : ℕ
  pub refresh_deadline : ℕ
  pub load_request_id : ℕ
  pub load_controller : Option ℕ
  pub aborted_loads : List ℕ
  pub event_request_id : ℕ
  pub event_controller : Option ℕ
  pub aborted_events : List ℕ
  pub loads : List Load
  pub auto_refresh_timer : ℕ  -- 0 where no timer is set
  pub timers : List (ℕ × ℕ)  -- the browser's pending timeouts for the refresh, with their delays
  pub last_handle : ℕ
  pub drawer_open : Bool
  pub drawer_request_id : ℕ
  pub drawer_controller : Option ℕ
  pub aborted_drawers : List ℕ
  pub range_form_hidden : Bool
  pub calendar_request_id : ℕ
  pub online : Bool
  pub freshness : Freshness
  pub toasts : ℕ
  pub summary : Option D
  pub analysis : Option D
  pub events : Option D
  pub last_interfaces : Option D
  pub settings_shown : Option D

unfoldable pub contains : ℕ → List ℕ → Bool
contains i [] = false
contains i (j ∷ js) = j == i || contains i js

-- `controller?.abort()`
abbrev pub abort : Option ℕ → List ℕ → List ℕ
abort none aborted = aborted
abort (some id) aborted = id ∷ aborted

unfoldable pub find_load : ℕ → List Load → Option Load
find_load i [] = none
find_load i (t ∷ ts) = if t.id == i then some t else find_load i ts

unfoldable pub remove_load : ℕ → List Load → List Load
remove_load i [] = []
remove_load i (t ∷ ts) = let rest = remove_load i ts in if t.id == i then rest else t ∷ rest
