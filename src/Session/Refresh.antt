-- ===== src/Session/Refresh.antt =====
-- The timer that refreshes the page: scheduleAutoRefresh and cancelAutoRefresh.
use cpa_keeper_dashboard.Prelude.{
  ℕ, ◌+◌, ◌-◌, Bool, false, ◌||◌, not, Option, none, some, List, [], ◌∷◌, ◌==◌, if◌then◌else◌,
}
use cpa_keeper_dashboard.Session.State.{Session, is_settings, is_empty}

abbrev pub auto_refresh_ms : ℕ
auto_refresh_ms = 60_000

-- `window.clearTimeout`
unfoldable pub clear_timeout : ℕ → List (ℕ × ℕ) → List (ℕ × ℕ)
clear_timeout handle [] = []
clear_timeout handle ((h, delay) ∷ ts) =
    let rest = clear_timeout handle ts in if h == handle then rest else (h, delay) ∷ rest

-- The override where one is given, else what is left until the deadline, else a minute.
unfoldable pub refresh_delay : Option ℕ → ℕ → ℕ → ℕ
refresh_delay (some delay) deadline now = delay
refresh_delay none deadline now = if deadline == 0 then auto_refresh_ms else deadline - now

module _ {D : Type 0} where
  unfoldable pub cancel_auto_refresh : Session D → Session D
  cancel_auto_refresh s =
      if s.auto_refresh_timer == 0
      then s
      else record s { auto_refresh_timer = 0; timers = clear_timeout s.auto_refresh_timer s.timers }

  -- `window.setTimeout(runAutoRefresh, delay)`: the browser's handles are positive and new.
  unfoldable pub set_refresh_timer : ℕ → Session D → Session D
  set_refresh_timer delay s = record s {
    auto_refresh_timer = s.last_handle + 1;
    timers = (s.last_handle + 1, delay) ∷ s.timers;
    last_handle = s.last_handle + 1;
  }

  -- A hidden page, a page with no key and the settings are not refreshed.
  abbrev pub refreshable : Session D → Bool
  refreshable s = if s.visible then not (is_empty s.management_key || is_settings s.page) else false

  unfoldable pub schedule_auto_refresh : Option ℕ → ℕ → Session D → Session D
  schedule_auto_refresh delay_override now s =
      let s' = cancel_auto_refresh s in
      if refreshable s'
      then set_refresh_timer (refresh_delay delay_override s'.refresh_deadline now) s'
      else s'
