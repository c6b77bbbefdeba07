-- ===== src/Session/Timer.antt =====
-- The refresh timer after it is set again.
use cpa_keeper_dashboard.Prelude.{ℕ, ◌+◌, ◌≡◌, Option, [], ◌∷◌, arith, if◌then◌else◌}
use cpa_keeper_dashboard.Session.State.{Session}
use cpa_keeper_dashboard.Session.Refresh.{
  schedule_auto_refresh, cancel_auto_refresh, set_refresh_timer, refreshable, refresh_delay,
}
use cpa_keeper_dashboard.Session.Invariant.{IsOnlyTimer, cancelled}

module _ {D : Type 0} where
  -- Where the pending timeouts are the one that `autoRefreshTimer` names, or none, setting the
  -- timer again replaces them by one, with the new delay, if the page is visible, has a key and is
  -- not the settings, and by none otherwise.
  pub schedule_auto_refresh_lem :
      (delay_override : Option ℕ) (now : ℕ) (s : Session D)
      → IsOnlyTimer s.auto_refresh_timer s.timers
      → (schedule_auto_refresh delay_override now s).timers ≡ (
          if refreshable s
          then (s.last_handle + 1, refresh_delay delay_override s.refresh_deadline now) ∷ []
          else [])
  unfolding schedule_auto_refresh set_refresh_timer
  schedule_auto_refresh_lem o now s h =
      let (t, e) = cancelled s h in unfold cancel_auto_refresh in ground arith
