-- ===== src/Session/Events.antt =====
-- What happens to a session: the browser's events and the ends of waits, in any order.
use cpa_keeper_dashboard.Prelude.{
  ℕ, ◌+◌, Bool, true, false, ◌||◌, not, none, some, List, [], ◌∷◌, ltb, if◌then◌else◌,
}
use cpa_keeper_dashboard.Prelude.Text.{Text}
use cpa_keeper_dashboard.Session.State.{
  Page, Session, abort, is_settings, same_page, is_empty, find_load,
}
use cpa_keeper_dashboard.Session.Refresh.{refreshable, cancel_auto_refresh, schedule_auto_refresh}
use cpa_keeper_dashboard.Session.Loading.{Outcome, load_active_page, resume_load}

pub data Event (D : Type 0) : Type 0 where
  navigate : Page → Event D
  refresh_click : Event D
  visibility_change : Bool → ℕ → Event D
  timer_fires : ℕ → Event D
  resume : ℕ → Outcome D → ℕ → Event D
  auth_save : Text → Event D
  unauthorized : Event D
  requests_change : ℕ → Event D
  deadline_change : ℕ → Event D

module _ {D : Type 0} where
  -- `closeDrawer`, without what it does to the focus and the labels.
  unfoldable pub close_drawer : Session D → Session D
  close_drawer s = record s {
    aborted_drawers = abort s.drawer_controller s.aborted_drawers;
    drawer_controller = none;
    drawer_request_id = s.drawer_request_id + 1;
    drawer_open = false;
  }

  -- `hideCustomRangeForm`, of which the session knows the form and the calendar's request.
  unfoldable pub hide_custom_range_form : Session D → Session D
  hide_custom_range_form s = record s {
    calendar_request_id = s.calendar_request_id + 1;
    range_form_hidden = true;
  }

  -- A click on a navigation item.
  unfoldable pub handle_navigate : Page → Session D → Session D
  handle_navigate page s =
      let s' = record s { page = page } in
      let s' = if is_settings page then hide_custom_range_form s' else s' in
      if same_page page s.page then s else load_active_page (close_drawer s')

  unfoldable pub handle_visibility : Bool → ℕ → Session D → Session D
  handle_visibility false now s =
      let s' = cancel_auto_refresh (record s { visible = false }) in
      record s' {
        aborted_loads = abort s'.load_controller s'.aborted_loads;
        aborted_events = abort s'.event_controller s'.aborted_events;
      }
  handle_visibility true now s =
      let s' = record s { visible = true } in
      if not (is_empty s.management_key || is_settings s.page)
      then load_active_page s'
      else schedule_auto_refresh none now s'

  -- `runAutoRefresh`; the timeout that called it is over.
  unfoldable pub run_auto_refresh : ℕ → Session D → Session D
  run_auto_refresh now s =
      let s' = record s { auto_refresh_timer = 0 } in
      if not (refreshable s')
      then s'
      else if s.loading || ltb 0 s.pending_requests
      then schedule_auto_refresh (some 1_000) now s'
      else load_active_page s'

  -- The browser calls the first of its pending timeouts.
  unfoldable pub handle_timer : List (ℕ × ℕ) → ℕ → Session D → Session D
  handle_timer [] now s = s
  handle_timer ((h, delay) ∷ ts) now s = run_auto_refresh now (record s { timers = ts })

  -- The click on `auth-save`, with its text trimmed, where the browser stores the key.
  unfoldable pub handle_auth_save : Text → Session D → Session D
  handle_auth_save [] s = s
  handle_auth_save (c ∷ key) s =
      load_active_page (record s { management_key = c ∷ key; online = true; refresh_deadline = 0 })

  unfoldable pub step : Event D → Session D → Session D
  step (Event.navigate page) s = handle_navigate page s
  step Event.refresh_click s = load_active_page s
  step (Event.visibility_change shown now) s = handle_visibility shown now s
  step (Event.timer_fires now) s = handle_timer s.timers now s
  step (Event.resume id o now) s = resume_load (find_load id s.loads) o now s
  step (Event.auth_save key) s = handle_auth_save key s
  step Event.unauthorized s = record s { management_key = []; online = false; refresh_deadline = 0 }
  step (Event.requests_change n) s = record s { pending_requests = n }
  step (Event.deadline_change t) s = record s { refresh_deadline = t }

  unfoldable pub run : List (Event D) → Session D → Session D
  run [] s = s
  run (e ∷ es) s = run es (step e s)
