-- ===== src/Session/Tests.antt =====
-- A session at concrete events, and the theorems at them.
use cpa_keeper_dashboard.Session.Refresh.{
  schedule_auto_refresh, cancel_auto_refresh, set_refresh_timer,
}
use cpa_keeper_dashboard.Prelude.{ℕ, ◌≡◌, refl, true, false, none, some, List, [], ◌∷◌, arith}
use cpa_keeper_dashboard.Prelude.Text.{codes}
use cpa_keeper_dashboard.Session.State.{
  find_load, contains, overview, interfaces, Freshness, at_summary, Load, Session, remove_load,
}
use cpa_keeper_dashboard.Session.Loading.{
  load_active_page, begin_page, run_on, run_stage, conclude, settle, ok, failed, resume_load,
}
use cpa_keeper_dashboard.Session.Events.{step, handle_navigate, close_drawer, Event, run}
use cpa_keeper_dashboard.Session.Invariant.{IsConsistent}
use cpa_keeper_dashboard.Session.Reachable.{run-IsConsistent}
use cpa_keeper_dashboard.Session.Stale.{reported, resume_load-stale}
use cpa_keeper_dashboard.Session.Progress.{overview_loads}

-- `state` as the page starts with a stored key.
abbrev at_start : Session ℕ
at_start = record {
  page = overview;
  management_key = codes "sk-1";
  visible = true;
  loading = false;
  pending_requests = 0;
  refresh_deadline = 0;
  load_request_id = 0;
  load_controller = none;
  aborted_loads = [];
  event_request_id = 0;
  event_controller = none;
  aborted_events = [];
  loads = [];
  auto_refresh_timer = 0;
  timers = [];
  last_handle = 0;
  drawer_open = false;
  drawer_request_id = 0;
  drawer_controller = none;
  aborted_drawers = [];
  range_form_hidden = true;
  calendar_request_id = 0;
  online = true;
  freshness = Freshness.connecting;
  toasts = 0;
  summary = none;
  analysis = none;
  events = none;
  last_interfaces = none;
  settings_shown = none;
}

at_start-IsConsistent : IsConsistent at_start
unfolding find_load
at_start-IsConsistent = record {
  of_loads = record { shown = refl; controlled = refl };
  of_timers = record { only = refl; seen = λ p. absurd (omega arith) };
}

-- The overview is left for the interfaces before its first response, which then comes too late.
abbrev left_early : List (Event ℕ)
left_early =
    Event.refresh_click
    ∷ Event.navigate interfaces
    ∷ Event.resume 2 (ok 5) 100
    ∷ Event.resume 1 (ok 9) 200
    ∷ []

left_early_end : (run left_early at_start).summary ≡ none
unfolding run step resume_load find_load remove_load handle_navigate load_active_page begin_page
    close_drawer run_on run_stage conclude settle schedule_auto_refresh cancel_auto_refresh
    set_refresh_timer contains
left_early_end = refl

run-IsConsistent_example : IsConsistent (run left_early at_start)
run-IsConsistent_example = run-IsConsistent left_early at_start at_start-IsConsistent

abbrev replaced : Load
replaced = record { id = 1; event_id = 1; stage = at_summary }

abbrev replaced_load : Session ℕ
replaced_load = record at_start { load_request_id = 2; loads = replaced ∷ [] }

resume_load-stale_example :
    resume_load (some replaced) (failed) 100 replaced_load
    ≡ reported (failed) (record replaced_load { loads = remove_load 1 (replaced ∷ []) })
resume_load-stale_example =
    resume_load-stale replaced failed 100 replaced_load (λ e. absurd (omega arith))

overview_loads_example :
    let end =
      run
        (Event.refresh_click
          ∷ Event.resume 1 (ok 5) 100
          ∷ Event.resume 1 (ok 0) 100
          ∷ Event.resume 1 (ok 6) 100
          ∷ Event.resume 1 (ok 0) 100
          ∷ Event.resume 1 (ok 7) 100
          ∷ [])
        at_start in
    (end.summary ≡ some 5)
    × (end.analysis ≡ some 6)
    × (end.events ≡ some 7)
    × (end.loading ≡ false)
    × (end.load_controller ≡ none)
    × (end.freshness ≡ Freshness.fresh)
unfolding contains
overview_loads_example = overview_loads at_start 5 0 6 0 7 100 refl refl
