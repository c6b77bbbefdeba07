-- ===== src/Session/Loading.antt =====
-- `loadActivePage` with the loads of the three pages, cut at the points where they wait.
use cpa_keeper_dashboard.Prelude.{
  ℕ, ◌+◌, Bool, true, false, ◌||◌, not, Option, none, some, ◌∷◌, ◌==◌, if◌then◌else◌,
}
use cpa_keeper_dashboard.Session.State.{
  Page, overview, interfaces, settings, Freshness, Stage, at_summary, at_paint, at_analysis,
  at_second_paint, at_events, at_interfaces, at_settings, Load, Session, abort, contains,
  remove_load,
}
use cpa_keeper_dashboard.Session.Refresh.{schedule_auto_refresh}

-- How a wait ends: with a response, or with an error, told apart by its name.
pub data Outcome (D : Type 0) : Type 0 where
  ok : D → Outcome D
  auth_required : Outcome D
  abort_error : Outcome D
  failed : Outcome D

-- What a load does when it runs on: it waits again, returns, or throws.
pub data Next : Type 0 where
  await : Stage → Next
  return : Next
  throw : Bool → Next  -- whether the error is to be reported

abbrev pub first_stage : Page → Stage
first_stage overview = at_summary
first_stage interfaces = at_interfaces
first_stage settings = at_settings

module _ {D : Type 0} where
  -- `loadOverview` up to its first wait: the requests for events alone are given up.
  unfoldable pub begin_page : Page → Session D → Session D
  begin_page overview s = record s {
    aborted_events = abort s.event_controller s.aborted_events;
    event_controller = none;
    event_request_id = s.event_request_id + 1;
  }
  begin_page _ s = s

  -- `loadActivePage` up to its first wait.
  unfoldable pub load_active_page : Session D → Session D
  load_active_page s =
      let id = s.load_request_id + 1 in
      let s' = begin_page s.page (record s {
        aborted_loads = abort s.load_controller s.aborted_loads;
        load_request_id = id;
        load_controller = some id;
        refresh_deadline = 0;
        loading = true;
        freshness = Freshness.stale;
      }) in
      record s' {
        loads =
            record { id = id; event_id = s'.event_request_id; stage = first_stage s.page }
            ∷ s.loads;
      }

  -- `requestID !== state.loadRequestID || signal.aborted`
  abbrev pub is_superseded : Load → Session D → Bool
  is_superseded t s = not (t.id == s.load_request_id) || contains t.id s.aborted_loads

  -- The test before and after the request for events.
  abbrev pub is_overtaken : Load → Session D → Bool
  is_overtaken t s = is_superseded t s || not (t.event_id == s.event_request_id)

  -- One piece of `loadOverview`, `loadInterfaces` or `loadSettings`, from a wait to the next.
  unfoldable pub run_stage : Load → Stage → D → Session D → Session D × Next
  run_stage t at_summary d s =
      if is_superseded t s then (s, return) else (record s { summary = some d }, await at_paint)
  run_stage t at_paint d s = if is_superseded t s then (s, return) else (s, await at_analysis)
  run_stage t at_analysis d s =
      if is_superseded t s
      then (s, return)
      else (record s { analysis = some d }, await at_second_paint)
  run_stage t at_second_paint d s = if is_overtaken t s then (s, return) else (s, await at_events)
  run_stage t at_events d s =
      if is_overtaken t s then (s, return) else (record s { events = some d }, return)
  run_stage t at_interfaces d s =
      if is_superseded t s then (s, return) else (record s { last_interfaces = some d }, return)
  run_stage t at_settings d s =
      if is_superseded t s then (s, return) else (record s { settings_shown = some d }, return)

  unfoldable pub run_on : Load → Outcome D → Session D → Session D × Next
  run_on t (ok d) s = run_stage t t.stage d s
  run_on t auth_required s = (s, throw false)
  run_on t abort_error s = (s, throw false)
  run_on t failed s = (s, throw true)

  -- The `finally` block.
  unfoldable pub settle : Load → Option ℕ → ℕ → Session D → Session D
  settle t delay_override now s =
      if t.id == s.load_request_id
      then schedule_auto_refresh delay_override now
          (record s { load_controller = none; loading = false })
      else s

  -- The rest of `loadActivePage` after the load of the page returned or threw.
  unfoldable pub conclude : Load → Next → ℕ → Session D → Session D
  conclude t (await stage) now s = record s { loads = record t { stage = stage } ∷ s.loads }
  conclude t return now s =
      if t.id == s.load_request_id
      then settle t none now (record s { online = true; freshness = Freshness.fresh })
      else s
  conclude t (throw false) now s = settle t (some 5_000) now s
  conclude t (throw true) now s =
      settle t (some 5_000) now
        (record s { toasts = s.toasts + 1; online = false; freshness = Freshness.error })

  unfoldable pub resume_load : Option Load → Outcome D → ℕ → Session D → Session D
  resume_load none o now s = s
  resume_load (some t) o now s =
      let (s', next) = run_on t o (record s { loads = remove_load t.id s.loads }) in
      conclude t next now s'
