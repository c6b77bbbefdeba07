-- ===== src/Session/Progress.antt =====
-- A page load that nothing disturbs: it shows its responses, and it ends.
use cpa_keeper_dashboard.Prelude.{ℕ, ◌+◌, ◌≡◌, refl, false, none, some, [], ◌∷◌, arith, ap}
use cpa_keeper_dashboard.Session.State.{
  overview, Freshness, Stage, at_summary, at_paint, at_analysis, at_second_paint, at_events,
  at_interfaces, at_settings, Load, Session, remove_load, find_load, contains, abort,
}
use cpa_keeper_dashboard.Session.Refresh.{
  set_refresh_timer, cancel_auto_refresh, schedule_auto_refresh,
}
use cpa_keeper_dashboard.Session.Loading.{
  Next, await, return, ok, run_stage, run_on, settle, conclude, resume_load, load_active_page,
  begin_page,
}
use cpa_keeper_dashboard.Session.Events.{Event, step, run}

-- What a stage that nothing disturbs waits for next.
abbrev pub next_of : Stage → Next
next_of at_summary = await at_paint
next_of at_paint = await at_analysis
next_of at_analysis = await at_second_paint
next_of at_second_paint = await at_events
next_of _ = return

module _ {D : Type 0} where
  -- What each stage renders of its response.
  abbrev pub draw : Stage → D → Session D → Session D
  draw at_summary d s = record s { summary = some d }
  draw at_analysis d s = record s { analysis = some d }
  draw at_events d s = record s { events = some d }
  draw at_interfaces d s = record s { last_interfaces = some d }
  draw at_settings d s = record s { settings_shown = some d }
  draw _ d s = s

  -- The load waits, is the last one started, and nothing has aborted it.
  record IsUndisturbed (t : Load) (s : Session D) : Type 0 where
    waits : find_load t.id s.loads ≡ some t
    last : t.id ≡ s.load_request_id
    kept : contains t.id s.aborted_loads ≡ false
    events_kept : t.event_id ≡ s.event_request_id

  run_stage-undisturbed :
      (t : Load) (stage : Stage) (d : D) (s : Session D)
      → t.id ≡ s.load_request_id
      → contains t.id s.aborted_loads ≡ false
      → t.event_id ≡ s.event_request_id
      → run_stage t stage d s ≡ (draw stage d s, next_of stage)
  unfolding run_stage
  run_stage-undisturbed t stage d s l k e = ground arith

  resume-undisturbed :
      (t : Load) (d : D) (now : ℕ) (s : Session D)
      → IsUndisturbed t s
      → step (Event.resume t.id (ok d) now) s
        ≡ conclude t
            (next_of t.stage)
            now
            (draw t.stage d (record s { loads = remove_load t.id s.loads }))
  unfolding step resume_load run_on
  resume-undisturbed t d now s h =
      let r =
        run_stage-undisturbed t t.stage d (record s { loads = remove_load t.id s.loads }) h.last
          h.kept h.events_kept in
      rw h.waits (ap (λ p. conclude t p.1 now p.0) r)

  advance :
      (t : Load) (stage : Stage) (d : D) (now : ℕ) (s : Session D)
      → next_of t.stage ≡ await stage
      → IsUndisturbed t s
      → IsUndisturbed
          (record t { stage = stage })
          (conclude t
            (next_of t.stage)
            now
            (draw t.stage d (record s { loads = remove_load t.id s.loads })))
  unfolding conclude find_load
  advance t stage d now s e h = rw e (record {
    waits = ground arith;
    last = ground arith;
    kept = ground arith;
    events_kept = ground arith;
  })

  -- A load after one of its waits ended with a response.
  abbrev proceed : Load → D → ℕ → Session D → Session D
  proceed t d now s =
      conclude t (next_of t.stage) now
        (draw t.stage d (record s { loads = remove_load t.id s.loads }))

  done :
      (t : Load) (now : ℕ) (s : Session D)
      → t.id ≡ s.load_request_id
      → let end = conclude t return now s in
        (end.summary ≡ s.summary)
        × (end.analysis ≡ s.analysis)
        × (end.events ≡ s.events)
        × (end.loading ≡ false)
        × (end.load_controller ≡ none)
        × (end.freshness ≡ Freshness.fresh)
  unfolding conclude settle schedule_auto_refresh cancel_auto_refresh set_refresh_timer
  done t now s e = ground arith

  start :
      (s : Session D)
      → s.page ≡ overview
      → contains (s.load_request_id + 1) (abort s.load_controller s.aborted_loads) ≡ false
      → IsUndisturbed
          (record {
            id = s.load_request_id + 1;
            event_id = s.event_request_id + 1;
            stage = at_summary;
          })
          (load_active_page s)
  unfolding load_active_page begin_page find_load
  start s p free =
      rw p (record { waits = ground arith; last = refl; kept = ground arith; events_kept = refl })

  -- The overview, loaded with nothing in between: the two summaries and the events are rendered
  -- from the responses in turn, and then the loading indicator is gone and the page is fresh.
  pub overview_loads :
      (s : Session D) (a paint b second_paint c : D) (now : ℕ)
      → s.page ≡ overview
      → contains (s.load_request_id + 1) (abort s.load_controller s.aborted_loads) ≡ false
      → let i = s.load_request_id + 1 in
        let end =
          run
            (Event.refresh_click
              ∷ Event.resume i (ok a) now
              ∷ Event.resume i (ok paint) now
              ∷ Event.resume i (ok b) now
              ∷ Event.resume i (ok second_paint) now
              ∷ Event.resume i (ok c) now
              ∷ [])
            s in
        (end.summary ≡ some a)
        × (end.analysis ≡ some b)
        × (end.events ≡ some c)
        × (end.loading ≡ false)
        × (end.load_controller ≡ none)
        × (end.freshness ≡ Freshness.fresh)
  unfolding run step conclude
  overview_loads s a paint b second_paint c now p free =
      let at : Stage → Load = λ stage. record {
        id = s.load_request_id + 1;
        event_id = s.event_request_id + 1;
        stage = stage;
      } in
      let s0 = load_active_page s in
      let u0 = start s p free in
      let s1 = proceed (at at_summary) a now s0 in
      let u1 = advance (at at_summary) at_paint a now s0 refl u0 in
      let s2 = proceed (at at_paint) paint now s1 in
      let u2 = advance (at at_paint) at_analysis paint now s1 refl u1 in
      let s3 = proceed (at at_analysis) b now s2 in
      let u3 = advance (at at_analysis) at_second_paint b now s2 refl u2 in
      let s4 = proceed (at at_second_paint) second_paint now s3 in
      let u4 = advance (at at_second_paint) at_events second_paint now s3 refl u3 in
      let i = s.load_request_id + 1 in
      rw
        (
          resume-undisturbed (at at_summary) a now s0 u0,
          resume-undisturbed (at at_paint) paint now s1 u1,
          resume-undisturbed (at at_analysis) b now s2 u2,
          resume-undisturbed (at at_second_paint) second_paint now s3 u3,
          resume-undisturbed (at at_events) c now s4 u4,
        )
        (done (at at_events) now (record s4 { loads = remove_load i s4.loads; events = some c })
          u4.last)
