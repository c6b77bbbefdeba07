-- ===== src/Session/Reachable.antt =====
-- Every event keeps a session consistent, so every sequence of events does.
use mathlib.Core.Path.{subst}
use cpa_keeper_dashboard.Prelude.{
  ℕ, ◌≡◌, refl, true, false, Option, none, some, List, [], ◌∷◌, arith, Bool-cases, inl, inr, ltb,
  ◌||◌, not, sym,
}
use cpa_keeper_dashboard.Session.State.{
  Page, Load, Session, is_settings, same_page, is_empty, find_load, remove_load,
}
use cpa_keeper_dashboard.Session.Refresh.{refreshable, cancel_auto_refresh}
use cpa_keeper_dashboard.Session.Loading.{Outcome, resume_load, run_on}
use cpa_keeper_dashboard.Session.Events.{
  Event, close_drawer, hide_custom_range_form, handle_navigate, handle_visibility, run_auto_refresh,
  handle_timer, handle_auth_save, step, run,
}
use cpa_keeper_dashboard.Session.Invariant.{
  LoadsAgree, TimersAgree, IsConsistent, IsOnlyTimer, cancelled, idle-TimersAgree,
  load-IsConsistent, schedule-IsConsistent, resume-LoadsAgree, conclude-TimersAgree,
  run_on-TimersAgree, id-find_load,
}

module _ {D : Type 0} where
  -- A change of what the loads and the timer do not go by.
  navigate-IsConsistent :
      (page : Page) (s : Session D) → IsConsistent s → IsConsistent (handle_navigate page s)
  unfolding handle_navigate close_drawer hide_custom_range_form
  navigate-IsConsistent page s h = elim (Bool-cases (same_page page s.page)) [
    | inl same ↦ rw same h
    | inr other ↦ rw other (load-IsConsistent _ (ground arith))
  ]

  hide-IsConsistent :
      (now : ℕ) (s : Session D) → IsConsistent s → IsConsistent (handle_visibility false now s)
  unfolding handle_visibility
  hide-IsConsistent now s h =
      let (t, e) = cancelled (record s { visible = false }) h.of_timers.only in
      let idle = idle-TimersAgree (cancel_auto_refresh (record s { visible = false })) t e in
      record {
        of_loads =
            unfold cancel_auto_refresh in
            (record { shown = ground arith; controlled = ground arith });
        of_timers = record { only = idle.only; seen = idle.seen };
      }

  show-IsConsistent :
      (now : ℕ) (s : Session D) → IsConsistent s → IsConsistent (handle_visibility true now s)
  unfolding handle_visibility
  show-IsConsistent now s h =
      elim (Bool-cases (not (is_empty s.management_key || is_settings s.page))) [
        | inl go ↦
            rw go (load-IsConsistent _ (record { only = h.of_timers.only; seen = λ p. refl }))
        | inr stay ↦ rw stay (
            schedule-IsConsistent none now _ (record {
              of_loads = record { shown = h.of_loads.shown; controlled = h.of_loads.controlled };
              of_timers = record { only = h.of_timers.only; seen = λ p. refl };
            }))
      ]

  fire-IsConsistent :
      (now : ℕ) (s : Session D)
      → LoadsAgree s
      → s.timers ≡ []
      → IsConsistent (run_auto_refresh now s)
  unfolding run_auto_refresh
  fire-IsConsistent now s h e =
      let s' : Session D = record s { auto_refresh_timer = 0 } in
      let idle : TimersAgree s' = idle-TimersAgree s' refl e in
      let calm : IsConsistent s' = record {
        of_loads = record { shown = h.shown; controlled = h.controlled };
        of_timers = idle;
      } in
      elim (Bool-cases (refreshable s')) [
        | inr stop ↦ rw stop calm
        | inl go ↦ rw go (elim (Bool-cases (s.loading || ltb 0 s.pending_requests)) [
          | inl busy ↦ rw busy (schedule-IsConsistent (some 1_000) now s' calm)
          | inr free ↦ rw free (load-IsConsistent s' idle)
        ])
      ]

  timer-IsConsistent :
      (ts : List (ℕ × ℕ)) (now : ℕ) (s : Session D)
      → s.timers ≡ ts
      → IsConsistent s
      → IsConsistent (handle_timer ts now s)
  unfolding handle_timer
  timer-IsConsistent [] now s e h = h
  timer-IsConsistent ((k, delay) ∷ []) now s e h =
      fire-IsConsistent now (record s { timers = [] })
        (record { shown = h.of_loads.shown; controlled = h.of_loads.controlled }) refl
  timer-IsConsistent (_ ∷ _ ∷ _) now s e h =
      absurd (subst (IsOnlyTimer s.auto_refresh_timer) e h.of_timers.only)

  resume-IsConsistent :
      (i : ℕ) (o : Outcome D) (now : ℕ) (found : Option Load) (s : Session D)
      → find_load i s.loads ≡ found
      → IsConsistent s
      → IsConsistent (resume_load found o now s)
  unfolding resume_load
  resume-IsConsistent i o now none s f h = h
  resume-IsConsistent i o now (some t) s f h =
      let s1 : Session D = record s { loads = remove_load t.id s.loads } in
      record {
        of_loads =
            resume-LoadsAgree t o now s
              (subst (λ j. find_load j s.loads ≡ some t) (sym (id-find_load i s.loads t f)) f)
              h.of_loads;
        of_timers = conclude-TimersAgree t (run_on t o s1).1 now (run_on t o s1).0 (
            run_on-TimersAgree t o s1
              (record { only = h.of_timers.only; seen = h.of_timers.seen }));
      }

  step-IsConsistent : (e : Event D) (s : Session D) → IsConsistent s → IsConsistent (step e s)
  unfolding step handle_auth_save
  step-IsConsistent (Event.navigate page) s h = navigate-IsConsistent page s h
  step-IsConsistent Event.refresh_click s h = load-IsConsistent s h.of_timers
  step-IsConsistent (Event.visibility_change false now) s h = hide-IsConsistent now s h
  step-IsConsistent (Event.visibility_change true now) s h = show-IsConsistent now s h
  step-IsConsistent (Event.timer_fires now) s h = timer-IsConsistent s.timers now s refl h
  step-IsConsistent (Event.resume id o now) s h =
      resume-IsConsistent id o now (find_load id s.loads) s refl h
  step-IsConsistent (Event.auth_save []) s h = h
  step-IsConsistent (Event.auth_save (c ∷ key)) s h =
      load-IsConsistent _ (record { only = h.of_timers.only; seen = h.of_timers.seen })
  step-IsConsistent Event.unauthorized s h = record {
    of_loads = record { shown = h.of_loads.shown; controlled = h.of_loads.controlled };
    of_timers = record { only = h.of_timers.only; seen = h.of_timers.seen };
  }
  step-IsConsistent (Event.requests_change n) s h = record {
    of_loads = record { shown = h.of_loads.shown; controlled = h.of_loads.controlled };
    of_timers = record { only = h.of_timers.only; seen = h.of_timers.seen };
  }
  step-IsConsistent (Event.deadline_change t) s h = record {
    of_loads = record { shown = h.of_loads.shown; controlled = h.of_loads.controlled };
    of_timers = record { only = h.of_timers.only; seen = h.of_timers.seen };
  }

  -- Whatever events a consistent session gets, in whatever order, it is consistent: the loading
  -- indicator is shown exactly while the load that was started last is waiting, and then that load
  -- holds the AbortController; the refresh has at most one pending timeout, which is the one that
  -- `autoRefreshTimer` names, and none while the page is hidden.
  pub run-IsConsistent :
      (es : List (Event D)) (s : Session D) → IsConsistent s → IsConsistent (run es s)
  unfolding run
  run-IsConsistent [] s h = h
  run-IsConsistent (e ∷ es) s h = run-IsConsistent es (step e s) (step-IsConsistent e s h)
