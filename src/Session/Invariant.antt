-- ===== src/Session/Invariant.antt =====
-- What holds of a session whatever happens and in whatever order the waits end.
use mathlib.Core.Path.{subst}
use cpa_keeper_dashboard.Prelude.{
  ℕ, ◌+◌, ◌<◌, ◌≡◌, ◌≢◌, ℕ_discrete, refl, Bool, true, false, Option, none, some, List, [], ◌∷◌,
  arith, ◌==◌, if◌then◌else◌, Bool-cases, inl, inr, sym, ap, ◌∙◌,
}
use cpa_keeper_dashboard.Session.State.{Freshness, Load, Session, find_load, remove_load}
use cpa_keeper_dashboard.Session.Refresh.{
  clear_timeout, cancel_auto_refresh, set_refresh_timer, refreshable, schedule_auto_refresh,
}
use cpa_keeper_dashboard.Session.Loading.{
  Outcome, Next, await, return, throw, begin_page, load_active_page, run_stage, run_on, settle,
  conclude, resume_load,
}

abbrev pub is_found : Option Load → Bool
is_found none = false
is_found (some _) = true

-- The load that was started last is still waiting.
abbrev pub in_flight : {D : Type 0} → Session D → Bool
in_flight s = is_found (find_load s.load_request_id s.loads)

-- The pending timeouts are the one that `autoRefreshTimer` names, or none where it is 0.
abbrev pub IsOnlyTimer : ℕ → List (ℕ × ℕ) → Type 0
IsOnlyTimer timer [] = timer ≡ 0
IsOnlyTimer timer ((h, delay) ∷ []) = (h ≡ timer) × (0 < timer)
IsOnlyTimer timer (_ ∷ _ ∷ _) = ⊥

cancel_lem :
    (timer : ℕ) (ts : List (ℕ × ℕ))
    → IsOnlyTimer timer ts
    → (if timer == 0 then ts else clear_timeout timer ts) ≡ []
unfolding clear_timeout
cancel_lem timer [] h = ground arith
cancel_lem timer ((h, delay) ∷ []) (e, p) = ground arith
cancel_lem timer (_ ∷ _ ∷ _) h = absurd h

module _ {D : Type 0} where
  pub record LoadsAgree (s : Session D) : Type 0 where
    pub shown : s.loading ≡ in_flight s
    pub controlled : s.load_controller ≡ (if in_flight s then some s.load_request_id else none)

  pub record TimersAgree (s : Session D) : Type 0 where
    pub only : IsOnlyTimer s.auto_refresh_timer s.timers
    pub seen : 0 < s.auto_refresh_timer → s.visible ≡ true

  pub cancelled :
      (s : Session D)
      → IsOnlyTimer s.auto_refresh_timer s.timers
      → ((cancel_auto_refresh s).auto_refresh_timer ≡ 0) × ((cancel_auto_refresh s).timers ≡ [])
  unfolding cancel_auto_refresh
  cancelled s h = (ground arith, ground (arith, cancel_lem s.auto_refresh_timer s.timers h))

  pub idle-TimersAgree : (s : Session D) → s.auto_refresh_timer ≡ 0 → s.timers ≡ [] → TimersAgree s
  idle-TimersAgree s t e = record { only = rw e t; seen = λ p. absurd (omega arith) }

  set-TimersAgree :
      (delay : ℕ) (s : Session D)
      → s.timers ≡ []
      → s.visible ≡ true
      → TimersAgree (set_refresh_timer delay s)
  unfolding set_refresh_timer
  set-TimersAgree delay s e v = record { only = rw e (refl, omega arith); seen = λ p. v }

  schedule-TimersAgree :
      (o : Option ℕ) (now : ℕ) (s : Session D)
      → TimersAgree s
      → TimersAgree (schedule_auto_refresh o now s)
  unfolding schedule_auto_refresh
  schedule-TimersAgree o now s h =
      let (t, e) = cancelled s h.only in
      elim (Bool-cases (refreshable (cancel_auto_refresh s))) [
        | inl go ↦ rw go (set-TimersAgree _ (cancel_auto_refresh s) e (ground arith))
        | inr wait ↦ rw wait (idle-TimersAgree (cancel_auto_refresh s) t e)
      ]

  schedule-LoadsAgree :
      (o : Option ℕ) (now : ℕ) (s : Session D)
      → LoadsAgree s
      → LoadsAgree (schedule_auto_refresh o now s)
  unfolding schedule_auto_refresh cancel_auto_refresh set_refresh_timer
  schedule-LoadsAgree o now s h = ground arith

  load_active_page-LoadsAgree : (s : Session D) → LoadsAgree (load_active_page s)
  unfolding load_active_page begin_page find_load
  load_active_page-LoadsAgree s = ground arith

  load_active_page-TimersAgree : (s : Session D) → TimersAgree s → TimersAgree (load_active_page s)
  unfolding load_active_page begin_page
  load_active_page-TimersAgree s h = ground arith

pub find-remove_load :
    (i j : ℕ) (ts : List Load)
    → find_load i (remove_load j ts) ≡ (if j == i then none else find_load i ts)
unfolding find_load remove_load
find-remove_load i j [] = ground arith
find-remove_load i j (t ∷ ts) = ground (arith, find-remove_load i j ts)

pub id-find_load : (i : ℕ) (ts : List Load) (t : Load) → find_load i ts ≡ some t → t.id ≡ i
unfolding find_load
id-find_load i [] t h = absurd (ground arith)
id-find_load i (u ∷ ts) t h = ground (arith, id-find_load i ts t)

module _ {D : Type 0} where
  -- What a load finds when it runs on, out of the list: whether it is the last one started.
  pub record IsCurrent (s : Session D) : Type 0 where
    pub busy : s.loading ≡ true
    pub own : s.load_controller ≡ some s.load_request_id
    pub out : find_load s.load_request_id s.loads ≡ none

  settle-current :
      (t : Load) (o : Option ℕ) (now : ℕ) (s : Session D)
      → t.id ≡ s.load_request_id
      → IsCurrent s
      → LoadsAgree (settle t o now s)
  unfolding settle
  settle-current t o now s same c =
      let e : (t.id == s.load_request_id) ≡ true = ground arith in
      rw e (
        schedule-LoadsAgree o now (record s { load_controller = none; loading = false })
          (record { shown = rw c.out; controlled = rw c.out }))

  conclude-current :
      (t : Load) (next : Next) (now : ℕ) (s : Session D)
      → t.id ≡ s.load_request_id
      → IsCurrent s
      → LoadsAgree (conclude t next now s)
  unfolding conclude
  conclude-current t (await stage) now s same c = unfold find_load in ground arith
  conclude-current t return now s same c =
      let e : (t.id == s.load_request_id) ≡ true = ground arith in
      rw e (settle-current t none now _ same (record { busy = c.busy; own = c.own; out = c.out }))
  conclude-current t (throw false) now s same c = settle-current t _ now s same c
  conclude-current t (throw true) now s same c =
      settle-current t _ now _ same (record { busy = c.busy; own = c.own; out = c.out })

  conclude-other :
      (t : Load) (next : Next) (now : ℕ) (s : Session D)
      → t.id ≢ s.load_request_id
      → LoadsAgree s
      → LoadsAgree (conclude t next now s)
  unfolding conclude settle
  conclude-other t (await stage) now s other h = unfold find_load in ground arith
  conclude-other t return now s other h = ground arith
  conclude-other t (throw false) now s other h = ground arith
  conclude-other t (throw true) now s other h = ground arith

  -- Running on writes the page, and nothing that the loads and the timer go by.
  run_on-LoadsAgree :
      (t : Load) (o : Outcome D) (s : Session D) → LoadsAgree s → LoadsAgree (run_on t o s).0
  unfolding run_on run_stage
  run_on-LoadsAgree t o s h = ground arith

  run_on-IsCurrent :
      (t : Load) (o : Outcome D) (s : Session D) → IsCurrent s → IsCurrent (run_on t o s).0
  unfolding run_on run_stage
  run_on-IsCurrent t o s h = ground arith

  run_on_id :
      (t : Load) (o : Outcome D) (s : Session D)
      → (run_on t o s).0.load_request_id ≡ s.load_request_id
  unfolding run_on run_stage
  run_on_id t o s = ground arith

  pub resume-LoadsAgree :
      (t : Load) (o : Outcome D) (now : ℕ) (s : Session D)
      → find_load t.id s.loads ≡ some t
      → LoadsAgree s
      → LoadsAgree (resume_load (some t) o now s)
  unfolding resume_load
  resume-LoadsAgree t o now s f h =
      let s1 : Session D = record s { loads = remove_load t.id s.loads } in
      elim (ℕ_discrete t.id s.load_request_id) [
        | yes same ↦
            let found : find_load s.load_request_id s.loads ≡ some t =
              subst (λ i. find_load i s.loads ≡ some t) same f in
            let out : find_load s.load_request_id s1.loads ≡ none =
              ground (arith, find-remove_load s.load_request_id t.id s.loads) in
            conclude-current t (run_on t o s1).1 now (run_on t o s1).0
              (same ∙ sym (run_on_id t o s1))
              (run_on-IsCurrent t o s1 (record {
                busy = h.shown ∙ ap is_found found;
                own =
                    h.controlled
                    ∙ (λ i. if is_found (found i) then some s.load_request_id else none);
                out = out;
              }))
        | no other ↦
            let kept : find_load s.load_request_id s1.loads ≡ find_load s.load_request_id s.loads =
              ground (arith, find-remove_load s.load_request_id t.id s.loads) in
            conclude-other t (run_on t o s1).1 now (run_on t o s1).0
              (λ e. other (e ∙ run_on_id t o s1))
              (run_on-LoadsAgree t o s1
                (record { shown = rw kept h.shown; controlled = rw kept h.controlled }))
      ]

  pub conclude-TimersAgree :
      (t : Load) (next : Next) (now : ℕ) (s : Session D)
      → TimersAgree s
      → TimersAgree (conclude t next now s)
  unfolding conclude settle
  conclude-TimersAgree t (await stage) now s h = record { only = h.only; seen = h.seen }
  conclude-TimersAgree t return now s h = ground (
    arith,
    schedule-TimersAgree none now
        (record s {
          online = true;
          freshness = Freshness.fresh;
          load_controller = none;
          loading = false;
        })
        (record { only = h.only; seen = h.seen }),
  )
  conclude-TimersAgree t (throw false) now s h = ground (
    arith,
    schedule-TimersAgree (some 5_000) now (record s { load_controller = none; loading = false })
        (record { only = h.only; seen = h.seen }),
  )
  conclude-TimersAgree t (throw true) now s h = ground (
    arith,
    schedule-TimersAgree (some 5_000) now
        (record s {
          toasts = s.toasts + 1;
          online = false;
          freshness = Freshness.error;
          load_controller = none;
          loading = false;
        })
        (record { only = h.only; seen = h.seen }),
  )

  pub run_on-TimersAgree :
      (t : Load) (o : Outcome D) (s : Session D) → TimersAgree s → TimersAgree (run_on t o s).0
  unfolding run_on run_stage
  run_on-TimersAgree t o s h = ground arith

  -- The loading indicator is shown exactly while the load that was started last is waiting, and
  -- then that load holds the AbortController; the refresh has at most one pending timeout, the one
  -- that `autoRefreshTimer` names, and none while the page is hidden.
  pub record IsConsistent (s : Session D) : Type 0 where
    pub of_loads : LoadsAgree s
    pub of_timers : TimersAgree s

  pub load-IsConsistent : (s : Session D) → TimersAgree s → IsConsistent (load_active_page s)
  load-IsConsistent s h = record {
    of_loads = load_active_page-LoadsAgree s;
    of_timers = load_active_page-TimersAgree s h;
  }

  pub schedule-IsConsistent :
      (o : Option ℕ) (now : ℕ) (s : Session D)
      → IsConsistent s
      → IsConsistent (schedule_auto_refresh o now s)
  schedule-IsConsistent o now s h = record {
    of_loads = schedule-LoadsAgree o now s h.of_loads;
    of_timers = schedule-TimersAgree o now s h.of_timers;
  }
