-- ===== src/Session/Stale.antt =====
-- What is left of a page load that another one has replaced.
use cpa_keeper_dashboard.Prelude.{ℕ, ◌+◌, ◌≡◌, ◌≢◌, refl, false, some, arith, ◌==◌}
use cpa_keeper_dashboard.Session.State.{Freshness, Stage, Load, Session, remove_load}
use cpa_keeper_dashboard.Session.Loading.{
  Outcome, Next, ok, auth_required, abort_error, failed, run_stage, run_on, settle, conclude,
  resume_load,
}

module _ {D : Type 0} where
  -- What the user sees of the end of a load that was replaced: errors, and no response.
  abbrev pub reported : Outcome D → Session D → Session D
  reported failed s = record s {
    toasts = s.toasts + 1;
    online = false;
    freshness = Freshness.error;
  }
  reported _ s = s

  run_stage-stale :
      (t : Load) (stage : Stage) (d : D) (s : Session D)
      → (t.id == s.load_request_id) ≡ false
      → run_stage t stage d s ≡ (s, Next.return)
  unfolding run_stage
  run_stage-stale t stage d s e = ground arith

  -- A load that is not the one started last leaves nothing when it runs on, whichever wait ended
  -- and however, but that it waits no longer, and that an error which is neither an abort nor a
  -- missing key is reported.
  pub resume_load-stale :
      (t : Load) (o : Outcome D) (now : ℕ) (s : Session D)
      → t.id ≢ s.load_request_id
      → resume_load (some t) o now s ≡ reported o (record s { loads = remove_load t.id s.loads })
  unfolding resume_load run_on conclude settle
  resume_load-stale t (ok d) now s other =
      let e : (t.id == s.load_request_id) ≡ false = ground arith in
      let r = run_stage-stale t t.stage d (record s { loads = remove_load t.id s.loads }) e in
      rw (r, e) refl
  resume_load-stale t auth_required now s other = ground arith
  resume_load-stale t abort_error now s other = ground arith
  resume_load-stale t failed now s other = ground arith
