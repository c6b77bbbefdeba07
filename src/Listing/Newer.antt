-- ===== src/Listing/Newer.antt =====
-- What the list shows is never replaced by the answer to an older request.
use cpa_keeper_dashboard.Prelude.{
  ℕ, ◌≤◌, ◌≡◌, refl, Bool, ◌||◌, not, Option, none, some, ◌==◌, ltb, if◌then◌else◌, arith,
  Bool-cases, inl, inr,
}
use cpa_keeper_dashboard.Prelude.OrdMap.{get}
use cpa_keeper_dashboard.Prelude.Text.{Text, text_eq}
use cpa_keeper_dashboard.Session.State.{
  Page, overview, interfaces, settings, is_empty, same_page, contains,
}
use cpa_keeper_dashboard.Listing.{
  Request, Reply, Listing, Action, find_request, load_events, load_page, set_event_filter_form,
  submit_filters, reset_filters, remove_filter, page_prev, page_next, apply_health_drilldown,
  clear_health_drilldown, show_overview, drilldown_upstream, activate_range, drop_request,
  render_events, fail_events, open_page, hide_page, act, has_key,
}

module _ {D : Type 0} where
  -- The number of the request whose events are shown, 0 before any.
  abbrev pub shown_id : Option (Request × D) → ℕ
  shown_id none = 0
  shown_id (some (r, d)) = r.id

  -- The list shows what it did, or the answer to the last request.
  pub data Shows (s s' : Listing D) : Type 0 where
    same : s'.current_events ≡ s.current_events → Shows s s'
    newest : shown_id s'.current_events ≡ s.event_request_id → Shows s s'

  load_page-Shows :
      (page : Page) (s : Listing D) → (load_page page s).current_events ≡ s.current_events
  unfolding load_page
  load_page-Shows overview s = refl
  load_page-Shows interfaces s = refl
  load_page-Shows settings s = refl

  show_overview-Shows :
      (page : Page) (s : Listing D) → (show_overview page s).current_events ≡ s.current_events
  unfolding show_overview load_events load_page
  show_overview-Shows overview s = refl
  show_overview-Shows interfaces s = refl
  show_overview-Shows settings s = refl

  remove_filter-Shows :
      (name : Text) (s : Listing D) → (remove_filter name s).current_events ≡ s.current_events
  unfolding remove_filter load_events
  remove_filter-Shows name s =
      elim (Bool-cases (is_empty name || not (has_key (get name s.event_filters)))) [
        | inl stop ↦ rw stop refl
        | inr go ↦ rw go refl
      ]

  page_prev-Shows : (s : Listing D) → (page_prev s).current_events ≡ s.current_events
  unfolding page_prev load_events
  page_prev-Shows s = elim (Bool-cases (ltb 1 s.event_page)) [
    | inl go ↦ rw go refl
    | inr stop ↦ rw stop refl
  ]

  page_next-Shows : (s : Listing D) → (page_next s).current_events ≡ s.current_events
  unfolding page_next load_events
  page_next-Shows s = elim (Bool-cases (ltb s.event_page s.event_pages)) [
    | inl go ↦ rw go refl
    | inr stop ↦ rw stop refl
  ]

  open_page-Shows :
      (page : Page) (s : Listing D) → (open_page page s).current_events ≡ s.current_events
  unfolding open_page
  open_page-Shows page s = elim (Bool-cases (same_page page s.page)) [
    | inl at ↦ rw at refl
    | inr other ↦ rw other (load_page-Shows page _)
  ]

  fail_events-Shows :
      (o : Option Request) (s : Listing D) → (fail_events o s).current_events ≡ s.current_events
  unfolding fail_events drop_request
  fail_events-Shows none s = refl
  fail_events-Shows (some r) s = refl

  render_events-Shows :
      (o : Option Request) (replaced : Bool) (reply : Reply D) (s : Listing D)
      → Shows s (render_events o replaced reply s)
  unfolding render_events drop_request
  render_events-Shows none replaced reply s = same refl
  render_events-Shows (some r) replaced reply s =
      elim (Bool-cases (
        not (r.id == s.event_request_id)
        || (if r.by_overview then replaced else contains r.id s.aborted_events))) [
          | inl superseded ↦ rw superseded (same refl)
          | inr current ↦ rw current (newest (ground arith))
        ]

  act-Shows : (a : Action D) (s : Listing D) → Shows s (act a s)
  unfolding act submit_filters reset_filters apply_health_drilldown clear_health_drilldown
      drilldown_upstream activate_range set_event_filter_form load_events hide_page
  act-Shows (Action.submit form) s = same refl
  act-Shows Action.reset s = same refl
  act-Shows (Action.remove name) s = same (remove_filter-Shows name s)
  act-Shows Action.prev s = same (page_prev-Shows s)
  act-Shows Action.next s = same (page_next-Shows s)
  act-Shows (Action.health from to has_failures) s = same refl
  act-Shows Action.clear_health s = same refl
  act-Shows (Action.upstream key) s = same (show_overview-Shows s.page _)
  act-Shows (Action.preset range) s = same (load_page-Shows s.page _)
  act-Shows (Action.custom from to) s = same (load_page-Shows s.page _)
  act-Shows (Action.show_page page) s = same (open_page-Shows page s)
  act-Shows Action.refresh s = same (load_page-Shows s.page s)
  act-Shows Action.hide s = same refl
  act-Shows (Action.respond i replaced reply) s =
      render_events-Shows (find_request i s.waiting) replaced reply s
  act-Shows (Action.fail i) s = same (fail_events-Shows (find_request i s.waiting) s)

  Shows-newer :
      (s s' : Listing D)
      → shown_id s.current_events ≤ s.event_request_id
      → Shows s s'
      → shown_id s.current_events ≤ shown_id s'.current_events
  Shows-newer s s' b (same e) = rw e (omega arith)
  Shows-newer s s' b (newest e) = rw e b

  -- Where no request is newer than the last one, an action leaves what is shown, or shows the answer
  -- to a request that is not older.
  pub act-newer :
      (a : Action D) (s : Listing D)
      → shown_id s.current_events ≤ s.event_request_id
      → shown_id s.current_events ≤ shown_id (act a s).current_events
  act-newer a s b = Shows-newer s (act a s) b (act-Shows a s)
