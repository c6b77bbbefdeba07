-- ===== src/Listing/Current.antt =====
-- The list shows what was last asked for.
use mathlib.Core.Path.{subst}
use cpa_keeper_dashboard.Prelude.{
  ℕ, ◌+◌, ◌≤◌, ◌≡◌, ◌≢◌, refl, Bool, ◌||◌, not, Option, none, some, List, [], ◌∷◌, ◌==◌, ltb,
  if◌then◌else◌, arith, Bool-cases, inl, inr,
}
use cpa_keeper_dashboard.Prelude.OrdMap.{get}
use cpa_keeper_dashboard.Prelude.Text.{Text, text_eq}
use cpa_keeper_dashboard.Session.State.{
  Page, overview, interfaces, settings, is_empty, same_page, contains,
}
use cpa_keeper_dashboard.Listing.Newer.{shown_id, act-newer}
use cpa_keeper_dashboard.Listing.{
  Params, Request, Reply, Listing, Action, remove_request, find_request, event_params, load_events,
  load_page, set_event_filter_form, submit_filters, reset_filters, remove_filter, page_prev,
  page_next, apply_health_drilldown, clear_health_drilldown, show_overview, drilldown_upstream,
  activate_range, drop_request, render_events, fail_events, open_page, hide_page, act, act_all,
  has_key,
}

-- A request is not newer than the last one, and the last one asked what `wanted` says.
abbrev pub Fits : ℕ → (Params → Type 0) → Request → Type 0
Fits last Wanted r = (r.id ≤ last) × (r.id ≡ last → Wanted r.params)

abbrev pub AllFit : ℕ → (Params → Type 0) → List Request → Type 0
AllFit last Wanted [] = Unit
AllFit last Wanted (r ∷ rs) = Fits last Wanted r × AllFit last Wanted rs

AllFit-remove :
    (last : ℕ) (Wanted : Params → Type 0) (i : ℕ) (rs : List Request)
    → AllFit last Wanted rs
    → AllFit last Wanted (remove_request i rs)
unfolding remove_request
AllFit-remove last Wanted i [] h = h
AllFit-remove last Wanted i (r ∷ rs) (f, h) = elim (Bool-cases (r.id == i)) [
  | inl same ↦ rw same (AllFit-remove last Wanted i rs h)
  | inr other ↦ rw other (f, AllFit-remove last Wanted i rs h)
]

AllFit-later :
    (last : ℕ) (Wanted Next : Params → Type 0) (rs : List Request)
    → AllFit last Wanted rs
    → AllFit (last + 1) Next rs
AllFit-later last Wanted Next [] h = h
AllFit-later last Wanted Next (r ∷ rs) ((b, _), h) =
    ((omega arith, λ e. absurd (omega arith)), AllFit-later last Wanted Next rs h)

find-Fits :
    (last : ℕ) (Wanted : Params → Type 0) (i : ℕ) (rs : List Request) (r : Request)
    → AllFit last Wanted rs
    → find_request i rs ≡ some r
    → Fits last Wanted r
unfolding find_request
find-Fits last Wanted i [] r h e = absurd (ground arith)
find-Fits last Wanted i (q ∷ rs) r (f, h) e = elim (Bool-cases (q.id == i)) [
  | inl same ↦ let p : q ≡ r = ground arith in subst (Fits last Wanted) p f
  | inr other ↦ find-Fits last Wanted i rs r h (ground arith)
]

away-Fits :
    (last : ℕ) (Want : Params → Type 0) (Next : Params → Type 0) (rs : List Request)
    → ((p : Params) → Next p)
    → AllFit last Want rs
    → AllFit last Next rs
away-Fits last Want Next [] n h = h
away-Fits last Want Next (r ∷ rs) n ((b, _), h) =
    ((b, λ _. n r.params), away-Fits last Want Next rs n h)

module _ {D : Type 0} where
  -- What the list is to show: on the overview, the events for the parameters of now.
  abbrev pub Wanted : Listing D → Params → Type 0
  Wanted s p = s.page ≡ overview → p ≡ event_params s

  abbrev pub ShownFits : ℕ → (Params → Type 0) → Option (Request × D) → Type 0
  ShownFits last Want none = Unit
  ShownFits last Want (some (r, d)) = Fits last Want r

  -- No request is newer than `eventRequestID`; on the overview, the request with that number asked
  -- for the parameters of now, whether it is waiting or its events are shown.
  pub record IsUpToDate (s : Listing D) : Type 0 where
    pub asked : AllFit s.event_request_id (Wanted s) s.waiting
    pub shown : ShownFits s.event_request_id (Wanted s) s.current_events

  ShownFits-later :
      (last : ℕ) (Want Next : Params → Type 0) (o : Option (Request × D))
      → ShownFits last Want o
      → ShownFits (last + 1) Next o
  ShownFits-later last Want Next none h = h
  ShownFits-later last Want Next (some (r, d)) (b, _) = (omega arith, λ e. absurd (omega arith))

  away-ShownFits :
      (last : ℕ) (Want Next : Params → Type 0) (o : Option (Request × D))
      → ((p : Params) → Next p)
      → ShownFits last Want o
      → ShownFits last Next o
  away-ShownFits last Want Next none n h = h
  away-ShownFits last Want Next (some (r, d)) n (b, _) = (b, λ _. n r.params)

  -- Off the overview nothing is wanted.
  away :
      (s s' : Listing D)
      → s'.page ≢ overview
      → IsUpToDate s
      → s'.event_request_id ≡ s.event_request_id
      → s'.waiting ≡ s.waiting
      → s'.current_events ≡ s.current_events
      → IsUpToDate s'
  away s s' off h e w c = record {
    asked = rw (e, w) (away-Fits _ _ _ s.waiting (λ p o. absurd (off o)) h.asked);
    shown = rw (e, c) (away-ShownFits _ _ _ s.current_events (λ p o. absurd (off o)) h.shown);
  }

  -- A handler that ends in `loadEvents`, after it changed anything but the requests.
  load_events-IsUpToDate :
      (s s' : Listing D)
      → IsUpToDate s
      → s'.event_request_id ≡ s.event_request_id
      → s'.waiting ≡ s.waiting
      → s'.current_events ≡ s.current_events
      → IsUpToDate (load_events s')
  unfolding load_events event_params
  load_events-IsUpToDate s s' h e w c =
      rw (e, w, c)
        (record {
          asked = ((omega arith, λ _ _. refl), AllFit-later _ _ _ s.waiting h.asked);
          shown = ShownFits-later _ _ _ s.current_events h.shown;
        })

  load_page-IsUpToDate :
      (page : Page) (s s' : Listing D)
      → s'.page ≡ page
      → IsUpToDate s
      → s'.event_request_id ≡ s.event_request_id
      → s'.waiting ≡ s.waiting
      → s'.current_events ≡ s.current_events
      → IsUpToDate (load_page page s')
  unfolding load_page event_params
  load_page-IsUpToDate overview s s' p h e w c =
      rw (e, w, c)
        (record {
          asked = ((omega arith, λ _ _. refl), AllFit-later _ _ _ s.waiting h.asked);
          shown = ShownFits-later _ _ _ s.current_events h.shown;
        })
  load_page-IsUpToDate interfaces s s' p h e w c = away s s' (ground (arith, p)) h e w c
  load_page-IsUpToDate settings s s' p h e w c = away s s' (ground (arith, p)) h e w c

  drop-IsUpToDate : (r : Request) (s : Listing D) → IsUpToDate s → IsUpToDate (drop_request r s)
  unfolding drop_request event_params
  drop-IsUpToDate r s h = record {
    asked = AllFit-remove _ _ r.id s.waiting h.asked;
    shown = h.shown;
  }

  render-IsUpToDate :
      (i : ℕ) (o : Option Request) (replaced : Bool) (reply : Reply D) (s : Listing D)
      → find_request i s.waiting ≡ o
      → IsUpToDate s
      → IsUpToDate (render_events o replaced reply s)
  unfolding render_events
  render-IsUpToDate i none replaced reply s e h = h
  render-IsUpToDate i (some r) replaced reply s e h =
      elim (Bool-cases (
        not (r.id == s.event_request_id)
        || (if r.by_overview then replaced else contains r.id s.aborted_events))) [
          | inl superseded ↦ rw superseded (drop-IsUpToDate r s h)
          | inr current ↦ rw current (
              unfold drop_request event_params in
              record {
                asked = AllFit-remove _ _ r.id s.waiting h.asked;
                shown = find-Fits _ _ i s.waiting r h.asked e;
              })
        ]

  remove-IsUpToDate :
      (name : Text) (s : Listing D) → IsUpToDate s → IsUpToDate (remove_filter name s)
  unfolding remove_filter
  remove-IsUpToDate name s h =
      elim (Bool-cases (is_empty name || not (has_key (get name s.event_filters)))) [
        | inl stop ↦ rw stop h
        | inr go ↦ rw go (load_events-IsUpToDate s _ h refl refl refl)
      ]

  prev-IsUpToDate : (s : Listing D) → IsUpToDate s → IsUpToDate (page_prev s)
  unfolding page_prev
  prev-IsUpToDate s h = elim (Bool-cases (ltb 1 s.event_page)) [
    | inl go ↦ rw go (load_events-IsUpToDate s _ h refl refl refl)
    | inr stop ↦ rw stop h
  ]

  next-IsUpToDate : (s : Listing D) → IsUpToDate s → IsUpToDate (page_next s)
  unfolding page_next
  next-IsUpToDate s h = elim (Bool-cases (ltb s.event_page s.event_pages)) [
    | inl go ↦ rw go (load_events-IsUpToDate s _ h refl refl refl)
    | inr stop ↦ rw stop h
  ]

  upstream-IsUpToDate :
      (page : Page) (s s' : Listing D)
      → IsUpToDate s
      → s'.event_request_id ≡ s.event_request_id
      → s'.waiting ≡ s.waiting
      → s'.current_events ≡ s.current_events
      → IsUpToDate (show_overview page s')
  unfolding show_overview
  upstream-IsUpToDate overview s s' h e w c = load_events-IsUpToDate s s' h e w c
  upstream-IsUpToDate interfaces s s' h e w c = load_page-IsUpToDate overview s _ refl h e w c
  upstream-IsUpToDate settings s s' h e w c = load_page-IsUpToDate overview s _ refl h e w c

  open-IsUpToDate : (page : Page) (s : Listing D) → IsUpToDate s → IsUpToDate (open_page page s)
  unfolding open_page
  open-IsUpToDate page s h = elim (Bool-cases (same_page page s.page)) [
    | inl same ↦ rw same h
    | inr other ↦ rw other (load_page-IsUpToDate page s _ refl h refl refl refl)
  ]

  fail-IsUpToDate :
      (o : Option Request) (s : Listing D) → IsUpToDate s → IsUpToDate (fail_events o s)
  unfolding fail_events
  fail-IsUpToDate none s h = h
  fail-IsUpToDate (some r) s h = drop-IsUpToDate r s h

  act-IsUpToDate : (a : Action D) (s : Listing D) → IsUpToDate s → IsUpToDate (act a s)
  unfolding act submit_filters reset_filters apply_health_drilldown clear_health_drilldown
      drilldown_upstream activate_range set_event_filter_form
  act-IsUpToDate (Action.submit form) s h = load_events-IsUpToDate s _ h refl refl refl
  act-IsUpToDate Action.reset s h = load_events-IsUpToDate s _ h refl refl refl
  act-IsUpToDate (Action.remove name) s h = remove-IsUpToDate name s h
  act-IsUpToDate Action.prev s h = prev-IsUpToDate s h
  act-IsUpToDate Action.next s h = next-IsUpToDate s h
  act-IsUpToDate (Action.health from to has_failures) s h =
      load_events-IsUpToDate s _ h refl refl refl
  act-IsUpToDate Action.clear_health s h = load_events-IsUpToDate s _ h refl refl refl
  act-IsUpToDate (Action.upstream key) s h = upstream-IsUpToDate s.page s _ h refl refl refl
  act-IsUpToDate (Action.preset range) s h = load_page-IsUpToDate s.page s _ refl h refl refl refl
  act-IsUpToDate (Action.custom from to) s h = load_page-IsUpToDate s.page s _ refl h refl refl refl
  act-IsUpToDate (Action.show_page page) s h = open-IsUpToDate page s h
  act-IsUpToDate Action.refresh s h = load_page-IsUpToDate s.page s _ refl h refl refl refl
  act-IsUpToDate Action.hide s h =
      unfold hide_page event_params in record { asked = h.asked; shown = h.shown }
  act-IsUpToDate (Action.respond i replaced reply) s h =
      render-IsUpToDate i (find_request i s.waiting) replaced reply s refl h
  act-IsUpToDate (Action.fail i) s h = fail-IsUpToDate (find_request i s.waiting) s h

  ShownFits-bound :
      (last : ℕ) (Want : Params → Type 0) (o : Option (Request × D))
      → ShownFits last Want o
      → shown_id o ≤ last
  ShownFits-bound last Want none h = omega arith
  ShownFits-bound last Want (some (r, d)) h = h.0

  -- Whatever is done to a list that is up to date, and in whatever order its responses come, it
  -- stays so: no request is newer than `eventRequestID`, and on the overview the request with that
  -- number asked for the filters, the page and the range of now, whether it is waiting or its
  -- events are shown. And events that are shown are never replaced by those of an older request.
  pub act_all-IsUpToDate :
      (actions : List (Action D)) (s : Listing D)
      → IsUpToDate s
      → IsUpToDate (act_all actions s)
        × (shown_id s.current_events ≤ shown_id (act_all actions s).current_events)
  unfolding act_all
  act_all-IsUpToDate [] s h = (h, omega arith)
  act_all-IsUpToDate (a ∷ actions) s h =
      let step = act-newer a s (ShownFits-bound _ _ s.current_events h.shown) in
      let (later, rest) = act_all-IsUpToDate actions (act a s) (act-IsUpToDate a s h) in
      (later, omega arith)
