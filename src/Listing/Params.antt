-- ===== src/Listing/Params.antt =====
-- The parameters of a request, and the filters and pages that they are made of.
use mathlib.Core.Path.{subst}
use cpa_keeper_dashboard.Prelude.{
  ℕ, ◌≤◌, ◌≡◌, refl, Bool, true, false, ◌||◌, not, Option, none, some, List, [], ◌∷◌, ltb,
  if◌then◌else◌, arith, Bool-cases, inl, inr, ◌∙◌,
}
use cpa_keeper_dashboard.Prelude.OrdMap.{
  OrdMap, get, put, delete, get-put, HasDistinctKeys, put-HasDistinctKeys, delete-HasDistinctKeys,
}
use cpa_keeper_dashboard.Prelude.Text.{Text, codes, text_eq}
use cpa_keeper_dashboard.Prelude.Interface.{◌===◌}
use cpa_keeper_dashboard.Session.State.{Page, overview, interfaces, settings, is_empty, same_page}
use cpa_keeper_dashboard.Listing.{
  Param, text, count, Params, Request, Reply, Listing, Action, event_params, load_events, load_page,
  set_event_filter_form, submit_filters, reset_filters, remove_filter, page_prev, page_next,
  apply_health_drilldown, clear_health_drilldown, show_overview, drilldown_upstream, activate_range,
  drop_request, render_events, fail_events, open_page, hide_page, act_all, act, assign, filled,
  has_key, active_range_params, base_params, as_params, params_of,
}

-- Every filter has a value.
abbrev pub AllFilled : OrdMap Text Text → Type 0
AllFilled [] = Unit
AllFilled ((k, v) ∷ m) = (is_empty v ≡ false) × AllFilled m

put-AllFilled :
    (k v : Text) (m : OrdMap Text Text) → is_empty v ≡ false → AllFilled m → AllFilled (put k v m)
unfolding put
put-AllFilled k v [] e h = (e, tt)
put-AllFilled k v ((j, w) ∷ m) e (f, h) = elim (Bool-cases (j === k)) [
  | inl same ↦ rw same (e, h)
  | inr other ↦ rw other (f, put-AllFilled k v m e h)
]

delete-AllFilled : (k : Text) (m : OrdMap Text Text) → AllFilled m → AllFilled (delete k m)
unfolding delete
delete-AllFilled k [] h = h
delete-AllFilled k ((j, w) ∷ m) (f, h) = elim (Bool-cases (j === k)) [
  | inl same ↦ rw same (delete-AllFilled k m h)
  | inr other ↦ rw other (f, delete-AllFilled k m h)
]

-- What the list is filtered by: values that are not empty, one for each name, and a page.
pub record IsFiltered {D : Type 0} (s : Listing D) : Type 0 where
  pub valued : AllFilled s.event_filters
  pub single : HasDistinctKeys s.event_filters
  pub paged : 1 ≤ s.event_page

assign-filled :
    (entries : List (Text × Text)) (m : OrdMap Text Text)
    → AllFilled m
    → HasDistinctKeys m
    → AllFilled (assign (filled entries) m) × HasDistinctKeys (assign (filled entries) m)
unfolding assign filled
assign-filled [] m h d = (h, d)
assign-filled ((k, v) ∷ entries) m h d = elim (Bool-cases (is_empty v)) [
  | inl empty ↦ rw empty (assign-filled entries m h d)
  | inr value ↦ rw value (
      assign-filled entries (put k v m) (put-AllFilled k v m value h) (put-HasDistinctKeys k v m d))
]

-- A filter of that name, else what stands there.
abbrev pub or_filter : Option Text → Option Param → Option Param
or_filter none p = p
or_filter (some v) p = some (text v)

get-assign :
    (k : Text) (filters : OrdMap Text Text) (base : Params)
    → HasDistinctKeys filters
    → get k (assign (as_params filters) base) ≡ or_filter (get k filters) (get k base)
unfolding assign as_params get
get-assign k [] base d = refl
get-assign k ((j, v) ∷ m) base (a, d) = elim (Bool-cases (j === k)) [
  | inl same ↦
      let e : j ≡ k = (text_eq.beq_iff j k).0 same in
      let absent : get k m ≡ none = subst (λ i. get i m ≡ none) e a in
      rw same (
        get-assign k m (put j (text v) base) d
        ∙ (rw (absent, get-put j k (text v) base, same) refl))
  | inr other ↦
      rw other
        (get-assign k m (put j (text v) base) d ∙ (rw (get-put j k (text v) base, other) refl))
]

module _ {D : Type 0} where
  -- The parameters of a request for events: under each name the filter of that name, and where
  -- there is none the page, the page size 25, or the health slot's range or else the range shown.
  pub event_params_lem :
      (k : Text) (s : Listing D)
      → IsFiltered s
      → get k (event_params s)
        ≡ or_filter (get k s.event_filters) (
            if codes "page_size" === k
            then some (text (codes "25"))
            else if codes "page" === k
            then some (count s.event_page)
            else get k (base_params s.health_filter (active_range_params s.range s.custom_range)))
  unfolding event_params params_of
  event_params_lem k s h =
      get-assign k s.event_filters _ h.single
      ∙ (rw (get-put (codes "page_size") k, get-put (codes "page") k) refl)

  loaded-IsFiltered : (s : Listing D) → IsFiltered s → IsFiltered (load_events s)
  unfolding load_events
  loaded-IsFiltered s h = record { valued = h.valued; single = h.single; paged = h.paged }

  page-IsFiltered : (page : Page) (s : Listing D) → IsFiltered s → IsFiltered (load_page page s)
  unfolding load_page
  page-IsFiltered overview s h = record { valued = h.valued; single = h.single; paged = h.paged }
  page-IsFiltered interfaces s h = h
  page-IsFiltered settings s h = h

  set-IsFiltered :
      (entries : List (Text × Text)) (s : Listing D)
      → s.event_filters ≡ assign (filled entries) []
      → s.event_page ≡ 1
      → IsFiltered s
  set-IsFiltered entries s f p =
      let (v, d) = assign-filled entries [] tt tt in
      record { valued = rw f v; single = rw f d; paged = omega arith }

  show-IsFiltered : (page : Page) (s : Listing D) → IsFiltered s → IsFiltered (show_overview page s)
  unfolding show_overview
  show-IsFiltered overview s h = loaded-IsFiltered s h
  show-IsFiltered interfaces s h =
      page-IsFiltered overview _ (record { valued = h.valued; single = h.single; paged = h.paged })
  show-IsFiltered settings s h =
      page-IsFiltered overview _ (record { valued = h.valued; single = h.single; paged = h.paged })

  remove-IsFiltered :
      (name : Text) (s : Listing D) → IsFiltered s → IsFiltered (remove_filter name s)
  unfolding remove_filter
  remove-IsFiltered name s h =
      elim (Bool-cases (is_empty name || not (has_key (get name s.event_filters)))) [
        | inl stop ↦ rw stop h
        | inr go ↦ rw go (
            loaded-IsFiltered _ (record {
              valued = delete-AllFilled name s.event_filters h.valued;
              single = delete-HasDistinctKeys name s.event_filters h.single;
              paged = omega arith;
            }))
      ]

  turn-IsFiltered :
      (test : Bool) (page : ℕ) (s : Listing D)
      → IsFiltered s
      → (test ≡ true → 1 ≤ page)
      → IsFiltered (if test then load_events (record s { event_page = page }) else s)
  turn-IsFiltered true page s h p =
      loaded-IsFiltered _ (record { valued = h.valued; single = h.single; paged = p refl })
  turn-IsFiltered false page s h p = h

  open-IsFiltered : (page : Page) (s : Listing D) → IsFiltered s → IsFiltered (open_page page s)
  unfolding open_page
  open-IsFiltered page s h = elim (Bool-cases (same_page page s.page)) [
    | inl same ↦ rw same h
    | inr other ↦
        rw other (
          page-IsFiltered page _ (record { valued = h.valued; single = h.single; paged = h.paged }))
  ]

  drop-IsFiltered : (r : Request) (s : Listing D) → IsFiltered s → IsFiltered (drop_request r s)
  unfolding drop_request
  drop-IsFiltered r s h = record { valued = h.valued; single = h.single; paged = h.paged }

  render-IsFiltered :
      (o : Option Request) (replaced : Bool) (reply : Reply D) (s : Listing D)
      → IsFiltered s
      → IsFiltered (render_events o replaced reply s)
  unfolding render_events drop_request
  render-IsFiltered none replaced reply s h = h
  render-IsFiltered (some r) replaced reply s h = ground (arith, drop-IsFiltered r s h)

  fail-IsFiltered :
      (o : Option Request) (s : Listing D) → IsFiltered s → IsFiltered (fail_events o s)
  unfolding fail_events
  fail-IsFiltered none s h = h
  fail-IsFiltered (some r) s h = drop-IsFiltered r s h

  act-IsFiltered : (a : Action D) (s : Listing D) → IsFiltered s → IsFiltered (act a s)
  unfolding act submit_filters reset_filters apply_health_drilldown clear_health_drilldown
      drilldown_upstream activate_range set_event_filter_form page_prev page_next
  act-IsFiltered (Action.submit form) s h = loaded-IsFiltered _ (set-IsFiltered form _ refl refl)
  act-IsFiltered Action.reset s h =
      loaded-IsFiltered _ (record { valued = tt; single = tt; paged = omega arith })
  act-IsFiltered (Action.remove name) s h = remove-IsFiltered name s h
  act-IsFiltered Action.prev s h = turn-IsFiltered (ltb 1 s.event_page) _ s h (λ e. ground arith)
  act-IsFiltered Action.next s h =
      turn-IsFiltered (ltb s.event_page s.event_pages) _ s h (λ e. omega arith)
  act-IsFiltered (Action.health from to has_failures) s h =
      loaded-IsFiltered _ (set-IsFiltered _ _ refl refl)
  act-IsFiltered Action.clear_health s h = loaded-IsFiltered _ (set-IsFiltered _ _ refl refl)
  act-IsFiltered (Action.upstream key) s h = show-IsFiltered s.page _ (set-IsFiltered _ _ refl refl)
  act-IsFiltered (Action.preset range) s h =
      page-IsFiltered s.page _ (record { valued = tt; single = tt; paged = omega arith })
  act-IsFiltered (Action.custom from to) s h =
      page-IsFiltered s.page _ (record { valued = tt; single = tt; paged = omega arith })
  act-IsFiltered (Action.show_page page) s h = open-IsFiltered page s h
  act-IsFiltered Action.refresh s h = page-IsFiltered s.page s h
  act-IsFiltered Action.hide s h =
      unfold hide_page in record { valued = h.valued; single = h.single; paged = h.paged }
  act-IsFiltered (Action.respond i replaced reply) s h = render-IsFiltered _ replaced reply s h
  act-IsFiltered (Action.fail i) s h = fail-IsFiltered _ s h

  -- Whatever is done to a list whose filters are named once, each with a value that is not empty,
  -- and whose page is at least 1, these stay so.
  pub act_all-IsFiltered :
      (actions : List (Action D)) (s : Listing D) → IsFiltered s → IsFiltered (act_all actions s)
  unfolding act_all
  act_all-IsFiltered [] s h = h
  act_all-IsFiltered (a ∷ actions) s h = act_all-IsFiltered actions (act a s) (act-IsFiltered a s h)
