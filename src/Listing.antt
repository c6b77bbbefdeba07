-- ===== src/Listing.antt =====
-- The list of events (go/dashboard/app.js): its filters, its pages, and the requests that fill it.
pub mod Newer
pub mod Current
pub mod Params
pub mod Chips
mod Tests
use cpa_keeper_dashboard.Prelude.{
  ℕ, ◌+◌, ◌-◌, Bool, true, false, ◌&&◌, ◌||◌, not, Option, none, some, List, [], ◌∷◌, ◌==◌, ltb,
  if◌then◌else◌,
}
use cpa_keeper_dashboard.Prelude.Int.{ℤ}
use cpa_keeper_dashboard.Prelude.OrdMap.{OrdMap, get, put, delete}
use cpa_keeper_dashboard.Prelude.Text.{Text, codes, text_eq}
use cpa_keeper_dashboard.Prelude.Interface.{◌===◌}
use cpa_keeper_dashboard.Session.State.{Page, overview, same_page, is_empty, abort, contains}

-- A value of URLSearchParams: a text, or a number that it prints.
pub data Param : Type 0 where
  text : Text → Param
  number : ℤ → Param
  count : ℕ → Param

abbrev pub Params : Type 0
Params = OrdMap Text Param

-- A request for events that is waiting: by `loadEvents`, or by the `loadOverview` that has yet to
-- come to it, in which case the load's own signal guards it.
pub record Request : Type 0 where
  pub id : ℕ
  pub params : Params
  pub by_overview : Bool

-- What `renderEvents` reads of a response for the pages.
pub record Reply (D : Type 0) : Type 0 where
  pub accessible_pages : Option ℕ
  pub pages : Option ℕ
  pub events : D

pub record Listing (D : Type 0) : Type 0 where
  pub page : Page
  pub range : Text
  pub custom_range : ℤ × ℤ
  pub event_page : ℕ
  pub event_pages : ℕ
  pub event_filters : OrdMap Text Text
  pub health_filter : Option (ℤ × ℤ)
  pub banner_hidden : Bool
  pub event_request_id : ℕ
  pub event_controller : Option ℕ
  pub aborted_events : List ℕ
  pub waiting : List Request
  pub current_events : Option (Request × D)  -- with the request that they answer

-- `Object.fromEntries`, into the object that is there.
unfoldable pub assign : {V : Type 0} → List (Text × V) → OrdMap Text V → OrdMap Text V
assign [] m = m
assign ((k, v) ∷ entries) m = assign entries (put k v m)

-- `entries.filter(([, value]) => value)`
unfoldable pub filled : List (Text × Text) → List (Text × Text)
filled [] = []
filled ((k, v) ∷ entries) = let rest = filled entries in if is_empty v then rest else (k, v) ∷ rest

unfoldable pub as_params : OrdMap Text Text → List (Text × Param)
as_params [] = []
as_params ((k, v) ∷ m) = (k, text v) ∷ as_params m

unfoldable pub remove_request : ℕ → List Request → List Request
remove_request i [] = []
remove_request i (r ∷ rs) = let rest = remove_request i rs in if r.id == i then rest else r ∷ rest

unfoldable pub find_request : ℕ → List Request → Option Request
find_request i [] = none
find_request i (r ∷ rs) = if r.id == i then some r else find_request i rs

unfoldable pub get_or_else : {A : Type 0} → Option A → A → A
get_or_else none a = a
get_or_else (some b) a = b

unfoldable pub has_key : Option Text → Bool
has_key none = false
has_key (some _) = true

unfoldable pub active_range_params : Text → ℤ × ℤ → Params
active_range_params range (from, to) =
    if range === codes "custom"
    then (codes "range", text (codes "custom"))
      ∷ (codes "from", number from)
      ∷ (codes "to", number to)
      ∷ []
    else (codes "range", text range) ∷ []

-- The slot of the health grid that the list is confined to, else the range.
unfoldable pub base_params : Option (ℤ × ℤ) → Params → Params
base_params none range_params = range_params
base_params (some (from, to)) range_params =
    (codes "range", text (codes "custom"))
    ∷ (codes "from", number from)
    ∷ (codes "to", number to)
    ∷ []

-- `{ ...base, page, page_size: '25', ...state.eventFilters }`
unfoldable pub params_of : Params → ℕ → OrdMap Text Text → Params
params_of base page filters =
    assign (as_params filters)
      (put (codes "page_size") (text (codes "25")) (put (codes "page") (count page) base))

module _ {D : Type 0} where
  unfoldable pub event_params : Listing D → Params
  event_params s =
      params_of (base_params s.health_filter (active_range_params s.range s.custom_range))
        s.event_page s.event_filters

  -- `loadEvents` up to its wait.
  unfoldable pub load_events : Listing D → Listing D
  load_events s = record s {
    aborted_events = abort s.event_controller s.aborted_events;
    event_request_id = s.event_request_id + 1;
    event_controller = some (s.event_request_id + 1);
    waiting =
        record { id = s.event_request_id + 1; params = event_params s; by_overview = false }
        ∷ s.waiting;
  }

  -- What `loadActivePage` does with the list: on the overview `loadOverview` takes its parameters.
  unfoldable pub load_page : Page → Listing D → Listing D
  load_page overview s = record s {
    aborted_events = abort s.event_controller s.aborted_events;
    event_request_id = s.event_request_id + 1;
    event_controller = none;
    waiting =
        record { id = s.event_request_id + 1; params = event_params s; by_overview = true }
        ∷ s.waiting;
  }
  load_page _ s = s

  -- `setEventFilterForm`, the form's fields left out.
  unfoldable pub set_event_filter_form : List (Text × Text) → Listing D → Listing D
  set_event_filter_form filters s = record s { event_filters = assign (filled filters) [] }

  -- The submit of the filter form.
  unfoldable pub submit_filters : List (Text × Text) → Listing D → Listing D
  submit_filters form s =
      load_events (record s { event_filters = assign (filled form) []; event_page = 1 })

  unfoldable pub reset_filters : Listing D → Listing D
  reset_filters s =
      load_events (record s {
        event_filters = [];
        health_filter = none;
        banner_hidden = true;
        event_page = 1;
      })

  -- The click that removes a chip, which has to be there.
  unfoldable pub remove_filter : Text → Listing D → Listing D
  remove_filter name s =
      if is_empty name || not (has_key (get name s.event_filters))
      then s
      else load_events (record s {
        event_filters = delete name s.event_filters;
        banner_hidden = if name === codes "upstream" then true else s.banner_hidden;
        event_page = 1;
      })

  unfoldable pub page_prev : Listing D → Listing D
  page_prev s =
      if ltb 1 s.event_page then load_events (record s { event_page = s.event_page - 1 }) else s

  unfoldable pub page_next : Listing D → Listing D
  page_next s =
      if ltb s.event_page s.event_pages
      then load_events (record s { event_page = s.event_page + 1 })
      else s

  unfoldable pub apply_health_drilldown : ℤ → ℤ → Bool → Listing D → Listing D
  apply_health_drilldown from to has_failures s = load_events (
      set_event_filter_form ((codes "status", if has_failures then codes "failure" else []) ∷ [])
        (record s { health_filter = some (from, to); event_page = 1; banner_hidden = false }))

  unfoldable pub clear_health_drilldown : Listing D → Listing D
  clear_health_drilldown s =
      load_events
        (record (set_event_filter_form []
          (record s { health_filter = none; banner_hidden = true })) { event_page = 1 })

  unfoldable pub show_overview : Page → Listing D → Listing D
  show_overview overview s = load_events s
  show_overview _ s = load_page overview (record s { page = overview })

  unfoldable pub drilldown_upstream : Text → Listing D → Listing D
  drilldown_upstream key s =
      let s' =
        record (set_event_filter_form ((codes "upstream", key) ∷ [])
          (record s { health_filter = none })) { event_page = 1; banner_hidden = false } in
      show_overview s.page s'

  unfoldable pub activate_range : Text → Listing D → Listing D
  activate_range range s = load_page s.page (record s {
    range = range;
    event_page = 1;
    event_filters = [];
    health_filter = none;
    banner_hidden = true;
  })

  -- What every end of a wait does: the `finally` block of `loadEvents`.
  unfoldable pub drop_request : Request → Listing D → Listing D
  drop_request r s = record s {
    waiting = remove_request r.id s.waiting;
    event_controller =
        if not r.by_overview && r.id == s.event_request_id then none else s.event_controller;
  }

  -- The end of a wait with a response; `replaced` is the guard of the overview's load.
  unfoldable pub render_events : Option Request → Bool → Reply D → Listing D → Listing D
  render_events none replaced reply s = s
  render_events (some r) replaced reply s =
      if not (r.id == s.event_request_id)
        || (if r.by_overview then replaced else contains r.id s.aborted_events)
      then drop_request r s
      else record (drop_request r s) {
        event_pages = get_or_else reply.accessible_pages (get_or_else reply.pages 0);
        current_events = some (r, reply.events);
      }

  -- The end of a wait with an error.
  unfoldable pub fail_events : Option Request → Listing D → Listing D
  fail_events none s = s
  fail_events (some r) s = drop_request r s

  -- A click on a navigation item.
  unfoldable pub open_page : Page → Listing D → Listing D
  open_page page s = if same_page page s.page then s else load_page page (record s { page = page })

  -- The list's part of `handleVisibilityChange` on a page that is hidden.
  unfoldable pub hide_page : Listing D → Listing D
  hide_page s = record s { aborted_events = abort s.event_controller s.aborted_events }

pub data Action (D : Type 0) : Type 0 where
  submit : List (Text × Text) → Action D
  reset : Action D
  remove : Text → Action D
  prev : Action D
  next : Action D
  health : ℤ → ℤ → Bool → Action D
  clear_health : Action D
  upstream : Text → Action D
  preset : Text → Action D
  custom : ℤ → ℤ → Action D
  show_page : Page → Action D
  refresh : Action D
  hide : Action D
  respond : ℕ → Bool → Reply D → Action D
  fail : ℕ → Action D

module _ {D : Type 0} where
  unfoldable pub act : Action D → Listing D → Listing D
  act (Action.submit form) s = submit_filters form s
  act Action.reset s = reset_filters s
  act (Action.remove name) s = remove_filter name s
  act Action.prev s = page_prev s
  act Action.next s = page_next s
  act (Action.health from to has_failures) s = apply_health_drilldown from to has_failures s
  act Action.clear_health s = clear_health_drilldown s
  act (Action.upstream key) s = drilldown_upstream key s
  act (Action.preset range) s = activate_range range s
  act (Action.custom from to) s =
      activate_range (codes "custom") (record s { custom_range = (from, to) })
  act (Action.show_page page) s = open_page page s
  act Action.refresh s = load_page s.page s
  act Action.hide s = hide_page s
  act (Action.respond i replaced reply) s =
      render_events (find_request i s.waiting) replaced reply s
  act (Action.fail i) s = fail_events (find_request i s.waiting) s

  unfoldable pub act_all : List (Action D) → Listing D → Listing D
  act_all [] s = s
  act_all (a ∷ actions) s = act_all actions (act a s)
