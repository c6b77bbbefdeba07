-- ===== src/Drawer.antt =====
-- The detail drawer (go/dashboard/app.js): `openUpstream`, cut at its request, `openEventDetail`,
-- `closeDrawer` and `bindDrawer`. What is rendered in it is a value; elements that have the focus or
-- open the drawer are known by numbers.
pub mod Current
mod Tests
use cpa_keeper_dashboard.Prelude.{
  ℕ, ◌+◌, Bool, true, false, ◌&&◌, ◌||◌, not, Option, none, some, List, [], ◌∷◌, ◌==◌,
  if◌then◌else◌,
}
use cpa_keeper_dashboard.Prelude.Text.{Text}
use cpa_keeper_dashboard.Session.State.{abort, contains}

-- What the drawer shows: nothing yet, that an upstream is loading, the upstream, an event, or that
-- the loading failed.
pub data Content (D : Type 0) : Type 0 where
  empty : Content D
  loading : Text → Content D
  upstream : Text → D → Content D
  event : D → Content D
  load_failed : Content D

-- A call of `openUpstream` that is waiting.
pub record Opening : Type 0 where
  pub id : ℕ
  pub key : Text

-- How its request ends.
pub data Answer (D : Type 0) : Type 0 where
  body : D → Answer D
  aborted : Answer D
  failed : Answer D

pub record Drawer (D : Type 0) : Type 0 where
  pub is_open : Bool
  pub inert : Bool
  pub content : Content D
  pub request_id : ℕ
  pub controller : Option ℕ
  pub aborted_ids : List ℕ
  pub openings : List Opening
  pub return_focus : Option ℕ
  pub focus : ℕ

-- The button `detail-close`.
abbrev pub close_button : ℕ
close_button = 0

unfoldable pub find_opening : ℕ → List Opening → Option Opening
find_opening i [] = none
find_opening i (o ∷ os) = if o.id == i then some o else find_opening i os

unfoldable pub remove_opening : ℕ → List Opening → List Opening
remove_opening i [] = []
remove_opening i (o ∷ os) = let rest = remove_opening i os in if o.id == i then rest else o ∷ rest

abbrev pub focus_after : Bool → Option ℕ → ℕ → ℕ
focus_after true (some trigger) focus = trigger
focus_after _ _ focus = focus

module _ {D : Type 0} where
  -- `openUpstream` up to its request.
  unfoldable pub open_upstream : Text → ℕ → Drawer D → Drawer D
  open_upstream key trigger s = record s {
    aborted_ids = abort s.controller s.aborted_ids;
    request_id = s.request_id + 1;
    controller = some (s.request_id + 1);
    return_focus = some trigger;
    inert = false;
    is_open = true;
    content = loading key;
    focus = close_button;
    openings = record { id = s.request_id + 1; key = key } ∷ s.openings;
  }

  -- `requestID !== state.drawerRequestID || controller.signal.aborted`
  abbrev pub is_stale : Opening → Drawer D → Bool
  is_stale o s = not (o.id == s.request_id) || contains o.id s.aborted_ids

  unfoldable pub show_answer : Opening → Answer D → Drawer D → Drawer D
  show_answer o (body d) s = if is_stale o s then s else record s { content = upstream o.key d }
  show_answer o aborted s = s
  show_answer o failed s = if is_stale o s then s else record s { content = load_failed }

  -- The rest of `openUpstream`, with its `finally` block.
  unfoldable pub finish_upstream : Option Opening → Answer D → Drawer D → Drawer D
  finish_upstream none a s = s
  finish_upstream (some o) a s =
      let s' = show_answer o a (record s { openings = remove_opening o.id s.openings }) in
      if o.id == s'.request_id then record s' { controller = none } else s'

  unfoldable pub open_event_detail : D → ℕ → Drawer D → Drawer D
  open_event_detail d trigger s = record s {
    aborted_ids = abort s.controller s.aborted_ids;
    controller = none;
    request_id = s.request_id + 1;
    return_focus = some trigger;
    inert = false;
    is_open = true;
    focus = close_button;
    content = event d;
  }

  -- `closeDrawer`, where the element that opened it is still on the page.
  unfoldable pub close : Bool → Drawer D → Drawer D
  close restore_focus s = record s {
    aborted_ids = abort s.controller s.aborted_ids;
    controller = none;
    request_id = s.request_id + 1;
    is_open = false;
    inert = true;
    return_focus = none;
    focus = focus_after restore_focus s.return_focus s.focus;
  }

  -- What `activateRange` does with the drawer.
  unfoldable pub range_changed : Drawer D → Drawer D
  range_changed s = close false (record s {
    aborted_ids = abort s.controller s.aborted_ids;
    controller = none;
    request_id = s.request_id + 1;
  })

  -- A click on a button that names an upstream.
  unfoldable pub click_upstream : Text → ℕ → Drawer D → Drawer D
  click_upstream [] trigger s = s
  click_upstream (c ∷ key) trigger s = open_upstream (c ∷ key) trigger s

  unfoldable pub press_escape : Drawer D → Drawer D
  press_escape s = if s.is_open then close true s else s

pub data Use (D : Type 0) : Type 0 where
  click_on : Text → ℕ → Use D
  detail : D → ℕ → Use D
  close_click : Use D
  escape : Use D
  leave : Use D  -- navigation and the drill-down
  change_range : Use D
  answer : ℕ → Answer D → Use D
  move_focus : ℕ → Use D

module _ {D : Type 0} where
  unfoldable pub use_drawer : Use D → Drawer D → Drawer D
  use_drawer (Use.click_on key trigger) s = click_upstream key trigger s
  use_drawer (Use.detail d trigger) s = open_event_detail d trigger s
  use_drawer Use.close_click s = close true s
  use_drawer Use.escape s = press_escape s
  use_drawer Use.leave s = close false s
  use_drawer Use.change_range s = range_changed s
  use_drawer (Use.answer i a) s = finish_upstream (find_opening i s.openings) a s
  use_drawer (Use.move_focus element) s = record s { focus = element }

  unfoldable pub use_all : List (Use D) → Drawer D → Drawer D
  use_all [] s = s
  use_all (u ∷ us) s = use_all us (use_drawer u s)
