-- ===== src/Tooltip.antt =====
-- The place of the floating tooltip (go/dashboard/app.js): `positionFloatingTooltip`, with the
-- browser's animation frames. Requests for a frame are numbered from 1; 0 stands for none.
pub mod Placing
mod Tests
use cpa_keeper_dashboard.Prelude.{
  ℕ, suc, Bool, not, Option, none, some, List, [], ◌∷◌, ◌++◌, ◌==◌, if◌then◌else◌,
}
use cpa_keeper_dashboard.Prelude.Floats.{Floats}
use cpa_keeper_dashboard.Prelude.Sorting.{filter}

pub record Pointer (F : Type 0) : Type 0 where
  pub client_x : F
  pub client_y : F

-- `below` where the tooltip is moved below the pointer, and not above it
pub record Placement (F : Type 0) : Type 0 where
  pub left : F
  pub top : F
  pub below : Bool

pub record Tooltip (F : Type 0) : Type 0 where
  pub raf_id : ℕ
  pub requested : List (ℕ × Pointer F)  -- the frames that the browser is to run, in order
  pub last_request : ℕ
  pub place : Option (Placement F)

pub data TooltipEvent (F : Type 0) : Type 0 where
  position : Pointer F → TooltipEvent F
  frame : TooltipEvent F

module _ {F : Type 0} ⦃f : Floats F⦄ (inner_width : F) where
  -- `halfWidth + 12`, and `window.innerWidth - halfWidth - 12`
  abbrev pub least_left : F
  least_left = f.add (f.literal 110 1) (f.literal 12 1)

  abbrev pub greatest_left : F
  greatest_left = f.sub (f.sub inner_width (f.literal 110 1)) (f.literal 12 1)

  unfoldable pub placement : Pointer F → Placement F
  placement p = record {
    left = f.max least_left (f.min greatest_left p.client_x);
    top = p.client_y;
    below = f.lt p.client_y (f.literal 120 1);
  }

  unfoldable pub position_tooltip : Pointer F → Tooltip F → Tooltip F
  position_tooltip p t = record t {
    raf_id = suc t.last_request;
    requested = filter (λ r. not (r.0 == t.raf_id)) t.requested ++ ((suc t.last_request, p) ∷ []);
    last_request = suc t.last_request;
  }

  -- The frame runs all that it was asked for, in turn.
  abbrev pub run_placements : List (ℕ × Pointer F) → Option (Placement F) → Option (Placement F)
  run_placements [] place = place
  run_placements (r ∷ rs) place = run_placements rs (some (placement r.1))

  unfoldable pub tooltip_event : TooltipEvent F → Tooltip F → Tooltip F
  unfolding position_tooltip placement
  tooltip_event (position p) t = position_tooltip p t
  tooltip_event frame t = record t { requested = []; place = run_placements t.requested t.place }

  unfoldable pub tooltip_events : List (TooltipEvent F) → Tooltip F → Tooltip F
  unfolding tooltip_event
  tooltip_events [] t = t
  tooltip_events (e ∷ es) t = tooltip_events es (tooltip_event e t)
