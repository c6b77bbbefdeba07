-- ===== src/Tooltip/Tests.antt =====
-- A pointer that moves twice before the browser paints.
use cpa_keeper_dashboard.Prelude.{◌≡◌, refl, false, none, some, List, [], ◌∷◌, inl}
use cpa_keeper_dashboard.Prelude.Floats.{Tenths, tenths, Tenths-IsOrdered}
use cpa_keeper_dashboard.Tooltip.{
  Pointer, Tooltip, TooltipEvent, position, frame, placement, position_tooltip, tooltip_event,
  tooltip_events,
}
use cpa_keeper_dashboard.Tooltip.Placing.{Follows, last_of, tooltip_events-Follows}

abbrev left_edge : Pointer Tenths
left_edge = record { client_x = some 10; client_y = some 3000 }

abbrev middle : Pointer Tenths
middle = record { client_x = some 5000; client_y = some 3000 }

abbrev nowhere : Tooltip Tenths
nowhere = record { raf_id = 0; requested = []; last_request = 0; place = none }

abbrev moves : List (TooltipEvent Tenths)
moves = position middle ∷ position left_edge ∷ frame ∷ []

placed :
    (tooltip_events {F = Tenths} (some 10000) moves nowhere).place
    ≡ some (record { left = some 1220; top = some 3000; below = false })
unfolding tooltip_events tooltip_event position_tooltip placement
placed = refl

tooltip_events-Follows_example :
    Follows {F = Tenths}
      (some 10000)
      (tooltip_events {F = Tenths} (some 10000) moves nowhere)
      (last_of moves none)
tooltip_events-Follows_example =
    tooltip_events-Follows {F = Tenths} (some 10000) moves nowhere none (inl (refl, refl))
