-- ===== src/Tooltip/Placing.antt =====
-- The tooltip follows the pointer: at most one frame is to come, and it is for the last position.
use cpa_keeper_dashboard.Prelude.{
  suc, ◌≡◌, refl, sym, ap, ◌∙◌, not, Option, none, some, List, [], ◌∷◌, ◌++◌, ◌==◌, ==_iff, arith,
  ◌⊎◌, inl, inr,
}
use cpa_keeper_dashboard.Prelude.Floats.{Floats, ◌≼◌, IsNumber, IsOrdered}
use cpa_keeper_dashboard.Prelude.Sorting.{filter}
use cpa_keeper_dashboard.Tooltip.{
  Pointer, Placement, Tooltip, TooltipEvent, position, frame, least_left, greatest_left, placement,
  position_tooltip, run_placements, tooltip_event, tooltip_events,
}

-- The position that is asked for last.
abbrev pub last_of : {F : Type 0} → List (TooltipEvent F) → Option (Pointer F) → Option (Pointer F)
last_of [] last = last
last_of (position p ∷ es) last = last_of es (some p)
last_of (frame ∷ es) last = last_of es last

module _ {F : Type 0} ⦃f : Floats F⦄ (inner_width : F) where
  abbrev pub place_of : Option (Pointer F) → Option (Placement F)
  place_of none = none
  place_of (some p) = some (placement inner_width p)

  -- Either no frame is to come and the tooltip is placed for the last position, or the one frame that is
  -- to come places it so.
  abbrev pub Follows : Tooltip F → Option (Pointer F) → Type 0
  Follows t last =
      ((t.requested ≡ []) × (t.place ≡ place_of last))
      ⊎ ((p : Pointer F) × (t.requested ≡ (t.raf_id, p) ∷ []) × (last ≡ some p))

  dropped :
      (t : Tooltip F) (last : Option (Pointer F))
      → Follows t last
      → filter (λ r. not (r.0 == t.raf_id)) t.requested ≡ []
  dropped t last (inl (e, k)) = ap (filter (λ r. not (r.0 == t.raf_id))) e
  dropped t last (inr (p, e, k)) =
      ap (filter (λ r. not (r.0 == t.raf_id))) e ∙ ground (arith, ==_iff t.raf_id t.raf_id)

  position-Follows :
      (p : Pointer F) (t : Tooltip F) (last : Option (Pointer F))
      → Follows t last
      → Follows (position_tooltip inner_width p t) (some p)
  unfolding position_tooltip
  position-Follows p t last h =
      inr (p, ap (λ rs. rs ++ ((suc t.last_request, p) ∷ [])) (dropped t last h), refl)

  frame-Follows :
      (t : Tooltip F) (last : Option (Pointer F))
      → Follows t last
      → Follows (tooltip_event inner_width frame t) last
  unfolding tooltip_event
  frame-Follows t last (inl (e, k)) =
      inl (refl, ap (λ rs. run_placements inner_width rs t.place) e ∙ k)
  frame-Follows t last (inr (p, e, k)) =
      inl (refl, ap (λ rs. run_placements inner_width rs t.place) e ∙ ap place_of (sym k))

  -- However often the pointer moves, and whenever the browser paints: at most one frame is to come, it is
  -- for the position that was asked for last, and with no frame to come the tooltip is placed for that
  -- position.
  pub tooltip_events-Follows :
      (es : List (TooltipEvent F)) (t : Tooltip F) (last : Option (Pointer F))
      → Follows t last
      → Follows (tooltip_events inner_width es t) (last_of es last)
  unfolding tooltip_events tooltip_event
  tooltip_events-Follows [] t last h = h
  tooltip_events-Follows (position p ∷ es) t last h =
      tooltip_events-Follows es (position_tooltip inner_width p t) (some p)
        (position-Follows p t last h)
  tooltip_events-Follows (frame ∷ es) t last h =
      tooltip_events-Follows es _ last (frame-Follows t last h)

module _ {F : Type 0} ⦃f : Floats F⦄ ⦃o : IsOrdered F⦄ (inner_width : F) where
  -- Where the window is wide enough for both margins, the tooltip keeps to them, wherever the pointer is,
  -- if no number is NaN.
  pub placement-margins :
      (p : Pointer F)
      → IsNumber p.client_x
      → IsNumber (least_left inner_width)
      → IsNumber (greatest_left inner_width)
      → least_left inner_width ≼ greatest_left inner_width
      → (least_left inner_width ≼ (placement inner_width p).left)
        × ((placement inner_width p).left ≼ greatest_left inner_width)
  unfolding placement
  placement-margins p x l g wide =
      (o.le_max _ _ l (o.min-IsNumber _ _ g x), o.max_le _ _ _ wide (o.min_le _ _ g x))
