-- ===== src/Distributions/Marks.antt =====
-- What the pointer and the focus leave over the cards: the tooltip and the marks agree.
use cpa_keeper_dashboard.Prelude.{
  ℕ, ◌+◌, ◌≡◌, Bool, ◌≤◌, refl, Bool-cases, inl, inr, true, false, Option, none, some, List, [],
  ◌∷◌, if◌then◌else◌, arith,
}
use cpa_keeper_dashboard.Distributions.Hover.{
  Element, Hover, is_item, plain_card, marked, activate_item, clear_card, Place, at_item, at_card,
  outside, place_card, is_card, leave_card, leave_item, on_item, HoverEvent, mouse_over, focus_in,
  press_enter, press_escape, mouse_out, focus_out, render_distributions, others_show, others_hide,
  hover_event, hover_events,
}

-- While the cards are those that the active item is in, its card is marked for it; and where the
-- tooltip is still theirs, it is shown for the active item and for no other.
pub record Shows (own : Bool) (h : Hover) (item : Element) : Type 0 where
  pub mark : h.rendering ≡ item.rendering → h.cards item.card ≡ marked item
  pub made : item.rendering ≤ h.rendering
  pub content : own ≡ true → h.tooltip_content ≡ some item
  pub visible : own ≡ true → h.tooltip_visible ≡ true

abbrev pub IsShown : Bool → Hover → Option Element → Type 0
IsShown own h none = own ≡ true → h.tooltip_visible ≡ false
IsShown own h (some item) = Shows own h item

abbrev pub IsConsistent : Bool → Hover → Type 0
IsConsistent own h = IsShown own h h.active_item

-- Whether the tooltip is still the cards': where the pointer leaves an item, and where Escape is
-- pressed on one, they hide it.
abbrev pub stands : HoverEvent → Bool → Bool
stands (mouse_out (at_item c i r) (at_card d)) own = true
stands (mouse_out (at_item c i r) outside) own = true
stands (press_escape (at_item c i r)) own = true
stands others_show own = false
stands others_hide own = false
stands _ own = own

abbrev pub stands_all : List HoverEvent → Bool → Bool
stands_all [] own = own
stands_all (e ∷ es) own = stands_all es (stands e own)

clear_card-IsConsistent : (own : Bool) (card : ℕ) (h : Hover) → IsConsistent own (clear_card card h)
unfolding clear_card
clear_card-IsConsistent own card h = λ _. refl

activate_item-IsConsistent :
    (own : Bool) (item : Element) (h : Hover)
    → item.rendering ≡ h.rendering
    → IsConsistent own h
    → IsConsistent own (activate_item item h)
unfolding activate_item
activate_item-IsConsistent own item h e i = elim (Bool-cases (is_item h.active_item item)) [
  | inl same ↦ rw same i
  | inr other ↦ rw other (record {
    mark = λ _. ground arith;
    made = omega arith;
    content = λ _. refl;
    visible = λ _. refl;
  })
]

leave_card-IsConsistent :
    (own : Bool) (target related : Place) (h : Hover)
    → IsConsistent own h
    → IsConsistent own (leave_card target related h)
unfolding leave_card
leave_card-IsConsistent own target related h k = by_card target
  where
    left :
        (card : ℕ)
        → IsConsistent own (if is_card card (place_card related) then h else clear_card card h)
    left card = elim (Bool-cases (is_card card (place_card related))) [
      | inl inside ↦ rw inside k
      | inr out ↦ rw out (clear_card-IsConsistent own card h)
    ]

    by_card : (target : Place) → IsConsistent own (leave_card target related h)
    by_card (at_item card i r) = left card
    by_card (at_card card) = left card
    by_card outside = k

leave_item-IsConsistent :
    (own : Bool) (target related : Place) (h : Hover)
    → IsConsistent own h
    → IsConsistent (stands (mouse_out target related) own) (leave_item target related h)
unfolding leave_item
leave_item-IsConsistent own (at_item c i r) (at_item d j q) h k = k
leave_item-IsConsistent own (at_item c i r) (at_card d) h k = λ _. refl
leave_item-IsConsistent own (at_item c i r) outside h k = λ _. refl
leave_item-IsConsistent own (at_card c) related h k = k
leave_item-IsConsistent own outside related h k = k

on_item-IsConsistent :
    (own : Bool) (target : Place) (h : Hover)
    → IsConsistent own h
    → IsConsistent own (on_item activate_item target h)
on_item-IsConsistent own (at_item c i r) h k = activate_item-IsConsistent own _ h refl k
on_item-IsConsistent own (at_card c) h k = k
on_item-IsConsistent own outside h k = k

render-IsShown :
    (own : Bool) (h : Hover) (o : Option Element)
    → IsShown own h o
    → IsShown own (record h { rendering = h.rendering + 1; cards = λ card. plain_card }) o
render-IsShown own h none k = k
render-IsShown own h (some item) k = record {
  mark = λ e. absurd (omega (arith, k.made));
  made = omega (arith, k.made);
  content = k.content;
  visible = k.visible;
}

-- A listener that writes the tooltip and no more.
overwritten_lem :
    (own : Bool) (h g : Hover) (o : Option Element)
    → g.rendering ≡ h.rendering
    → g.cards ≡ h.cards
    → IsShown own h o
    → IsShown false g o
overwritten_lem own h g none r c k = λ e. absurd (ground (arith, e))
overwritten_lem own h g (some item) r c k = record {
  mark = λ e. rw c (k.mark (omega (arith, r, e)));
  made = omega (arith, k.made, r);
  content = λ e. absurd (ground (arith, e));
  visible = λ e. absurd (ground (arith, e));
}

hover_event-IsConsistent :
    (e : HoverEvent) (own : Bool) (h : Hover)
    → IsConsistent own h
    → IsConsistent (stands e own) (hover_event e h)
unfolding hover_event
hover_event-IsConsistent (mouse_over target) own h k = on_item-IsConsistent own target h k
hover_event-IsConsistent (focus_in target) own h k = on_item-IsConsistent own target h k
hover_event-IsConsistent (press_enter target) own h k = on_item-IsConsistent own target h k
hover_event-IsConsistent (press_escape (at_item c i r)) own h k = clear_card-IsConsistent true c h
hover_event-IsConsistent (press_escape (at_card c)) own h k = k
hover_event-IsConsistent (press_escape outside) own h k = k
hover_event-IsConsistent (mouse_out target related) own h k =
    leave_card-IsConsistent _ target related _ (leave_item-IsConsistent own target related h k)
hover_event-IsConsistent (focus_out target related) own h k =
    leave_card-IsConsistent own target related h k
hover_event-IsConsistent render_distributions own h k = render-IsShown own h h.active_item k
hover_event-IsConsistent others_show own h k = overwritten_lem own h _ h.active_item refl refl k
hover_event-IsConsistent others_hide own h k = overwritten_lem own h _ h.active_item refl refl k

-- After any events, those of the other listeners of the tooltip among them, from any consistent state:
-- while an item is active its card, unless it has been drawn anew, is marked for that item and no
-- other. And the tooltip is visible with the active item, hidden where none is active, unless another
-- listener has shown or hidden it after the pointer last left the items or Escape was last pressed on
-- one.
pub hover_events-IsConsistent :
    (es : List HoverEvent) (own : Bool) (h : Hover)
    → IsConsistent own h
    → IsConsistent (stands_all es own) (hover_events es h)
unfolding hover_events
hover_events-IsConsistent [] own h k = k
hover_events-IsConsistent (e ∷ es) own h k =
    hover_events-IsConsistent es (stands e own) (hover_event e h)
      (hover_event-IsConsistent e own h k)
