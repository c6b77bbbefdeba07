-- ===== src/Distributions/Hover.antt =====
-- The pointer and the focus over the cards (`bindDistributionInteractivity`). A segment or a row is
-- known by the rendering that made it, its card and its index; a rendering makes new cards, and only
-- what it made gets events. The listeners of the health grid, the tokens and the provider chart write
-- the same tooltip; what they write to it is an event here.
use cpa_keeper_dashboard.Prelude.{
  ℕ, ◌+◌, Bool, true, false, ◌&&◌, Option, none, some, List, [], ◌∷◌, ◌==◌, if◌then◌else◌, not,
}

pub record Element : Type 0 where
  pub rendering : ℕ
  pub card : ℕ
  pub index : ℕ
  pub is_row : Bool

-- Of a card: its class has-hover, the index of the elements that are is-active, and the element
-- whose name and share stand in the middle of the ring.
pub record Card : Type 0 where
  pub has_hover : Bool
  pub active_index : Option ℕ
  pub center : Option Element

pub record Hover : Type 0 where
  pub active_item : Option Element
  pub rendering : ℕ
  pub cards : ℕ → Card
  pub tooltip_visible : Bool
  pub tooltip_content : Option Element  -- none where it is not an item's

abbrev same_bool : Bool → Bool → Bool
same_bool true b = b
same_bool false b = not b

abbrev pub same_element : Element → Element → Bool
same_element a b =
    a.rendering == b.rendering
    && a.card == b.card
    && a.index == b.index
    && same_bool a.is_row b.is_row

abbrev pub is_item : Option Element → Element → Bool
is_item none b = false
is_item (some a) b = same_element a b

abbrev pub update : (ℕ → Card) → ℕ → Card → ℕ → Card
update cards k c j = if j == k then c else cards j

abbrev pub plain_card : Card
plain_card = record { has_hover = false; active_index = none; center = none }

abbrev pub marked : Element → Card
marked item = record { has_hover = true; active_index = some item.index; center = some item }

unfoldable pub activate_item : Element → Hover → Hover
activate_item item h = if is_item h.active_item item then h else record h {
  active_item = some item;
  cards = update h.cards item.card (marked item);
  tooltip_visible = true;
  tooltip_content = some item;
}

unfoldable pub clear_card : (card : ℕ) → Hover → Hover
clear_card card h = record h {
  active_item = none;
  cards = update h.cards card plain_card;
  tooltip_visible = false;
}

-- Where the target of an event is: in a segment or a row, in the rest of a card, or elsewhere.
pub data Place : Type 0 where
  at_item : (card index : ℕ) → (is_row : Bool) → Place
  at_card : (card : ℕ) → Place
  outside : Place

-- `closest('.distribution-card')`
abbrev pub place_card : Place → Option ℕ
place_card (at_item card index is_row) = some card
place_card (at_card card) = some card
place_card outside = none

abbrev pub is_card : ℕ → Option ℕ → Bool
is_card c none = false
is_card c (some d) = c == d

-- `if (card && !card.contains(event.relatedTarget)) clear_card(card)`
unfoldable pub leave_card : (target related : Place) → Hover → Hover
unfolding clear_card
leave_card target related h = elim (place_card target) [
  | none ↦ h
  | some card ↦ if is_card card (place_card related) then h else clear_card card h
]

abbrev pub hide_tooltip : Hover → Hover
hide_tooltip h = record h { active_item = none; tooltip_visible = false }

unfoldable pub leave_item : (target related : Place) → Hover → Hover
leave_item (at_item c i r) (at_item d j q) h = h
leave_item (at_item c i r) (at_card d) h = hide_tooltip h
leave_item (at_item c i r) outside h = hide_tooltip h
leave_item (at_card c) related h = h
leave_item outside related h = h

-- What acts on `closest('.donut-segment, .distribution-row')`, where there is one
abbrev pub on_item : (Element → Hover → Hover) → Place → Hover → Hover
on_item act (at_item card index is_row) h =
    act (record { rendering = h.rendering; card = card; index = index; is_row = is_row }) h
on_item act (at_card card) h = h
on_item act outside h = h

pub data HoverEvent : Type 0 where
  mouse_over focus_in press_enter press_escape : Place → HoverEvent
  mouse_out focus_out : (target related : Place) → HoverEvent
  render_distributions : HoverEvent
  others_show others_hide : HoverEvent  -- the other listeners that write the same tooltip

unfoldable pub hover_event : HoverEvent → Hover → Hover
unfolding activate_item clear_card leave_card leave_item
hover_event (mouse_over target) h = on_item activate_item target h
hover_event (focus_in target) h = on_item activate_item target h
hover_event (press_enter target) h = on_item activate_item target h
hover_event (press_escape target) h = on_item (λ item. clear_card item.card) target h
hover_event (mouse_out target related) h = leave_card target related (leave_item target related h)
hover_event (focus_out target related) h = leave_card target related h
hover_event render_distributions h = record h {
  rendering = h.rendering + 1;
  cards = λ card. plain_card;
}
hover_event others_show h = record h { tooltip_visible = true; tooltip_content = none }
hover_event others_hide h = record h { tooltip_visible = false }

unfoldable pub hover_events : List HoverEvent → Hover → Hover
unfolding hover_event
hover_events [] h = h
hover_events (e ∷ es) h = hover_events es (hover_event e h)

abbrev pub no_hover : Hover
no_hover = record {
  active_item = none;
  rendering = 0;
  cards = λ card. plain_card;
  tooltip_visible = false;
  tooltip_content = none;
}
