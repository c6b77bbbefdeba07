-- ===== src/Tokens/Pinned.antt =====
-- The tooltip of the tokens and costs (`bindTokenInteractivity`), which a click pins to a cell. A cell
-- is known by a number, a segment or a card of the composition by its index and which it is. The
-- health grid, the distributions and the provider chart have listeners that write the same tooltip;
-- what they write to it is an event here.
use cpa_keeper_dashboard.Prelude.{
  ℕ, Bool, true, false, ◌&&◌, not, Option, none, some, List, [], ◌∷◌, ◌==◌, if◌then◌else◌,
}

pub record DetailCell : Type 0 where
  pub id : ℕ
  pub is_cost : Bool  -- data-tooltip-type is cost-detail

pub record PartElement : Type 0 where
  pub index : ℕ
  pub is_card : Bool

pub data TipContent : Type 0 where
  token_detail cost_detail : (cell : ℕ) → TipContent
  part_detail : PartElement → TipContent
  health_detail : TipContent  -- of a cell of the health grid
  item_detail segment_detail : (index : ℕ) → TipContent  -- of a distribution, of a provider's bar

pub record Tips : Type 0 where
  pub pinned_trigger : Option DetailCell
  pub is_visible : Bool
  pub content : Option TipContent
  pub pinned_marks : List ℕ  -- the cells whose button is is-pinned
  pub active_token_item : Option PartElement
  pub has_hover : Bool
  pub active_index : Option ℕ

-- Where an event happens, as `closest` and `contains` tell.
pub data Place : Type 0 where
  in_cell : DetailCell → Place
  in_part : PartElement → Place
  in_container in_tooltip elsewhere : Place

abbrev in_composition : Place → Bool
in_composition (in_part p) = true
in_composition in_container = true
in_composition _ = false

abbrev same_bool : Bool → Bool → Bool
same_bool true b = b
same_bool false b = not b

abbrev pub is_part : Option PartElement → PartElement → Bool
is_part none q = false
is_part (some p) q = p.index == q.index && same_bool p.is_card q.is_card

abbrev pub is_cell : Option DetailCell → DetailCell → Bool
is_cell none d = false
is_cell (some c) d = c.id == d.id

abbrev pub is_in_cell : Place → DetailCell → Bool
is_in_cell (in_cell c) d = c.id == d.id
is_in_cell _ d = false

-- `renderTooltipForTrigger`
abbrev pub cell_content : DetailCell → TipContent
cell_content c = if c.is_cost then cost_detail c.id else token_detail c.id

-- The listener of the container, and that of the document.
unfoldable pub container_over : Place → Tips → Tips
container_over (in_part p) t = if is_part t.active_token_item p then t else record t {
  active_token_item = some p;
  has_hover = true;
  active_index = some p.index;
  content = some (part_detail p);
  is_visible = true;
}
container_over _ t = t

unfoldable pub document_over : Place → Tips → Tips
document_over (in_cell c) t = record t { content = some (cell_content c); is_visible = true }
document_over _ t = t

unfoldable pub container_out : (target related : Place) → Tips → Tips
container_out target related t =
    if in_composition target && not (in_composition related)
    then record t {
      active_token_item = none;
      has_hover = false;
      active_index = none;
      is_visible = false;
    }
    else t

unfoldable pub document_out : (target related : Place) → Tips → Tips
document_out (in_cell c) related t =
    if is_in_cell related c then t else record t { is_visible = false }
document_out _ related t = t

abbrev pub by_pin : Option DetailCell → (unpinned pinned : Tips) → Tips
by_pin none t u = t
by_pin (some c) t u = u

abbrev unless_pinned : (Tips → Tips) → Tips → Tips
unless_pinned act t = by_pin t.pinned_trigger (act t) t

abbrev pub unpin : Tips → Tips
unpin t = record t { pinned_trigger = none; pinned_marks = []; is_visible = false }

unfoldable pub click_place : Place → Tips → Tips
click_place (in_cell c) t = if is_cell t.pinned_trigger c then unpin t else record t {
  pinned_trigger = some c;
  pinned_marks = c.id ∷ [];
  content = some (cell_content c);
  is_visible = true;
}
click_place in_tooltip t = t
click_place _ t = by_pin t.pinned_trigger t (unpin t)

-- `bindHealthInteractivity` writes the same tooltip: the pointer over a cell of the health grid, and
-- where it leaves the grid.
unfoldable pub health_over : Tips → Tips
health_over t = record t { content = some health_detail; is_visible = true }

unfoldable pub health_leave : Tips → Tips
health_leave t = record t { is_visible = false }

pub data TipEvent : Type 0 where
  mouse_over clicked : Place → TipEvent
  mouse_out : (target related : Place) → TipEvent
  over_health leave_health : TipEvent
  others_show : TipContent → TipEvent  -- the listeners of the distributions and of the provider chart
  others_hide : TipEvent

unfoldable pub tip_event : TipEvent → Tips → Tips
unfolding container_over document_over container_out document_out click_place health_over
    health_leave
tip_event (mouse_over place) t = unless_pinned (λ t. document_over place (container_over place t)) t
tip_event (mouse_out target related) t =
    unless_pinned (λ t. document_out target related (container_out target related t)) t
tip_event (clicked place) t = click_place place t
tip_event over_health t = health_over t
tip_event leave_health t = health_leave t
tip_event (others_show content) t = record t { content = some content; is_visible = true }
tip_event others_hide t = record t { is_visible = false }

unfoldable pub tip_events : List TipEvent → Tips → Tips
unfolding tip_event
tip_events [] t = t
tip_events (e ∷ es) t = tip_events es (tip_event e t)
