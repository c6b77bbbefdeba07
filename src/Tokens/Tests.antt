-- ===== src/Tokens/Tests.antt =====
-- A composition with a cache, and a cell that is clicked twice.
use cpa_keeper_dashboard.Prelude.{◌≡◌, refl, true, false, none, some, List, [], ◌∷◌}
use cpa_keeper_dashboard.Prelude.Floats.{Tenths, tenths}
use cpa_keeper_dashboard.Tokens.{
  TokenCounts, token_parts, regular_input, regular_output, input, output, cache_read, cache_write,
  reasoning, Model, saving_percentage, total_cost,
}
use cpa_keeper_dashboard.Tokens.Pinned.{
  DetailCell, Tips, TipEvent, mouse_over, mouse_out, clicked, in_cell, elsewhere, click_place,
  over_health, leave_health, others_hide, health_over, health_leave, tip_event, tip_events,
}
use cpa_keeper_dashboard.Tokens.Pins.{IsConsistent, tip_events-IsConsistent, health_leave-pinned}

abbrev counts : TokenCounts
counts = record {
  input = 70;
  output = 30;
  cache_read = 40;
  cache_write = 10;
  reasoning = 5;
  total = 0;
}

parts :
    token_parts counts
    ≡ (input, 20) ∷ (cache_read, 40) ∷ (cache_write, 10) ∷ (output, 25) ∷ (reasoning, 5) ∷ []
unfolding token_parts regular_input regular_output
parts = refl

abbrev model : Model Tenths
model = record { cost = some 30; saved_cost = some 10; costs = none }

percentage : saving_percentage {F = Tenths} (total_cost none (model ∷ [])) (some 10) ≡ some 200
unfolding saving_percentage total_cost
percentage = refl

abbrev cost_cell : DetailCell
cost_cell = record { id = 1; is_cost = true }

abbrev token_cell : DetailCell
token_cell = record { id = 2; is_cost = false }

abbrev no_tips : Tips
no_tips = record {
  pinned_trigger = none;
  is_visible = false;
  content = none;
  pinned_marks = [];
  active_token_item = none;
  has_hover = false;
  active_index = none;
}

abbrev visit : List TipEvent
visit = mouse_out (in_cell cost_cell) elsewhere ∷ mouse_over (in_cell token_cell) ∷ []

-- Over the health grid while a cell is pinned, and then another cell is pinned.
abbrev visits : List TipEvent
visits =
    clicked (in_cell cost_cell) ∷ over_health ∷ leave_health ∷ clicked (in_cell token_cell) ∷ visit

clicked_twice :
    (tip_events (clicked (in_cell cost_cell) ∷ clicked (in_cell cost_cell) ∷ []) no_tips).is_visible
    ≡ false
unfolding tip_events tip_event click_place
clicked_twice = refl

tip_events-IsConsistent_example : IsConsistent true (tip_events visits no_tips)
tip_events-IsConsistent_example = tip_events-IsConsistent visits true no_tips refl

abbrev to_the_token_cell : List TipEvent
to_the_token_cell = mouse_over (in_cell token_cell) ∷ others_hide ∷ []

abbrev pinned_tips : Tips
pinned_tips = record no_tips { pinned_trigger = some cost_cell; is_visible = true }

health_leave-pinned_example :
    ((tip_events to_the_token_cell (health_leave (health_over pinned_tips))).is_visible ≡ false)
    × ((tip_events to_the_token_cell (health_leave (health_over pinned_tips))).pinned_trigger
        ≡ some cost_cell)
health_leave-pinned_example =
    health_leave-pinned to_the_token_cell pinned_tips cost_cell (refl, (refl, tt)) refl
