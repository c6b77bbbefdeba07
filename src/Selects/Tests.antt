-- ===== src/Selects/Tests.antt =====
-- The lists after concrete clicks, and the theorems at them.
use cpa_keeper_dashboard.Prelude.{◌≡◌, refl, true, false, List, [], ◌∷◌}
use cpa_keeper_dashboard.Prelude.Text.{Text, codes, text_eq}
use cpa_keeper_dashboard.Selects.{
  Choice, Select, all_label, find_choice, Click, clicks, click, click_trigger, close_all, update_at,
  sync_options, mark_choices, fill_select, set_value, click_button, pick_button, range_all,
}
use cpa_keeper_dashboard.Selects.Labels.{AllLabelled, clicks-AllLabelled}

-- A select with the option 全部, as the page has it at first.
abbrev untouched : Select
untouched = record {
  value = [];
  options = record { value = []; text = all_label } ∷ [];
  label = all_label;
  buttons = [];
  is_open = false;
}

abbrev gpt : Choice
gpt = record { value = codes "gpt"; text = codes "GPT" }

-- A model is picked, and the other list is opened.
abbrev pick_model : List Click
pick_model = Click.fill 1 (gpt ∷ []) ∷ Click.trigger 1 ∷ Click.button 1 1 ∷ Click.trigger 0 ∷ []

abbrev labels : List Select → List Text
labels [] = []
labels (s ∷ ss) = s.label ∷ labels ss

picked : labels (clicks pick_model (untouched ∷ untouched ∷ [])) ≡ all_label ∷ codes "GPT" ∷ []
unfolding clicks click click_trigger close_all update_at sync_options mark_choices fill_select
    set_value find_choice click_button pick_button
picked = refl

-- Where a range is activated then, the label is left as it was and the value is not.
stale :
    clicks (Click.range ∷ []) (record untouched { value = codes "gpt"; label = codes "GPT" } ∷ [])
    ≡ record untouched { label = codes "GPT" } ∷ []
unfolding clicks click range_all set_value find_choice
stale = refl

untouched-AllLabelled : AllLabelled true (untouched ∷ untouched ∷ [])
unfolding find_choice
untouched-AllLabelled = (
  record { valued = refl; labelled = λ _. refl; offered = tt },
  (record { valued = refl; labelled = λ _. refl; offered = tt }, tt),
)

clicks-AllLabelled_example : AllLabelled true (clicks pick_model (untouched ∷ untouched ∷ []))
clicks-AllLabelled_example =
    clicks-AllLabelled pick_model true (untouched ∷ untouched ∷ []) untouched-AllLabelled
