-- ===== src/Prices/PickerTests.antt =====
-- A run of the picker of models.
use cpa_keeper_dashboard.Prelude.{ℕ, ◌≡◌, refl, true, false, none, List, [], ◌∷◌, ◌++◌}
use cpa_keeper_dashboard.Prelude.OrdMap.{get, put}
use cpa_keeper_dashboard.Prelude.Text.{Text, codes, trim, trim_start, trim_end}
use cpa_keeper_dashboard.Errors.{includes}
use cpa_keeper_dashboard.Prices.Picker.{
  Requested, configured, selectable, Picker, put_known, put_shown, insert_requested, sort_values,
  requested_models, once, has_text, configured_elsewhere, model_of, picker_buttons, click_picker,
  select_model, clone_row, find_row, hidden_rows,
}
use cpa_keeper_dashboard.Prices.Picking.{AllApart, select_model-AllApart}

abbrev same : Text → Text
same t = t

abbrev table : Picker ℕ
table = record {
  rows =
      record { id = 0; model = codes "gpt"; prices = 1 }
      ∷ record { id = 1; model = codes ""; prices = 2 }
      ∷ [];
  next_id = 2;
  is_open = false;
  row = none;
  buttons = [];
}

abbrev requested : List Requested
requested =
    record { name = codes "o3"; requests = 9 } ∷ record { name = codes "gpt"; requests = 4 } ∷ []

by_requests :
    requested_models same
      (record { name = codes "gpt"; requests = 4 } ∷ [])
      (record { name = codes " o3 "; requests = 9 } ∷ [])
      (codes "gpt" ∷ [])
    ≡ requested
unfolding requested_models once put_known put_shown put get sort_values insert_requested trim
    trim_start trim_end
by_requests = refl

shown_buttons :
    (click_picker same requested 1 table).buttons
    ≡ (selectable, codes "o3") ∷ (configured, codes "gpt") ∷ []
unfolding click_picker picker_buttons model_of configured_elsewhere has_text trim trim_start
    trim_end
shown_buttons = refl

copied :
    (clone_row same 0 table).rows
    ≡ table.rows ++ (record { id = 2; model = codes "gpt-copy"; prices = 1 } ∷ [])
unfolding clone_row find_row
copied = refl

filtered : hidden_rows same (codes " g") table.rows ≡ false ∷ true ∷ []
unfolding hidden_rows includes trim trim_start trim_end
filtered = refl

select_model-AllApart_example :
    AllApart same 1 (codes "o3") (select_model same 0 (click_picker same requested 1 table)).rows
select_model-AllApart_example = select_model-AllApart same requested 1 0 (codes "o3") table refl (
    unfold click_picker picker_buttons model_of configured_elsewhere has_text trim trim_start
      trim_end in
    refl)
