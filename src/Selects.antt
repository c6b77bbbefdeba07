-- ===== src/Selects.antt =====
-- The drop-down lists of the event filters (go/dashboard/app.js): `initCustomSelects`,
-- `closeAllCustomSelects`, `syncCustomSelectOptions` and `fillSelect`. A select has been wrapped, as
-- `initCustomSelects` does at the start; its markup and attributes are left out.
pub mod Labels
pub mod Opening
mod Tests
use cpa_keeper_dashboard.Prelude.{
  ℕ, zero, suc, Bool, true, false, ◌||◌, not, Option, none, some, List, [], ◌∷◌, if◌then◌else◌,
  get_elem?, set,
}
use cpa_keeper_dashboard.Prelude.Interface.{◌===◌}
use cpa_keeper_dashboard.Prelude.Text.{Text, text_eq}
use cpa_keeper_dashboard.Session.State.{is_empty}

-- An option element: its value and its text.
pub record Choice : Type 0 where
  pub value : Text
  pub text : Text

-- A select with its wrapper: the trigger's label, and the dropdown with a button for each choice,
-- which is marked if it is the selected one.
pub record Select : Type 0 where
  pub value : Text
  pub options : List Choice
  pub label : Text
  pub buttons : List (Choice × Bool)
  pub is_open : Bool

-- The text 全部, for no choice.
abbrev pub all_label : Text
all_label = 0x5168 ∷ 0x90e8 ∷ []

unfoldable pub find_choice : Text → List Choice → Option Choice
find_choice value [] = none
find_choice value (c ∷ cs) = if c.value === value then some c else find_choice value cs

abbrev pub first_choice : List Choice → Option Choice
first_choice [] = none
first_choice (c ∷ cs) = some c

abbrev pub or_choice : Option Choice → Option Choice → Option Choice
or_choice none other = other
or_choice (some c) other = some c

abbrev pub choice_text : Option Choice → Text
choice_text none = all_label
choice_text (some c) = c.text

unfoldable pub mark_choices : Text → List Choice → List (Choice × Bool)
mark_choices value [] = []
mark_choices value (c ∷ cs) = (c, c.value === value) ∷ mark_choices value cs

-- `syncCustomSelectOptions`
unfoldable pub sync_options : Select → Select
sync_options s = record s {
  label = choice_text (or_choice (find_choice s.value s.options) (first_choice s.options));
  buttons = mark_choices s.value s.options;
}

-- `text || '全部'`
abbrev pub or_all : Text → Text
or_all text = if is_empty text then all_label else text

abbrev pub selected_text : Option Choice → Text
selected_text none = all_label
selected_text (some c) = or_all c.text

-- The wrapper that `initCustomSelects` puts around a select: no button, and closed.
unfoldable pub init_select : Text → List Choice → Select
init_select value options = record {
  value = value;
  options = options;
  label = selected_text (find_choice value options);
  buttons = [];
  is_open = false;
}

abbrev pub has_choice : Option Choice → Bool
has_choice none = false
has_choice (some c) = true

-- `select.value = value` in the browser: a value of no option leaves none selected.
unfoldable pub set_value : Text → Select → Select
set_value value s = record s {
  value = if has_choice (find_choice value s.options) then value else [];
}

-- `fillSelect`
unfoldable pub fill_select : List Choice → Select → Select
fill_select items s =
    sync_options
      (set_value s.value (record s { options = record { value = []; text = all_label } ∷ items }))

unfoldable pub close_all : List Select → List Select
close_all [] = []
close_all (s ∷ ss) = record s { is_open = false } ∷ close_all ss

-- One select of the page, where there is one with that number.
unfoldable pub update_at : ℕ → (Select → Select) → List Select → List Select
update_at i f [] = []
update_at zero f (s ∷ ss) = f s ∷ ss
update_at (suc i) f (s ∷ ss) = s ∷ update_at i f ss

abbrev pub is_open_at : Option Select → Bool
is_open_at none = false
is_open_at (some s) = s.is_open

-- A click on a trigger.
unfoldable pub click_trigger : ℕ → List Select → List Select
click_trigger i ss =
    if is_open_at (get_elem? ss i)
    then close_all ss
    else update_at i (λ s. record (sync_options s) { is_open = true }) (close_all ss)

-- A click on a button of a dropdown: `textContent || '全部'`.
unfoldable pub pick_button : Option (Choice × Bool) → Select → Select
pick_button none s = s
pick_button (some (c, marked)) s = record (set_value c.value s) { label = or_all c.text }

unfoldable pub click_button : ℕ → ℕ → List Select → List Select
click_button i j ss = close_all (update_at i (λ s. pick_button (get_elem? s.buttons j) s) ss)

-- What the reset of the filters does to each select, after the event.
unfoldable pub reset_select : Select → Select
reset_select s = sync_options (record (set_value [] s) { label = all_label })

unfoldable pub reset_all : List Select → List Select
reset_all [] = []
reset_all (s ∷ ss) = reset_select s ∷ reset_all ss

-- What `activateRange` does to each select: the form is reset, and no label is synchronised.
unfoldable pub range_all : List Select → List Select
range_all [] = []
range_all (s ∷ ss) = set_value [] s ∷ range_all ss

pub data Click : Type 0 where
  trigger : ℕ → Click
  button : ℕ → ℕ → Click
  outside : Click
  escape : Click
  reset : Click
  range : Click  -- that activates a range
  fill : ℕ → List Choice → Click  -- the choices that a response brings
  field : ℕ → Text → Click  -- the value that a filter sets

unfoldable pub click : Click → List Select → List Select
click (Click.trigger i) ss = click_trigger i ss
click (Click.button i j) ss = click_button i j ss
click Click.outside ss = close_all ss
click Click.escape ss = close_all ss
click Click.reset ss = reset_all ss
click Click.range ss = range_all ss
click (Click.fill i items) ss = update_at i (fill_select items) ss
click (Click.field i value) ss = update_at i (λ s. sync_options (set_value value s)) ss

unfoldable pub clicks : List Click → List Select → List Select
clicks [] ss = ss
clicks (c ∷ cs) ss = clicks cs (click c ss)
