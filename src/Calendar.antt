-- ===== src/Calendar.antt =====
-- The picker of a custom range (go/dashboard/app.js): `bindRange`, `loadCalendarDays`,
-- `updateCalendarSelection` and the range part of `activateRange`. The months that are shown
-- stand in Calendar/Months.antt.
pub mod Ranges
pub mod Months
pub mod Shifts
pub mod Shown
pub mod Summary
pub mod Picking
mod MonthTests
mod Tests
use cpa_keeper_dashboard.Prelude.{
  ℕ, ◌+◌, Bool, true, false, ◌&&◌, ◌||◌, not, Option, none, some, List, [], ◌∷◌, ◌++◌, ◌==◌, ltb,
  if◌then◌else◌,
}
use cpa_keeper_dashboard.Prelude.Int.{ℤ, pos, ltb_ℤ, ◌+ℤ◌}
use cpa_keeper_dashboard.Prelude.Interface.{◌===◌}
use cpa_keeper_dashboard.Prelude.Text.{Text, codes, text_eq, text_lt, slice}
use cpa_keeper_dashboard.Session.State.{is_empty}
use cpa_keeper_dashboard.Dates.{china_input_to_millis, china_millis_to_input, is_calendar_day}

pub data Side : Type 0 where
  from_side to_side : Side

pub record Calendar : Type 0 where
  pub days : List Text
  pub from : Text
  pub to : Text
  pub editing : Side
  pub request_id : ℕ
  pub loading : Bool
  pub form_hidden : Bool
  pub error_hidden : Bool
  pub from_time : Text
  pub to_time : Text
  pub range : Text
  pub custom_range : Option (ℤ × ℤ)

-- `Set.has`
unfoldable pub has_day : Text → List Text → Bool
has_day day [] = false
has_day day (d ∷ days) = d === day || has_day day days

-- `a > b`
abbrev pub later : ℤ → ℤ → Bool
later a b = ltb_ℤ b a

-- `hideCustomRangeForm`
unfoldable pub hide_form : Calendar → Calendar
hide_form c = record c { request_id = c.request_id + 1; form_hidden = true; error_hidden = true }

-- `activateRange`, the range and the picker.
unfoldable pub activate : Text → Calendar → Calendar
activate range c = hide_form (record c { range = range })

-- `loadCalendarDays` up to its wait.
unfoldable pub load_days : Calendar → Calendar
load_days c = record c {
  request_id = c.request_id + 1;
  loading = true;
  days = [];
  error_hidden = true;
}

abbrev pub start_editing : Text → Text → Side
start_editing from to = if not (is_empty from) && is_empty to then to_side else from_side

-- The picker on the range that is shown: the days and the times of it, or none and the whole day.
unfoldable pub fill_form : Option (ℤ × ℤ) → Calendar → Calendar
fill_form none c = record c {
  from = [];
  to = [];
  editing = from_side;
  from_time = codes "00:00:00";
  to_time = codes "23:59:59";
}
fill_form (some (f, t)) c =
    let from = slice 0 10 (china_millis_to_input f) in
    let to = slice 0 10 (china_millis_to_input t) in
    record c {
      from = from;
      to = to;
      editing = start_editing from to;
      from_time = slice 11 19 (china_millis_to_input f);
      to_time = slice 11 19 (china_millis_to_input t);
    }

-- A click on the button for a custom range.
unfoldable pub toggle_form : Calendar → Calendar
toggle_form c =
    if c.form_hidden
    then load_days (
        fill_form (if c.range === codes "custom" then c.custom_range else none)
          (record c { form_hidden = false }))
    else hide_form c

unfoldable pub edit_side : Side → Calendar → Calendar
edit_side side c = record c { editing = side; error_hidden = true }

unfoldable pub set_time : Side → Text → Calendar → Calendar
set_time from_side time c = record c { from_time = time; error_hidden = true }
set_time to_side time c = record c { to_time = time; error_hidden = true }

unfoldable pub choose_day : Side → Text → Calendar → Calendar
choose_day from_side value c = record c {
  from = value;
  to = if not (is_empty c.to) && text_lt c.to value then [] else c.to;
  editing = to_side;
  error_hidden = true;
}
choose_day to_side value c =
    if not (is_empty c.from) && text_lt value c.from
    then record c { from = value; to = []; error_hidden = true }
    else record c { to = value; error_hidden = true }

-- A click on a day.
unfoldable pub pick_day : Text → Calendar → Calendar
pick_day value c = if not (has_day value c.days) then c else choose_day c.editing value c

-- The time of a day and a time of day in the form.
abbrev pub form_millis : Text → Text → Option ℤ
form_millis day time = china_input_to_millis (day ++ codes "T" ++ time)

-- Whether the days may not be submitted, without their times.
abbrev pub is_unready : Calendar → Bool
is_unready c = c.loading || not (has_day c.from c.days) || not (has_day c.to c.days)

abbrev pub is_no_range : Option ℤ → Option ℤ → Bool
is_no_range none to = true
is_no_range (some f) none = true
is_no_range (some f) (some t) = later f t

-- Whether `updateCalendarSelection` disables the button that applies the range.
unfoldable pub apply_disabled : Calendar → Bool
apply_disabled c =
    is_unready c || is_no_range (form_millis c.from c.from_time) (form_millis c.to c.to_time)

unfoldable pub set_range : Option ℤ → Option ℤ → Calendar → Calendar
set_range none to c = record c { error_hidden = false }
set_range (some f) none c = record c { error_hidden = false }
set_range (some f) (some t) c =
    if later f t
    then record c { error_hidden = false }
    else activate (codes "custom")
        (record c { error_hidden = true; custom_range = some (f, t +ℤ pos 999) })

-- The submit of the form.
unfoldable pub submit_form : Calendar → Calendar
submit_form c =
    if is_unready c
    then c
    else set_range (form_millis c.from c.from_time) (form_millis c.to c.to_time) c

module _ (parse_illegal : Text → Option ℕ) where
  unfoldable pub calendar_days : List Text → List Text
  calendar_days [] = []
  calendar_days (d ∷ ds) =
      let rest = calendar_days ds in if is_calendar_day parse_illegal d then d ∷ rest else rest

  -- `loadCalendarDays` after its wait; none is an error.
  unfoldable pub days_loaded : ℕ → Option (List Text) → Calendar → Calendar
  days_loaded id none c =
      if id == c.request_id then record c { loading = false; error_hidden = true } else c
  days_loaded id (some result) c =
      let days = calendar_days result in
      if id == c.request_id
      then record c {
        days = days;
        from = if has_day c.from days then c.from else [];
        to = if has_day c.to days then c.to else [];
        loading = false;
        error_hidden = true;
      }
      else c

pub data Gesture : Type 0 where
  toggle : Gesture
  hide : Gesture
  edit : Side → Gesture
  time : Side → Text → Gesture
  pick : Text → Gesture
  submit : Gesture
  loaded : ℕ → Option (List Text) → Gesture
  preset : Text → Gesture

module _ (parse_illegal : Text → Option ℕ) where
  -- The buttons of the presets are the others than the one for a custom range.
  unfoldable pub gesture : Gesture → Calendar → Calendar
  gesture Gesture.toggle c = toggle_form c
  gesture Gesture.hide c = hide_form c
  gesture (Gesture.edit side) c = edit_side side c
  gesture (Gesture.time side text) c = set_time side text c
  gesture (Gesture.pick value) c = pick_day value c
  gesture Gesture.submit c = submit_form c
  gesture (Gesture.loaded id result) c = days_loaded parse_illegal id result c
  gesture (Gesture.preset range) c =
      if range === codes "custom" then toggle_form c else activate range c

  unfoldable pub gestures : List Gesture → Calendar → Calendar
  gestures [] c = c
  gestures (g ∷ gs) c = gestures gs (gesture g c)
