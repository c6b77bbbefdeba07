-- ===== src/Calendar/Tests.antt =====
-- The picker after concrete gestures, and the theorems at them.
use cpa_keeper_dashboard.Prelude.{◌≡◌, refl, true, false, none, some, List, [], ◌∷◌, arith}
use cpa_keeper_dashboard.Prelude.Text.{codes}
use cpa_keeper_dashboard.Calendar.{
  to_side, Calendar, Gesture, gestures, submit_form, apply_disabled, has_day,
}
use cpa_keeper_dashboard.Calendar.Summary.{range_summary, end_of, submit_form-range_summary}
use cpa_keeper_dashboard.Dates.{
  china_input_to_millis, parse_input, checked_utc, same_fields, parse_date, four, expect, two,
  parse_seconds, at_end, fields_of, locate, date_utc, make_day, span, year_length, month_length,
}
use cpa_keeper_dashboard.Prelude.Int.{◌-ℤ◌}
use cpa_keeper_dashboard.Session.State.{Page}
use cpa_keeper_dashboard.Calendar.Ranges.{IsRanged, gestures-IsRanged}

abbrev picker : Calendar
picker = record {
  days = codes "2026-01-02" ∷ codes "2026-01-05" ∷ [];
  from = codes "2026-01-05";
  to = [];
  editing = to_side;
  request_id = 1;
  loading = false;
  form_hidden = false;
  error_hidden = true;
  from_time = codes "00:00:00";
  to_time = codes "23:59:59";
  range = codes "24h";
  custom_range = none;
}

-- An earlier day is picked as the last one, which begins a new range; the range is submitted once
-- it has an end.
abbrev backwards : List Gesture
backwards =
    Gesture.pick (codes "2026-01-02")
    ∷ Gesture.submit
    ∷ Gesture.pick (codes "2026-01-05")
    ∷ Gesture.submit
    ∷ []

picker-IsRanged : IsRanged picker
picker-IsRanged e = absurd (ground arith)

gestures-IsRanged_example : IsRanged (gestures (λ _. none) backwards picker)
gestures-IsRanged_example = gestures-IsRanged (λ _. none) backwards picker picker-IsRanged

abbrev applied : Calendar
applied = record picker {
  from = codes "2026-01-02";
  to = codes "2026-01-05";
  from_time = codes "00:00:00";
  to_time = codes "23:59:59";
}

submit_form-range_summary_example : range_summary Page.overview (submit_form applied) ≡ record {
  hidden = false;
  label = some (
    end_of (codes "2026-01-02") (codes "00:00:00"),
    end_of (codes "2026-01-05") (codes "23:59:59"),
  );
}
unfolding apply_disabled has_day china_input_to_millis parse_input checked_utc same_fields
    parse_date four expect two parse_seconds at_end fields_of locate date_utc make_day span
    year_length month_length ◌-ℤ◌
submit_form-range_summary_example = submit_form-range_summary Page.overview applied refl
