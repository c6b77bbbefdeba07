-- ===== src/Calendar/MonthTests.antt =====
-- Runs of the months that the range picker shows.
use cpa_keeper_dashboard.Prelude.{ℕ, ◌≡◌, refl, inl, none, some, List, [], ◌∷◌, arith, length}
use cpa_keeper_dashboard.Dates.{
  fields_of, date_utc, make_day, locate, span, year_length, month_length, is_leap,
}
use cpa_keeper_dashboard.Calendar.Months.{
  back, forward, utc_month, shift_month, sort_days, insert_day, begin_months, shift_all,
  month_markup, day_buttons, is_day,
}
use cpa_keeper_dashboard.Calendar.Shown.{Reaches, shift_all-Reaches}

abbrev days : List ℕ
days = 20240110 ∷ 20231230 ∷ 20240305 ∷ []

begins : (begin_months none days).month ≡ some 202402
unfolding begin_months sort_days insert_day shift_month utc_month fields_of date_utc make_day locate
    span year_length month_length is_leap
begins = refl

-- The year that ends, and a year below 100.
year_ends : shift_month back 202401 ≡ 202312
unfolding shift_month utc_month fields_of date_utc make_day locate span year_length month_length
    is_leap
year_ends = refl

early_year : shift_month forward 5006 ≡ 195007
unfolding shift_month utc_month fields_of date_utc make_day locate span year_length month_length
    is_leap
early_year = refl

leap_month :
    ((month_markup days none none 202402).0 ≡ 4)
    × (length (month_markup days none none 202402).1 ≡ 29)
unfolding month_markup day_buttons is_day fields_of date_utc make_day locate span year_length
    month_length is_leap
leap_month = (refl, refl)

shift_all-Reaches_example :
    Reaches
      (sort_days days)
      (shift_all (back ∷ back ∷ forward ∷ []) (begin_months (some 20240110) days)).month
shift_all-Reaches_example =
    shift_all-Reaches (back ∷ back ∷ forward ∷ []) (some 20240110) days (ground arith) (inl refl)
