-- ===== src/Dates/Tests.antt =====
-- Dates at concrete values, and the theorems at them.
use cpa_keeper_dashboard.Prelude.{◌≡◌, refl, true, none, some, ◌&&◌, leb, if◌then◌else◌}
use cpa_keeper_dashboard.Prelude.Int.{pos, negsuc, ◌-ℤ◌}
use cpa_keeper_dashboard.Prelude.Interface.{◌===◌}
use cpa_keeper_dashboard.Prelude.Text.{Text, codes}
use cpa_keeper_dashboard.Dates.{
  long_year, four, expect, two, parse_seconds, at_end, checked_utc, same_fields, fields_of, locate,
  make_day, month_length, parsed_day, shows, parse_day, legal_date, iso_date, span, year_length,
  china_input_to_millis, is_calendar_day, parse_input, parse_date, legal, date_utc, to_millis,
  china_offset_ms, ◌>>=◌,
}
use cpa_keeper_dashboard.Dates.China.{china_input_to_millis_lem}

epoch : span year_length 0 1970 ≡ 719_528
unfolding span year_length
epoch = refl

abbrev new_year : Text
new_year = codes "2026-01-01T00:00"

new_year_in_utc : china_input_to_millis new_year ≡ some (pos 1_767_196_800_000)
unfolding china_input_to_millis parse_input parse_date four expect two parse_seconds at_end
    checked_utc same_fields fields_of locate date_utc make_day span year_length month_length ◌-ℤ◌
new_year_in_utc = refl

no_such_day : china_input_to_millis (codes "2026-02-30T00:00:00") ≡ none
unfolding china_input_to_millis parse_input parse_date four expect two parse_seconds at_end
    checked_utc same_fields fields_of locate date_utc make_day span year_length month_length ◌-ℤ◌
no_such_day = refl

before_epoch_there : china_input_to_millis (codes "1970-01-01T00:00:00") ≡ some (negsuc 28_799_999)
unfolding china_input_to_millis parse_input parse_date four expect two parse_seconds at_end
    checked_utc same_fields fields_of locate date_utc make_day span year_length month_length ◌-ℤ◌
before_epoch_there = refl

leap_day : is_calendar_day (λ _. none) (codes "2024-02-29") ≡ true
unfolding is_calendar_day parsed_day shows parse_day legal_date parse_date four expect two fields_of
    locate make_day span year_length month_length iso_date long_year ◌===◌
leap_day = refl

china_input_to_millis_lem_example : china_input_to_millis new_year ≡ (
    parse_input new_year >>= λ f.
    if leb 1970 f.year && legal f
    then some (to_millis (date_utc f) -ℤ pos china_offset_ms)
    else none)
china_input_to_millis_lem_example = china_input_to_millis_lem new_year
