-- ===== src/Calendar/Months.antt =====
-- The months that the range picker shows (go/dashboard/app.js): `shiftMonth`, the buttons of
-- `renderCalendars`, and the month that `loadCalendarDays` begins with. A text 2024-02-29 or 2024-02
-- stands here as the number of its digits, 20240229 or 202402; the order is the same. A month after
-- the year 9999, whose text +010000 comes before every other, is 0; that shifting
-- from it throws is left out.
use cpa_keeper_dashboard.Prelude.{
  ℕ, zero, suc, ◌+◌, ◌-◌, ◌*◌, ◌/◌, ◌%◌, Bool, true, false, ◌&&◌, ◌||◌, Option, none, some, List,
  [], ◌∷◌, ltb, ◌==◌, if◌then◌else◌, length,
}
use cpa_keeper_dashboard.Dates.{Fields, date_utc, fields_of}

pub data Direction : Type 0 where
  back forward : Direction

abbrev pub first_day : ℕ → ℕ → Fields
first_day year number = record {
  year = year;
  month = number;
  day = 1;
  hour = 0;
  minute = 0;
  second = 0;
}

-- `new Date(Date.UTC(year, number - 1, 1)).toISOString().slice(0, 7)`
unfoldable pub utc_month : ℕ → ℕ → ℕ
utc_month year number =
    let f = fields_of (date_utc (first_day year number)) in
    if ltb 9999 f.year then 0 else f.year * 100 + f.month

-- `shiftMonth(month, -1)` and `shiftMonth(month, 1)`
unfoldable pub shift_month : Direction → ℕ → ℕ
shift_month back month = utc_month (month / 100) (month % 100 - 1)
shift_month forward month = utc_month (month / 100) (month % 100 + 1)

-- `[...calendar.days].sort()`
unfoldable pub insert_day : ℕ → List ℕ → List ℕ
insert_day d [] = d ∷ []
insert_day d (x ∷ xs) = let rest = insert_day d xs in if ltb x d then x ∷ rest else d ∷ x ∷ xs

unfoldable pub sort_days : List ℕ → List ℕ
sort_days [] = []
sort_days (d ∷ ds) = insert_day d (sort_days ds)

abbrev pub first_or : ℕ → List ℕ → ℕ
first_or z [] = z
first_or z (x ∷ xs) = x

abbrev pub last_or : ℕ → List ℕ → ℕ
last_or z [] = z
last_or z (x ∷ xs) = last_or x xs

pub record Months : Type 0 where
  pub days : List ℕ
  pub month : Option ℕ

-- `previous < first` and `next > last`
unfoldable pub is_disabled : Direction → List ℕ → ℕ → Bool
is_disabled back days month = ltb (shift_month back month) (first_or 0 (sort_days days) / 100)
is_disabled forward days month = ltb (last_or 0 (sort_days days) / 100) (shift_month forward month)

-- `(calendar.from || sorted.at(-1) || '').slice(0, 7)`
abbrev pub month_of : Option ℕ → List ℕ → Option ℕ
month_of (some from) sorted = some (from / 100)
month_of none [] = none
month_of none (x ∷ xs) = some (last_or x xs / 100)

abbrev pub one_back : Bool → Option ℕ → Option ℕ
one_back true (some month) = some (shift_month back month)
one_back _ month = month

-- The month that is shown first; `from` is the day that is chosen, and among the days.
unfoldable pub begin_months : Option ℕ → List ℕ → Months
begin_months from days = record {
  days = days;
  month = one_back (ltb 1 (length days)) (month_of from (sort_days days));
}

-- A click on a button; without days there is none.
unfoldable pub shifted : Direction → List ℕ → Option ℕ → Option ℕ
shifted dir [] month = month
shifted dir (d ∷ ds) none = none
shifted dir (d ∷ ds) (some month) =
    some (if is_disabled dir (d ∷ ds) month then month else shift_month dir month)

unfoldable pub shift_all : List Direction → Months → Months
shift_all [] s = s
shift_all (dir ∷ dirs) s = shift_all dirs (record s { month = shifted dir s.days s.month })

-- `monthMarkup`: the empty places before the first day, and for each day whether it can be chosen,
-- is one of the ends, or lies between them. 1 January of the year 0 is a Saturday.
abbrev pub weekday : ℕ → ℕ
weekday day = (day + 6) % 7

pub record DayButton : Type 0 where
  pub date : ℕ
  pub enabled : Bool
  pub selected : Bool
  pub inside : Bool

unfoldable pub is_day : ℕ → List ℕ → Bool
is_day d [] = false
is_day d (x ∷ xs) = d == x || is_day d xs

abbrev pub is_end : ℕ → Option ℕ → Bool
is_end d none = false
is_end d (some e) = d == e

abbrev pub is_between : ℕ → Option ℕ → Option ℕ → Bool
is_between d (some from) (some to) = ltb from d && ltb d to
is_between d _ _ = false

unfoldable pub day_buttons : List ℕ → Option ℕ → Option ℕ → ℕ → ℕ → ℕ → List DayButton
day_buttons days from to month index zero = []
day_buttons days from to month index (suc count) =
    record {
      date = month * 100 + index + 1;
      enabled = is_day (month * 100 + index + 1) days;
      selected = is_end (month * 100 + index + 1) from || is_end (month * 100 + index + 1) to;
      inside = is_between (month * 100 + index + 1) from to;
    }
    ∷ day_buttons days from to month (index + 1) count

unfoldable pub month_markup : List ℕ → Option ℕ → Option ℕ → ℕ → ℕ × List DayButton
month_markup days from to month = (
  weekday (date_utc (first_day (month / 100) (month % 100)) / 86_400_000),
  day_buttons days from to month 0
      (fields_of (date_utc (record (first_day (month / 100) (month % 100 + 1)) { day = 0 }))).day,
)
