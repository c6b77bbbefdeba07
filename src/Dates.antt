-- ===== src/Dates.antt =====
-- The dates of go/dashboard/app.js, on texts of the form 2024-02-29T23:59:59, with what the source
-- uses of JavaScript's Date. A time is a count of milliseconds since the start of year 0 (UTC):
-- no earlier time arises. `getTime` and `Date.UTC` count from 1970 and are integers.
pub mod Locate
pub mod Validity
pub mod Texts
pub mod China
pub mod Days
mod Tests
use cpa_keeper_dashboard.Prelude.{
  ℕ, zero, suc, ◌+◌, ◌-◌, ◌*◌, ◌/◌, ◌%◌, Bool, true, false, ◌&&◌, ◌||◌, not, Option, none, some, [],
  ◌∷◌, List, ◌++◌, ltb, leb, ◌==◌, if◌then◌else◌, get_or, length, take,
}
use cpa_keeper_dashboard.Prelude.Int.{ℤ, pos, negsuc, pos_part, neg_part, sub_ℕ, ◌+ℤ◌, ◌-ℤ◌}
use cpa_keeper_dashboard.Prelude.Interface.{◌===◌}
use cpa_keeper_dashboard.Prelude.Text.{Text, text_eq, is_digit, slice}

unfoldable pub is_leap : ℕ → Bool
is_leap y = y % 4 == 0 && (not (y % 100 == 0) || y % 400 == 0)

unfoldable pub year_length : ℕ → ℕ
unfolding is_leap
year_length y = if is_leap y then 366 else 365

-- The months are counted from 0, as in Date.
unfoldable pub month_length : ℕ → ℕ → ℕ
unfolding is_leap
month_length y m =
    if m == 1
    then if is_leap y then 29 else 28
    else if m == 3 || m == 5 || m == 8 || m == 10
    then 30
    else 31

-- The days of k years or months from the i-th on.
unfoldable pub span : (ℕ → ℕ) → ℕ → ℕ → ℕ
span f i zero = 0
span f i (suc k) = f i + span f (suc i) k

-- The year or month in which a day falls, and the days of it that are before.
unfoldable pub locate : (ℕ → ℕ) → ℕ → ℕ → ℕ → ℕ × ℕ
locate f zero i d = (i, d)
locate f (suc fuel) i d =
    let later = locate f fuel (suc i) (d - f i) in if ltb d (f i) then (i, d) else later

pub record Fields : Type 0 where
  pub year : ℕ
  pub month : ℕ  -- from 1
  pub day : ℕ
  pub hour : ℕ
  pub minute : ℕ
  pub second : ℕ

-- MakeDay: the month may overflow into later years, or be 0, the last month of the year before.
unfoldable pub make_day : ℕ → ℕ → ℕ → ℕ
make_day y zero d = span year_length 0 (y - 1) + span (month_length (y - 1)) 0 11 + d - 1
make_day y (suc m) d =
    span year_length 0 (y + m / 12) + span (month_length (y + m / 12)) 0 (m % 12) + d - 1

-- `Date.UTC(year, month - 1, day, hour, minute, second)`; it reads a year below 100 as 19xx.
unfoldable pub date_utc : Fields → ℕ
date_utc f =
    make_day (if ltb f.year 100 then 1900 + f.year else f.year) f.month f.day * 86_400_000
    + (f.hour * 3_600_000 + f.minute * 60_000 + f.second * 1_000)

-- `getUTCFullYear` and its kin.
unfoldable pub fields_of : ℕ → Fields
fields_of t =
    let days = t / 86_400_000 in
    let (y, r) = locate year_length (days + 1) 0 days in
    let (m, d) = locate (month_length y) 12 0 r in
    record {
      year = y;
      month = m + 1;
      day = d + 1;
      hour = t % 86_400_000 / 3_600_000;
      minute = t % 3_600_000 / 60_000;
      second = t % 60_000 / 1_000;
    }

abbrev pub digit : ℕ → ℕ
digit d = b'0' + d % 10

abbrev pub two_digits : ℕ → Text
two_digits n = digit (n / 10) ∷ digit n ∷ []

abbrev pub four_digits : ℕ → Text
four_digits n = digit (n / 1000) ∷ digit (n / 100) ∷ digit (n / 10) ∷ digit n ∷ []

-- `toISOString().slice(0, 10)` and `.slice(0, 19)`; a year past 9999 has six digits and a sign.
abbrev pub long_year : ℕ → Text
long_year y = b'+' ∷ digit (y / 100000) ∷ digit (y / 10000) ∷ four_digits y

unfoldable pub iso_date : Fields → Text
iso_date f =
    if leb f.year 9999
    then four_digits f.year ++ (b'-' ∷ (two_digits f.month ++ (b'-' ∷ two_digits f.day)))
    else long_year f.year ++ (b'-' ∷ two_digits f.month)

unfoldable pub iso_date_time : Fields → Text
iso_date_time f =
    if leb f.year 9999
    then four_digits f.year
      ++ (b'-'
          ∷ (two_digits f.month
              ++ (b'-'
                  ∷ (two_digits f.day
                      ++ (b'T'
                          ∷ (two_digits f.hour
                              ++ (b':'
                                  ∷ (two_digits f.minute ++ (b':' ∷ two_digits f.second)))))))))
    else long_year f.year
      ++ (b'-'
          ∷ (two_digits f.month
              ++ (b'-'
                  ∷ (two_digits f.day
                      ++ (b'T' ∷ (two_digits f.hour ++ (b':' ∷ two_digits f.minute)))))))

infixl 5 ◌>>=◌
abbrev pub ◌>>=◌ {ℓ κ} : {A : Type ℓ} {B : Type κ} → Option A → (A → Option B) → Option B
none >>= k = none
some a >>= k = k a

-- `(\d{2})` and `(\d{4})` at the head of a text, as numbers, and the text behind.
unfoldable pub two : Text → Option (ℕ × Text)
two (a ∷ b ∷ r) = if is_digit a && is_digit b then some ((a - b'0') * 10 + (b - b'0'), r) else none
two _ = none

unfoldable pub four : Text → Option (ℕ × Text)
four (a ∷ b ∷ c ∷ d ∷ r) =
    if is_digit a && (is_digit b && (is_digit c && is_digit d))
    then some ((a - b'0') * 1000 + (b - b'0') * 100 + (c - b'0') * 10 + (d - b'0'), r)
    else none
four _ = none

unfoldable pub expect : ℕ → Text → Option Text
expect x [] = none
expect x (c ∷ r) = if c == x then some r else none

-- `(\d{4})-(\d{2})-(\d{2})` at the head of a text.
unfoldable pub parse_date : Text → Option ((ℕ × ℕ × ℕ) × Text)
parse_date s = do
  (y, r) ← four s
  r ← expect b'-' r
  (m, r) ← two r
  r ← expect b'-' r
  (d, r) ← two r
  some ((y, m, d), r)

unfoldable pub at_end : Text → ℕ → Option ℕ
at_end [] s = some s
at_end (_ ∷ _) s = none

-- `(?::(\d{2}))?$`, the seconds '0' where they are left out.
unfoldable pub parse_seconds : Text → Option ℕ
parse_seconds [] = some 0
parse_seconds (c ∷ r) = do r ← expect b':' (c ∷ r); (s, r) ← two r; at_end r s

-- The match of `chinaInputToMillis`.
unfoldable pub parse_input : Text → Option Fields
parse_input v = do
  ((y, m, d), r) ← parse_date v
  r ← expect b'T' r
  (h, r) ← two r
  r ← expect b':' r
  (n, r) ← two r
  s ← parse_seconds r
  some (record { year = y; month = m; day = d; hour = h; minute = n; second = s })

-- A day that exists, and a time of day.
unfoldable pub legal_date : ℕ → ℕ → ℕ → Bool
legal_date y m d = leb 1 m && leb m 12 && leb 1 d && leb d (month_length y (m - 1))

unfoldable pub legal_time : ℕ → ℕ → ℕ → Bool
legal_time h n s = ltb h 24 && ltb n 60 && ltb s 60

abbrev pub legal : Fields → Bool
legal f = legal_date f.year f.month f.day && legal_time f.hour f.minute f.second

unfoldable pub same_fields : Fields → Fields → Bool
same_fields f g =
    f.year == g.year
    && f.month == g.month
    && f.day == g.day
    && f.hour == g.hour
    && f.minute == g.minute
    && f.second == g.second

abbrev pub china_offset_ms : ℕ
china_offset_ms = 8 * 60 * 60 * 1000

-- The start of 1970.
abbrev pub epoch_ms : ℕ
epoch_ms = 719_528 * 86_400_000

-- A time as its number of milliseconds since 1970, and back.
abbrev pub to_millis : ℕ → ℤ
to_millis t = sub_ℕ t epoch_ms

abbrev pub of_millis : ℤ → ℕ
of_millis z = pos_part z + epoch_ms - neg_part z

-- `chinaInputToMillis` after the match: the fields of the time must be the ones that were read.
unfoldable pub checked_utc : Fields → Option ℤ
checked_utc f =
    if ltb f.year 1970
    then none
    else if same_fields (fields_of (date_utc f)) f
    then some (to_millis (date_utc f) -ℤ pos china_offset_ms)
    else none

-- `chinaInputToMillis`
unfoldable pub china_input_to_millis : Text → Option ℤ
china_input_to_millis value = parse_input value >>= checked_utc

-- `chinaMillisToInput`
unfoldable pub china_millis_to_input : ℤ → Text
china_millis_to_input value = iso_date_time (fields_of (of_millis (value +ℤ pos china_offset_ms)))

-- `isCalendarDay` on a string. `new Date(…T00:00:00Z)` is specified where the text denotes a day;
-- what an engine makes of another one (NaN, or a day nearby) is the parameter.
module _ (parse_illegal : Text → Option ℕ) where
  unfoldable pub parse_day : Text → ℕ → ℕ → ℕ → Option ℕ
  parse_day value y m d =
      if legal_date y m d then some (make_day y m d * 86_400_000) else parse_illegal value

  unfoldable pub shows : Text → Option ℕ → Bool
  shows value none = false
  shows value (some t) = iso_date (fields_of t) === value

  unfoldable pub parsed_day : Text → Option ((ℕ × ℕ × ℕ) × Text) → Bool
  parsed_day value none = false
  parsed_day value (some ((y, m, d), [])) = shows value (parse_day value y m d)
  parsed_day value (some (_, _ ∷ _)) = false

  unfoldable pub is_calendar_day : Text → Bool
  is_calendar_day value = parsed_day value (parse_date value)
