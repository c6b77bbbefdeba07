-- ===== src/Dates/Validity.antt =====
-- The fields that Date gives back denote a real day and time of day, and name the time again.
use native.Mathlib.Numerals.{add-one}
use mathlib.Core.Path.{ap₂}
use cpa_keeper_dashboard.Prelude.{
  ℕ, zero, suc, ◌+◌, ◌-◌, ◌*◌, ◌/◌, ◌%◌, ◌≤◌, ◌<◌, ◌≡◌, refl, true, ltb, arith, if◌then◌else◌,
  Bool-cases, inl, inr, ap, ◌∙◌, sym,
}
use cpa_keeper_dashboard.Dates.{
  is_leap, year_length, month_length, span, locate, Fields, make_day, date_utc, fields_of,
  legal_date, legal_time, legal,
}
use cpa_keeper_dashboard.Dates.Locate.{locate-span, locate-lt, span-lt, locate-within}

year_length-pos : (y : ℕ) → 1 ≤ year_length y
unfolding year_length
year_length-pos y = ground arith

span-year : (y : ℕ) → span (month_length y) 0 12 ≡ year_length y
unfolding span month_length year_length
span-year y = elim (Bool-cases (is_leap y)) [
  | inl leap ↦ rw leap refl
  | inr common ↦ rw common refl
]

abbrev days_of : ℕ → ℕ × ℕ
days_of t = locate year_length (t / 86_400_000 + 1) 0 (t / 86_400_000)

month_within :
    (y r : ℕ)
    → r < year_length y
    → ((locate (month_length y) 12 0 r).0 < 12)
      × ((locate (month_length y) 12 0 r).1 < month_length y (locate (month_length y) 12 0 r).0)
month_within y r h = locate-within (month_length y) 12 0 r (rw span-year h)

legal_date_suc : (y m d : ℕ) → m < 12 → d < month_length y m → legal_date y (m + 1) (d + 1) ≡ true
unfolding legal_date
legal_date_suc y m d hm hd = let e : m + 1 - 1 ≡ m = omega arith in rw e (ground arith)

legal_time_of :
    (t : ℕ)
    → legal_time (t % 86_400_000 / 3_600_000) (t % 3_600_000 / 60_000) (t % 60_000 / 1_000) ≡ true
unfolding legal_time
legal_time_of t = ground arith

-- The fields of any time denote a day that exists and a time of day.
pub fields_of-legal : (t : ℕ) → legal (fields_of t) ≡ true
unfolding fields_of
fields_of-legal t =
    let (y, r) = days_of t in
    let (hm, hd) = month_within y r (
      locate-lt year_length (t / 86_400_000 + 1) 0 (t / 86_400_000) year_length-pos
        (omega arith)) in
    rw
      (legal_date_suc y (locate (month_length y) 12 0 r).0 (locate (month_length y) 12 0 r).1 hm hd)
      (legal_time_of t)

-- The first of the year, and the days before a day that exists.
make_day_legal :
    (y m d : ℕ)
    → m < 12
    → make_day y (suc m) (suc d) ≡ span year_length 0 y + (span (month_length y) 0 m + d)
unfolding make_day
make_day_legal y m d hm =
    let q : m / 12 ≡ 0 = omega arith in
    let e : m % 12 ≡ m = omega arith in
    let z : y + 0 ≡ y = omega arith in rw (q, e, z) (omega arith)

month_in_year :
    (y m d : ℕ) → m < 12 → d < month_length y m → span (month_length y) 0 m + d < year_length y
month_in_year y m d hm hd =
    rw (← span-year y)
      (span-lt (month_length y) m 12 0 d hm (let e : 0 + m ≡ m = omega arith in rw e hd))

span-ge : (k i : ℕ) → k ≤ span year_length i k
unfolding span
span-ge zero i = omega arith
span-ge (suc k) i = omega (arith, span-ge k (suc i), year_length-pos i)

found_year :
    (y r : ℕ)
    → r < year_length y
    → locate year_length (span year_length 0 y + r + 1) 0 (span year_length 0 y + r) ≡ (y, r)
found_year y r h =
    let e : 0 + y ≡ y = omega arith in
    locate-span year_length y (span year_length 0 y + r + 1) 0 r (omega (arith, span-ge y 0))
      (rw e h)
    ∙ ap (λ z. (z, r)) e

found_month :
    (y m d : ℕ)
    → m < 12
    → d < month_length y m
    → locate (month_length y) 12 0 (span (month_length y) 0 m + d) ≡ (m, d)
found_month y m d hm hd =
    let e : 0 + m ≡ m = omega arith in
    locate-span (month_length y) m 12 0 d hm (rw e hd) ∙ ap (λ z. (z, d)) e

-- Where a time names the d-th day of the m-th month of the year y, all counted from 0.
date-located :
    (t y m d : ℕ)
    → m < 12
    → d < month_length y m
    → t / 86_400_000 ≡ span year_length 0 y + (span (month_length y) 0 m + d)
    → ((fields_of t).year ≡ y) × ((fields_of t).month ≡ m + 1) × ((fields_of t).day ≡ d + 1)
unfolding fields_of
date-located t y m d hm hd e =
    rw (e, found_year y (span (month_length y) 0 m + d) (month_in_year y m d hm hd))
      (rw (found_month y m d hm hd) (refl, refl, refl))

module _ (y m d h n s : ℕ) where
  abbrev made : Fields
  made = record { year = y; month = suc m; day = suc d; hour = h; minute = n; second = s }

  -- The time that MakeDay and MakeTime give has the fields that they were given.
  pub made_lem :
      m < 12
      → d < month_length y m
      → h < 24
      → n < 60
      → s < 60
      → fields_of
          (make_day y (suc m) (suc d) * 86_400_000 + (h * 3_600_000 + n * 60_000 + s * 1_000))
        ≡ made
  made_lem hm hd hh hn hs =
      let day : ℕ = make_day y (suc m) (suc d) in
      let t : ℕ = day * 86_400_000 + (h * 3_600_000 + n * 60_000 + s * 1_000) in
      let (ys, ms, ds) = date-located t y m d hm hd (omega (arith, make_day_legal y m d hm)) in
      let hour : (fields_of t).hour ≡ h = unfold fields_of in omega arith in
      let minute : (fields_of t).minute ≡ n = unfold fields_of in omega arith in
      let second : (fields_of t).second ≡ s = unfold fields_of in omega arith in
      λ i. record {
        year = ys i;
        month = (ms ∙ add-one m) i;
        day = (ds ∙ add-one d) i;
        hour = hour i;
        minute = minute i;
        second = second i;
      }

pub legal_parts :
    (f : Fields)
    → legal f ≡ true
    → (1 ≤ f.month)
      × (f.month ≤ 12)
      × (1 ≤ f.day)
      × (f.day ≤ month_length f.year (f.month - 1))
      × (f.hour < 24)
      × (f.minute < 60)
      × (f.second < 60)
unfolding legal_date legal_time
legal_parts f v = ground arith

pub fields_of-made :
    (f : Fields)
    → legal f ≡ true
    → fields_of (
        make_day f.year f.month f.day * 86_400_000
        + (f.hour * 3_600_000 + f.minute * 60_000 + f.second * 1_000))
      ≡ f
fields_of-made f v =
    let (m1, m12, d1, dl, hh, hn, hs) = legal_parts f v in
    let em : suc (f.month - 1) ≡ f.month = omega arith in
    let ed : suc (f.day - 1) ≡ f.day = omega arith in
    let e : made f.year (f.month - 1) (f.day - 1) f.hour f.minute f.second ≡ f = λ i. record {
      year = f.year;
      month = em i;
      day = ed i;
      hour = f.hour;
      minute = f.minute;
      second = f.second;
    } in
    let made_time : ℕ → ℕ → ℕ = λ (m d : ℕ).
      make_day f.year m d * 86_400_000
      + (f.hour * 3_600_000 + f.minute * 60_000 + f.second * 1_000) in
    sym (ap₂ (λ m d. fields_of (made_time m d)) em ed)
    ∙ (made_lem f.year (f.month - 1) (f.day - 1) f.hour f.minute f.second (omega arith)
          (omega arith) hh hn hs
        ∙ e)

-- A time that is made of fields with an existing day and a time of day has these fields.
pub fields_of-date_utc : (f : Fields) → 100 ≤ f.year → legal f ≡ true → fields_of (date_utc f) ≡ f
unfolding date_utc
fields_of-date_utc f h v =
    let same : (if ltb f.year 100 then 1900 + f.year else f.year) ≡ f.year = ground arith in
    rw same (fields_of-made f v)
