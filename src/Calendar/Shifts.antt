-- ===== src/Calendar/Shifts.antt =====
-- `shiftMonth` (go/dashboard/app.js) goes to the month before and the month after.
use cpa_keeper_dashboard.Prelude.{
  ℕ, ◌+◌, ◌-◌, ◌*◌, ◌/◌, ◌%◌, ◌≤◌, ◌≡◌, refl, ◌∙◌, true, ltb, ◌==◌, if◌then◌else◌, arith,
  Bool-cases, inl, inr,
}
use cpa_keeper_dashboard.Dates.{date_utc, make_day, month_length, legal, legal_date, legal_time}
use cpa_keeper_dashboard.Dates.Validity.{fields_of-date_utc}
use cpa_keeper_dashboard.Calendar.Months.{back, forward, first_day, utc_month, shift_month}

first_day-legal : (y n : ℕ) → 1 ≤ n → n ≤ 12 → legal (first_day y n) ≡ true
unfolding legal_date legal_time month_length
first_day-legal y n a b = ground arith

utc_month_lem : (y n : ℕ) → 100 ≤ y → y ≤ 9999 → 1 ≤ n → n ≤ 12 → utc_month y n ≡ y * 100 + n
unfolding utc_month
utc_month_lem y n h top a b =
    rw (fields_of-date_utc (first_day y n) h (first_day-legal y n a b)) (ground arith)

-- A month past the year's end, and one before its start, is one of the next year or the last.
date_utc-after : (y : ℕ) → 100 ≤ y → date_utc (first_day y 13) ≡ date_utc (first_day (y + 1) 1)
unfolding date_utc make_day
date_utc-after y h =
    let a : (if ltb y 100 then 1900 + y else y) ≡ y = ground arith in
    let b : (if ltb (y + 1) 100 then 1900 + (y + 1) else y + 1) ≡ y + 1 = ground arith in
    let z : y + 1 + 0 ≡ y + 1 = omega arith in rw (a, b, z) refl

date_utc-before : (y : ℕ) → 101 ≤ y → date_utc (first_day y 0) ≡ date_utc (first_day (y - 1) 12)
unfolding date_utc make_day
date_utc-before y h =
    let a : (if ltb y 100 then 1900 + y else y) ≡ y = ground arith in
    let b : (if ltb (y - 1) 100 then 1900 + (y - 1) else y - 1) ≡ y - 1 = ground arith in
    let z : y - 1 + 0 ≡ y - 1 = omega arith in rw (a, b, z) refl

utc_month_after : (y : ℕ) → 100 ≤ y → y ≤ 9998 → utc_month y 13 ≡ (y + 1) * 100 + 1
unfolding utc_month
utc_month_after y h top =
    rw (date_utc-after y h)
      (utc_month_lem (y + 1) 1 (omega arith) (omega arith) (omega arith) (omega arith))

utc_month_before : (y : ℕ) → 101 ≤ y → y ≤ 9998 → utc_month y 0 ≡ (y - 1) * 100 + 12
unfolding utc_month
utc_month_before y h top =
    rw (date_utc-before y h)
      (utc_month_lem (y - 1) 12 (omega arith) (omega arith) (omega arith) (omega arith))

-- The number of a month of the years 102 to 9998.
abbrev pub IsMonth : ℕ → Type 0
IsMonth m = (102 ≤ m / 100) × (m / 100 ≤ 9998) × (1 ≤ m % 100) × (m % 100 ≤ 12)

abbrev pub after : ℕ → ℕ
after m = if m % 100 == 12 then m + 89 else m + 1

abbrev pub before : ℕ → ℕ
before m = if m % 100 == 1 then m - 89 else m - 1

pub forward_lem : (m : ℕ) → IsMonth m → shift_month forward m ≡ after m
unfolding shift_month
forward_lem m (y, top, a, b) = elim (Bool-cases (m % 100 == 12)) [
  | inl last ↦
      let e : m % 100 + 1 ≡ 13 = ground arith in
      rw (e, last) (utc_month_after (m / 100) (omega arith) top ∙ ground arith)
  | inr other ↦ rw other (
      utc_month_lem (m / 100) (m % 100 + 1) (omega arith) (omega arith) (omega arith) (ground arith)
      ∙ omega arith)
]

pub back_lem : (m : ℕ) → IsMonth m → shift_month back m ≡ before m
unfolding shift_month
back_lem m (y, top, a, b) = elim (Bool-cases (m % 100 == 1)) [
  | inl first ↦
      let e : m % 100 - 1 ≡ 0 = ground arith in
      rw (e, first) (utc_month_before (m / 100) (omega arith) top ∙ ground arith)
  | inr other ↦ rw other (
      utc_month_lem (m / 100) (m % 100 - 1) (omega arith) (omega arith) (ground arith) (omega arith)
      ∙ ground arith)
]

-- Shifting forth and back, the second month that is shown and the first.
pub forward-back :
    (m : ℕ) → IsMonth m → 103 ≤ m / 100 → shift_month forward (shift_month back m) ≡ m
forward-back m h y = rw (back_lem m h) (forward_lem (before m) (ground arith) ∙ ground arith)
