-- ===== src/Calendar/Picking.antt =====
-- The days that are picked, and the button that applies them.
use cpa_keeper_dashboard.Prelude.{
  ◌+◌, ◌≡◌, refl, true, false, ◌||◌, not, Option, none, some, if◌then◌else◌, arith, Bool-cases, inl,
  inr,
}
use cpa_keeper_dashboard.Prelude.Int.{ℤ}
use cpa_keeper_dashboard.Prelude.Text.{Text, text_eq, text_lt}
use cpa_keeper_dashboard.Session.State.{is_empty}
use cpa_keeper_dashboard.Calendar.{
  Side, from_side, to_side, Calendar, has_day, hide_form, activate, choose_day, pick_day,
  form_millis, is_unready, is_no_range, apply_disabled, set_range, submit_form,
}

-- The first day is not after the last one, where both are picked.
abbrev pub IsOrdered : Calendar → Type 0
IsOrdered c = (is_empty c.from || is_empty c.to || not (text_lt c.to c.from)) ≡ true

choose-IsOrdered : (side : Side) (day : Text) (c : Calendar) → IsOrdered (choose_day side day c)
unfolding choose_day
choose-IsOrdered from_side day c = ground arith
choose-IsOrdered to_side day c = ground arith

-- A click on a day that has events leaves a first day that is not after the last day, however they
-- stood before; a click on another day does nothing.
pub pick_day-IsOrdered :
    (day : Text) (c : Calendar)
    → (has_day day c.days ≡ true → IsOrdered (pick_day day c))
      × (has_day day c.days ≡ false → pick_day day c ≡ c)
unfolding pick_day
pick_day-IsOrdered day c = (λ on. rw on (choose-IsOrdered c.editing day c), λ off. ground arith)

set_range_lem :
    (f t : Option ℤ) (c : Calendar)
    → (set_range f t c).request_id ≡ (if is_no_range f t then c.request_id else c.request_id + 1)
unfolding set_range activate hide_form
set_range_lem none t c = ground arith
set_range_lem (some f) none c = ground arith
set_range_lem (some f) (some t) c = ground arith

set_range-kept :
    (c : Calendar) (f t : Option ℤ)
    → is_no_range f t ≡ true
    → ((set_range f t c).range ≡ c.range) × ((set_range f t c).custom_range ≡ c.custom_range)
unfolding set_range
set_range-kept c none t h = (refl, refl)
set_range-kept c (some f) none h = (refl, refl)
set_range-kept c (some f) (some t) h = rw h (refl, refl)

-- Submitting the form closes the picker, and so gives up what it was loading, exactly if the button
-- that applies the range is enabled; where it is disabled the range stays as it was.
pub submit_form-apply_disabled :
    (c : Calendar)
    → ((submit_form c).request_id ≡ (if apply_disabled c then c.request_id else c.request_id + 1))
      × (apply_disabled c ≡ true
          → ((submit_form c).range ≡ c.range) × ((submit_form c).custom_range ≡ c.custom_range))
unfolding submit_form apply_disabled
submit_form-apply_disabled c = (
  elim (Bool-cases (is_unready c)) [
    | inl stop ↦ rw stop refl
    | inr go ↦ rw go (set_range_lem (form_millis c.from c.from_time) (form_millis c.to c.to_time) c)
  ],
  λ off. elim (Bool-cases (is_unready c)) [
    | inl stop ↦ rw stop (refl, refl)
    | inr go ↦ rw go (
        set_range-kept c (form_millis c.from c.from_time) (form_millis c.to c.to_time)
          (ground arith))
  ],
)
