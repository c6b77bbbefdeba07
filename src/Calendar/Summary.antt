-- ===== src/Calendar/Summary.antt =====
-- The summary of a custom range beside the buttons (go/dashboard/app.js, `renderRangeSummary`), and
-- what it shows of a range that was submitted.
use cpa_keeper_dashboard.Prelude.{
  ◌≡◌, refl, ap, ◌∙◌, Bool, true, false, Option, none, some, [], ◌∷◌, ◌++◌, ◌==◌, if◌then◌else◌,
  arith, Bool-cases, inl, inr,
}
use cpa_keeper_dashboard.Prelude.Int.{ℤ, pos, ◌+ℤ◌, ◌-ℤ◌, +ℤ_cancel}
use cpa_keeper_dashboard.Prelude.Interface.{◌===◌}
use cpa_keeper_dashboard.Prelude.Text.{Text, codes, text_eq}
use cpa_keeper_dashboard.Session.State.{Page, is_settings}
use cpa_keeper_dashboard.Dates.{china_millis_to_input}
use cpa_keeper_dashboard.Dates.China.{china_millis_to_input-china_input_to_millis}
use cpa_keeper_dashboard.Dates.Texts.{with_seconds}
use cpa_keeper_dashboard.Calendar.{
  Calendar, form_millis, is_unready, is_no_range, later, apply_disabled, set_range, submit_form,
  activate, hide_form,
}

-- `.replace('T', ' ')`: the first one.
unfoldable pub replace_t : Text → Text
replace_t [] = []
replace_t (c ∷ s) = let rest = replace_t s in if c == b'T' then b' ' ∷ s else c ∷ rest

-- The button, and the ends of the range in its label; with no label the old one stays.
pub record RangeSummary : Type 0 where
  pub hidden : Bool
  pub label : Option (Text × Text)

abbrev summary_of : Page → Option (ℤ × ℤ) → RangeSummary
summary_of page none = record { hidden = true; label = none }
summary_of page (some (from, to)) = record {
  hidden = is_settings page;
  label =
      some
        (replace_t (china_millis_to_input from), replace_t (china_millis_to_input (to -ℤ pos 999)));
}

unfoldable pub range_summary : Page → Calendar → RangeSummary
range_summary page c = summary_of page (if c.range === codes "custom" then c.custom_range else none)

-- The end of a range as the summary shows it, from the day and the time of the form.
abbrev pub end_of : Text → Text → Text
end_of day time = replace_t (with_seconds (day ++ codes "T" ++ time))

set_range-summary :
    (page : Page) (c : Calendar) (f t : ℤ)
    → later f t ≡ false
    → range_summary page (set_range (some f) (some t) c) ≡ summary_of page (some (f, t +ℤ pos 999))
unfolding range_summary set_range activate hide_form
set_range-summary page c f t h = rw h refl

-- Once a range is applied, the summary shows the days and times of the form, with the seconds ":00"
-- added where the form has none, and is hidden only on the page of the settings.
pub submit_form-range_summary :
    (page : Page) (c : Calendar)
    → apply_disabled c ≡ false
    → range_summary page (submit_form c) ≡ record {
      hidden = is_settings page;
      label = some (end_of c.from c.from_time, end_of c.to c.to_time);
    }
unfolding submit_form apply_disabled
submit_form-range_summary page c h = elim (Bool-cases (is_unready c)) [
  | inl stop ↦ absurd (ground arith)
  | inr ready ↦ rw ready (
      by_ends (form_millis c.from c.from_time) (form_millis c.to c.to_time) refl refl
        (ground arith))
]
  where
    by_ends :
        (f t : Option ℤ)
        → form_millis c.from c.from_time ≡ f
        → form_millis c.to c.to_time ≡ t
        → is_no_range f t ≡ false
        → range_summary page (set_range f t c) ≡ record {
          hidden = is_settings page;
          label = some (end_of c.from c.from_time, end_of c.to c.to_time);
        }
    by_ends none t p q n = cc
    by_ends (some f) none p q n = cc
    by_ends (some f) (some t) p q n =
        let from_shown = china_millis_to_input-china_input_to_millis _ f p in
        let to_shown =
          ap china_millis_to_input (+ℤ_cancel t (pos 999))
          ∙ china_millis_to_input-china_input_to_millis _ t q in
        set_range-summary page c f t n ∙ λ i. record {
          hidden = is_settings page;
          label = some (replace_t (from_shown i), replace_t (to_shown i));
        }
