-- ===== src/Dates/China.antt =====
-- `chinaInputToMillis` and `chinaMillisToInput`.
use cpa_keeper_dashboard.Prelude.{
  ℕ, ◌≤◌, ◌≡◌, refl, true, false, ◌&&◌, ltb, leb, arith, none, some, if◌then◌else◌, Bool-cases, inl,
  inr, ap, ◌∙◌, sym,
}
use cpa_keeper_dashboard.Prelude.Int.{ℤ, pos, ◌+ℤ◌, ◌-ℤ◌, int_laws}
use mathlib.Core.Path.{fun_ext}
use mathlib.Core.Bool.{and-eq-true_iff}
use mathlib.Core.Option.{some-injective}
use cpa_keeper_dashboard.Prelude.Text.{Text}
use cpa_keeper_dashboard.Dates.{
  Fields, date_utc, fields_of, legal, same_fields, checked_utc, parse_input, to_millis, of_millis,
  china_offset_ms, china_input_to_millis, china_millis_to_input, ◌>>=◌,
}
use cpa_keeper_dashboard.Dates.Texts.{with_seconds, bind_elim, parse_input_sound}
use cpa_keeper_dashboard.Dates.Validity.{fields_of-legal, fields_of-date_utc}

same_fields_refl : (f : Fields) → same_fields f f ≡ true
unfolding same_fields
same_fields_refl f = ground arith

same_fields_sound : (f g : Fields) → same_fields f g ≡ true → f ≡ g
unfolding same_fields
same_fields_sound f g h = ground arith

-- The test that the fields come back is the test that the day and the time of day exist.
same_fields-legal : (f : Fields) → 100 ≤ f.year → same_fields (fields_of (date_utc f)) f ≡ legal f
same_fields-legal f h = elim (Bool-cases (legal f)) [
  | inl v ↦ rw (fields_of-date_utc f h v) (same_fields_refl f ∙ sym v)
  | inr bad ↦ elim (Bool-cases (same_fields (fields_of (date_utc f)) f)) [
    | inr differ ↦ differ ∙ sym bad
    | inl same ↦
        let e : fields_of (date_utc f) ≡ f = same_fields_sound _ _ same in
        let v : legal f ≡ true = rw e at (fields_of-legal (date_utc f)) in same ∙ sym v
  ]
]

checked_utc_lem :
    (f : Fields)
    → checked_utc f ≡ (
        if leb 1970 f.year && legal f
        then some (to_millis (date_utc f) -ℤ pos china_offset_ms)
        else none)
unfolding checked_utc
checked_utc_lem f = elim (Bool-cases (leb 1970 f.year)) [
  | inl late ↦
      let old : ltb f.year 1970 ≡ false = ground arith in
      rw (old, late, same_fields-legal f (ground arith)) refl
  | inr early ↦ let old : ltb f.year 1970 ≡ true = ground arith in rw (old, early) refl
]

-- The input is accepted exactly if it is written in the form of the input fields and denotes a day
-- from 1970 on that exists and a time of day; the result is that time, eight hours earlier.
pub china_input_to_millis_lem :
    (value : Text)
    → china_input_to_millis value ≡ (
        parse_input value >>= λ f.
        if leb 1970 f.year && legal f
        then some (to_millis (date_utc f) -ℤ pos china_offset_ms)
        else none)
unfolding china_input_to_millis
china_input_to_millis_lem value = ap (λ k. parse_input value >>= k) (fun_ext checked_utc_lem)

of_to_millis : (t : ℕ) → of_millis (to_millis t) ≡ t
of_to_millis t = ground arith

later_again : (a b : ℤ) → a -ℤ b +ℤ b ≡ a
later_again a b = omega int_laws

checked_parts :
    (f : Fields) (z : ℤ)
    → checked_utc f ≡ some z
    → (legal f ≡ true) × (1970 ≤ f.year) × (z ≡ to_millis (date_utc f) -ℤ pos china_offset_ms)
checked_parts f z h = elim (Bool-cases (leb 1970 f.year && legal f)) [
  | inr bad ↦ absurd (let k = sym (checked_utc_lem f) ∙ h in ground (arith, k))
  | inl good ↦
      let (late, v) = (and-eq-true_iff _ _).0 good in
      (v, ground arith, some-injective _ _ (sym (rw good at (sym (checked_utc_lem f) ∙ h))))
]

-- The time that is shown for an accepted input has the fields that were read.
fields-shown :
    (f : Fields) (z : ℤ)
    → checked_utc f ≡ some z
    → fields_of (of_millis (z +ℤ pos china_offset_ms)) ≡ f
fields-shown f z h =
    let (v, late, e) = checked_parts f z h in
    let back : z +ℤ pos china_offset_ms ≡ to_millis (date_utc f) =
      ap (λ w. w +ℤ pos china_offset_ms) e ∙ later_again _ _ in
    ap (λ w. fields_of (of_millis w)) back
    ∙ (ap fields_of (of_to_millis (date_utc f)) ∙ fields_of-date_utc f (omega arith) v)

-- An accepted input is shown again as it was given, the seconds ":00" added where it has none.
pub china_millis_to_input-china_input_to_millis :
    (value : Text) (z : ℤ)
    → china_input_to_millis value ≡ some z
    → china_millis_to_input z ≡ with_seconds value
unfolding china_input_to_millis china_millis_to_input
china_millis_to_input-china_input_to_millis value z h =
    bind_elim (parse_input value) checked_utc h
      λ f p k. rw (fields-shown f z k) (parse_input_sound value p)
