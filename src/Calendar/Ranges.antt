-- ===== src/Calendar/Ranges.antt =====
-- The custom range that is in use.
use cpa_keeper_dashboard.Prelude.{
  ℕ, ◌≡◌, ◌≢◌, true, false, ◌&&◌, not, Option, none, some, List, [], ◌∷◌, ◌==◌, if◌then◌else◌,
  arith, Bool-cases, inl, inr, sym, ◌∙◌,
}
use cpa_keeper_dashboard.Prelude.Int.{ℤ, pos, ◌+ℤ◌, ◌≤ℤ◌, int_laws}
use cpa_keeper_dashboard.Prelude.Interface.{◌===◌}
use cpa_keeper_dashboard.Prelude.Text.{Text, codes, text_eq, text_lt}
use cpa_keeper_dashboard.Session.State.{is_empty}
use cpa_keeper_dashboard.Calendar.{
  Side, from_side, to_side, Calendar, has_day, later, hide_form, activate, load_days, fill_form,
  toggle_form, edit_side, set_time, choose_day, pick_day, is_unready, set_range, submit_form,
  days_loaded, Gesture, gesture, gestures,
}

-- The start of a range is before its end, by at least the 999 milliseconds that the last second is
-- filled up with.
abbrev pub IsSpan : Option (ℤ × ℤ) → Type 0
IsSpan none = ⊥
IsSpan (some (f, t)) = f +ℤ pos 999 ≤ℤ t

abbrev pub IsRanged : Calendar → Type 0
IsRanged c = (c.range === codes "custom") ≡ true → IsSpan c.custom_range

fill-IsRanged : (o : Option (ℤ × ℤ)) (c : Calendar) → IsRanged c → IsRanged (fill_form o c)
unfolding fill_form
fill-IsRanged none c h = h
fill-IsRanged (some (f, t)) c h = h

toggle-IsRanged : (c : Calendar) → IsRanged c → IsRanged (toggle_form c)
unfolding toggle_form load_days hide_form
toggle-IsRanged c h = elim (Bool-cases c.form_hidden) [
  | inl closed ↦ rw closed (
      fill-IsRanged (if c.range === codes "custom" then c.custom_range else none)
        (record c { form_hidden = false }) h)
  | inr shown ↦ rw shown h
]

set-IsRanged : (f t : Option ℤ) (c : Calendar) → IsRanged c → IsRanged (set_range f t c)
unfolding set_range activate hide_form
set-IsRanged none t c h = h
set-IsRanged (some f) none c h = h
set-IsRanged (some f) (some t) c h = elim (Bool-cases (later f t)) [
  | inl bad ↦ rw bad h
  | inr good ↦ let le : f ≤ℤ t = ground arith in rw good (λ _. omega (int_laws, le))
]

choose-IsRanged :
    (side : Side) (day : Text) (c : Calendar) → IsRanged c → IsRanged (choose_day side day c)
unfolding choose_day
choose-IsRanged from_side day c h = h
choose-IsRanged to_side day c h = elim (Bool-cases (not (is_empty c.from) && text_lt day c.from)) [
  | inl early ↦ rw early h
  | inr late ↦ rw late h
]

pick-IsRanged : (day : Text) (c : Calendar) → IsRanged c → IsRanged (pick_day day c)
unfolding pick_day
pick-IsRanged day c h = elim (Bool-cases (not (has_day day c.days))) [
  | inl off ↦ rw off h
  | inr on ↦ rw on (choose-IsRanged c.editing day c h)
]

submit-IsRanged : (c : Calendar) → IsRanged c → IsRanged (submit_form c)
unfolding submit_form
submit-IsRanged c h = elim (Bool-cases (is_unready c)) [
  | inl stop ↦ rw stop h
  | inr go ↦ rw go (set-IsRanged _ _ c h)
]

module _ (parse_illegal : Text → Option ℕ) where
  loaded-IsRanged :
      (id : ℕ) (o : Option (List Text)) (c : Calendar)
      → IsRanged c
      → IsRanged (days_loaded parse_illegal id o c)
  unfolding days_loaded
  loaded-IsRanged id none c h = elim (Bool-cases (id == c.request_id)) [
    | inl now ↦ rw now h
    | inr late ↦ rw late h
  ]
  loaded-IsRanged id (some days) c h = elim (Bool-cases (id == c.request_id)) [
    | inl now ↦ rw now h
    | inr late ↦ rw late h
  ]

  gesture-IsRanged :
      (g : Gesture) (c : Calendar) → IsRanged c → IsRanged (gesture parse_illegal g c)
  unfolding gesture hide_form edit_side set_time activate
  gesture-IsRanged Gesture.toggle c h = toggle-IsRanged c h
  gesture-IsRanged Gesture.hide c h = h
  gesture-IsRanged (Gesture.edit side) c h = h
  gesture-IsRanged (Gesture.time from_side text) c h = h
  gesture-IsRanged (Gesture.time to_side text) c h = h
  gesture-IsRanged (Gesture.pick value) c h = pick-IsRanged value c h
  gesture-IsRanged Gesture.submit c h = submit-IsRanged c h
  gesture-IsRanged (Gesture.loaded id o) c h = loaded-IsRanged id o c h
  gesture-IsRanged (Gesture.preset range) c h = elim (Bool-cases (range === codes "custom")) [
    | inl custom ↦ rw custom (toggle-IsRanged c h)
    | inr other ↦ rw other (λ e. absurd (false-ne-true (sym other ∙ e)))
  ]
    where
      false-ne-true : false ≢ true
      false-ne-true e = ground arith

  -- Whatever is done in the picker, and whenever its days come, a custom range in use keeps its
  -- start before its end, by 999 milliseconds at least.
  pub gestures-IsRanged :
      (gs : List Gesture) (c : Calendar) → IsRanged c → IsRanged (gestures parse_illegal gs c)
  unfolding gestures
  gestures-IsRanged [] c h = h
  gestures-IsRanged (g ∷ gs) c h =
      gestures-IsRanged gs (gesture parse_illegal g c) (gesture-IsRanged g c h)
