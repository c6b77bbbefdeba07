-- ===== src/Calendar/Shown.antt =====
-- The two months that the range picker shows reach the months that have days.
use mathlib.Core.Path.{subst}
use cpa_keeper_dashboard.Prelude.{
  ℕ, ◌/◌, ◌≤◌, ◌≡◌, refl, sym, Bool, true, false, Option, none, some, List, [], ◌∷◌, ltb, length,
  arith, Bool-cases, inl, inr, ◌⊎◌,
}
use cpa_keeper_dashboard.Calendar.Shifts.{
  IsMonth, after, before, forward_lem, back_lem, forward-back,
}
use cpa_keeper_dashboard.Calendar.Months.{
  Direction, back, forward, shift_month, insert_day, sort_days, first_or, last_or, is_disabled,
  one_back, begin_months, shifted, shift_all,
}

abbrev InDays : ℕ → List ℕ → Type 0
InDays d [] = ⊥
InDays d (x ∷ xs) = (d ≡ x) ⊎ InDays d xs

-- Each day is at or after the one before it, the first at or after a bound.
abbrev Ascends : ℕ → List ℕ → Type 0
Ascends lo [] = Unit
Ascends lo (x ∷ xs) = (lo ≤ x) × Ascends x xs

-- A day of the years 103 to 9998.
abbrev IsRecent : ℕ → Type 0
IsRecent d = (103 ≤ d / 100 / 100) × IsMonth (d / 100)

abbrev pub AllRecent : List ℕ → Type 0
AllRecent [] = Unit
AllRecent (d ∷ ds) = IsRecent d × AllRecent ds

insert-Ascends : (lo d : ℕ) (xs : List ℕ) → lo ≤ d → Ascends lo xs → Ascends lo (insert_day d xs)
unfolding insert_day
insert-Ascends lo d [] l h = (l, tt)
insert-Ascends lo d (x ∷ xs) l (k, h) = elim (Bool-cases (ltb x d)) [
  | inl later ↦ rw later (k, insert-Ascends x d xs (ground arith) h)
  | inr here ↦ rw here (l, (ground arith, h))
]

sort-Ascends : (ds : List ℕ) → Ascends 0 (sort_days ds)
unfolding sort_days
sort-Ascends [] = tt
sort-Ascends (d ∷ ds) = insert-Ascends 0 d (sort_days ds) (omega arith) (sort-Ascends ds)

insert-InDays : (f d : ℕ) (xs : List ℕ) → InDays f (d ∷ xs) → InDays f (insert_day d xs)
unfolding insert_day
insert-InDays f d [] i = i
insert-InDays f d (x ∷ xs) i = elim (Bool-cases (ltb x d)) [
  | inl later ↦ rw later (elim i [
    | inl new ↦ inr (insert-InDays f d xs (inl new))
    | inr (inl same) ↦ inl same
    | inr (inr old) ↦ inr (insert-InDays f d xs (inr old))
  ])
  | inr here ↦ rw here i
]

sort-InDays : (f : ℕ) (ds : List ℕ) → InDays f ds → InDays f (sort_days ds)
unfolding sort_days
sort-InDays f [] i = absurd i
sort-InDays f (d ∷ ds) (inl e) = insert-InDays f d (sort_days ds) (inl e)
sort-InDays f (d ∷ ds) (inr i) = insert-InDays f d (sort_days ds) (inr (sort-InDays f ds i))

insert-AllRecent : (d : ℕ) (xs : List ℕ) → IsRecent d → AllRecent xs → AllRecent (insert_day d xs)
unfolding insert_day
insert-AllRecent d [] r h = (r, tt)
insert-AllRecent d (x ∷ xs) r (q, h) = elim (Bool-cases (ltb x d)) [
  | inl later ↦ rw later (q, insert-AllRecent d xs r h)
  | inr here ↦ rw here (r, (q, h))
]

sort-AllRecent : (ds : List ℕ) → AllRecent ds → AllRecent (sort_days ds)
unfolding sort_days
sort-AllRecent [] h = tt
sort-AllRecent (d ∷ ds) (r, h) = insert-AllRecent d (sort_days ds) r (sort-AllRecent ds h)

last-IsRecent : (x : ℕ) (xs : List ℕ) → IsRecent x → AllRecent xs → IsRecent (last_or x xs)
last-IsRecent x [] r h = r
last-IsRecent x (y ∷ xs) r (q, h) = last-IsRecent y xs q h

last-ge : (x : ℕ) (xs : List ℕ) → Ascends x xs → x ≤ last_or x xs
last-ge x [] h = omega arith
last-ge x (y ∷ xs) (l, h) = omega (arith, last-ge y xs h)

Ascends-bounds :
    (f x : ℕ) (xs : List ℕ) → Ascends x xs → InDays f (x ∷ xs) → (x ≤ f) × (f ≤ last_or x xs)
Ascends-bounds f x [] h (inl e) = (omega arith, omega arith)
Ascends-bounds f x [] h (inr i) = absurd i
Ascends-bounds f x (y ∷ xs) (l, h) (inl e) = let k = last-ge y xs h in (omega arith, omega arith)
Ascends-bounds f x (y ∷ xs) (l, h) (inr i) =
    let (a, b) = Ascends-bounds f y xs h i in (omega arith, b)

-- One of the two months that are shown is not before the first with a day, and one is not after the
-- last; without days no month is shown.
abbrev pub Reaches : List ℕ → Option ℕ → Type 0
Reaches days none = days ≡ []
Reaches days (some m) =
    IsMonth m × (first_or 0 days / 100 ≤ shift_month forward m) × (m ≤ last_or 0 days / 100)

module _ (x : ℕ) (xs : List ℕ) (r : AllRecent (x ∷ xs)) (up : Ascends x xs) where
  -- The month that is shown at first, of a day among those there are.
  begin-Reaches :
      (f : ℕ) (b : Bool)
      → InDays f (x ∷ xs)
      → IsRecent f
      → Reaches (x ∷ xs) (one_back b (some (f / 100)))
  begin-Reaches f true i (y, m) =
      let (lo, hi) = Ascends-bounds f x xs up i in
      let e = back_lem (f / 100) m in
      let g = forward-back (f / 100) m y in
      (rw e (ground arith), rw g (omega arith), rw e (ground arith))
  begin-Reaches f false i (y, m) =
      let (lo, hi) = Ascends-bounds f x xs up i in
      let e = forward_lem (f / 100) m in (m, rw e (ground arith), omega arith)

  back-Reaches :
      (m : ℕ)
      → Reaches (x ∷ xs) (some m)
      → x / 100 ≤ shift_month back m
      → Reaches (x ∷ xs) (some (shift_month back m))
  back-Reaches m (v, lo, hi) l =
      let ((y, _), _) = r in
      let e = back_lem m v in
      let k : x / 100 ≤ before m = rw e at l in
      let w : IsMonth (before m) = ground arith in
      rw e (w, rw (forward_lem (before m) w) (ground arith), ground arith)

  forward-Reaches :
      (m : ℕ)
      → Reaches (x ∷ xs) (some m)
      → shift_month forward m ≤ last_or x xs / 100
      → Reaches (x ∷ xs) (some (shift_month forward m))
  forward-Reaches m (v, lo, hi) l =
      let e = forward_lem m v in
      let k : after m ≤ last_or x xs / 100 = rw e at l in
      let j : x / 100 ≤ after m = rw e at lo in
      let (_, (_, top, _, _)) = last-IsRecent x xs r.0 r.1 in
      let w : IsMonth (after m) = ground arith in
      rw e (w, rw (forward_lem (after m) w) (ground arith), k)

  click-Reaches :
      (dir : Direction) (days : List ℕ) (month : Option ℕ)
      → sort_days days ≡ x ∷ xs
      → Reaches (x ∷ xs) month
      → Reaches (x ∷ xs) (shifted dir days month)
  unfolding shifted is_disabled
  click-Reaches dir [] month e h = h
  click-Reaches dir (d ∷ ds) none e h = h
  click-Reaches back (d ∷ ds) (some m) e h =
      rw e (elim (Bool-cases (ltb (shift_month back m) (x / 100))) [
        | inl stays ↦ rw stays h
        | inr shifts ↦ rw shifts (back-Reaches m h (ground arith))
      ])
  click-Reaches forward (d ∷ ds) (some m) e h =
      rw e (elim (Bool-cases (ltb (last_or x xs / 100) (shift_month forward m))) [
        | inl stays ↦ rw stays h
        | inr shifts ↦ rw shifts (forward-Reaches m h (ground arith))
      ])

  clicks-Reaches :
      (dirs : List Direction) (days : List ℕ) (month : Option ℕ)
      → sort_days days ≡ x ∷ xs
      → Reaches (x ∷ xs) month
      → Reaches (x ∷ xs) (shift_all dirs (record { days = days; month = month })).month
  unfolding shift_all
  clicks-Reaches [] days month e h = h
  clicks-Reaches (dir ∷ dirs) days month e h =
      clicks-Reaches dirs days (shifted dir days month) e (click-Reaches dir days month e h)

last-InDays : (x : ℕ) (xs : List ℕ) → InDays (last_or x xs) (x ∷ xs)
last-InDays x [] = inl refl
last-InDays x (y ∷ xs) = inr (last-InDays y xs)

InDays-IsRecent : (f : ℕ) (ds : List ℕ) → AllRecent ds → InDays f ds → IsRecent f
InDays-IsRecent f [] h i = absurd i
InDays-IsRecent f (d ∷ ds) (r, h) (inl e) = subst IsRecent (sym e) r
InDays-IsRecent f (d ∷ ds) (r, h) (inr i) = InDays-IsRecent f ds h i

-- No day is chosen, or one of those there are.
abbrev pub IsAmong : Option ℕ → List ℕ → Type 0
IsAmong none days = Unit
IsAmong (some f) days = InDays f days

without_days :
    (dirs : List Direction) → (shift_all dirs (record { days = []; month = none })).month ≡ none
unfolding shift_all shifted
without_days [] = refl
without_days (dir ∷ dirs) = without_days dirs

sorted-Reaches :
    (dirs : List Direction) (from : Option ℕ) (days s : List ℕ)
    → sort_days days ≡ s
    → AllRecent s
    → Ascends 0 s
    → IsAmong from s
    → Reaches s (shift_all dirs (begin_months from days)).month
unfolding begin_months sort_days
sorted-Reaches dirs (some f) days [] e r up i = absurd i
sorted-Reaches dirs none [] [] e r up i = subst (Reaches []) (sym (without_days dirs)) refl
sorted-Reaches dirs none (d ∷ ds) [] e r up i =
    absurd (subst (InDays d) e (sort-InDays d (d ∷ ds) (inl refl)))
sorted-Reaches dirs (some f) days (x ∷ xs) e r (z, up) i =
    clicks-Reaches x xs r up dirs days _ e
      (begin-Reaches x xs r up f (ltb 1 (length days)) i (InDays-IsRecent f (x ∷ xs) r i))
sorted-Reaches dirs none days (x ∷ xs) e r (z, up) i =
    let f = last_or x xs in
    let b = last-InDays x xs in
    clicks-Reaches x xs r up dirs days _ e
      (rw e (begin-Reaches x xs r up f (ltb 1 (length days)) b (InDays-IsRecent f (x ∷ xs) r b)))

-- However the buttons are clicked after the days came, with a chosen day among them or none: one of
-- the two months that are shown is the first month with a day or a later one, and one is the last
-- month with a day or an earlier one, so the picker never leaves the months that have days; without
-- days it shows no month. The days are of the years 103 to 9998.
pub shift_all-Reaches :
    (dirs : List Direction) (from : Option ℕ) (days : List ℕ)
    → AllRecent days
    → IsAmong from days
    → Reaches (sort_days days) (shift_all dirs (begin_months from days)).month
shift_all-Reaches dirs from days r i =
    sorted-Reaches dirs from days (sort_days days) refl (sort-AllRecent days r) (sort-Ascends days)
      (among_sorted from i)
  where
    among_sorted : (from : Option ℕ) → IsAmong from days → IsAmong from (sort_days days)
    among_sorted none i = tt
    among_sorted (some f) i = sort-InDays f days i
