-- ===== src/Selects/Opening.antt =====
-- Which dropdown is open.
use cpa_keeper_dashboard.Prelude.{
  ℕ, zero, suc, ◌+◌, ◌≤◌, ◌≡◌, refl, true, List, [], ◌∷◌, if◌then◌else◌, get_elem?, arith,
  Bool-cases, inl, inr,
}
use cpa_keeper_dashboard.Selects.{
  Select, sync_options, set_value, fill_select, close_all, update_at, is_open_at, click_trigger,
  pick_button, click_button, reset_select, reset_all, range_all, Click, click, clicks,
}

abbrev pub open_count : List Select → ℕ
open_count [] = 0
open_count (s ∷ ss) = (if s.is_open then 1 else 0) + open_count ss

closed : (ss : List Select) → open_count (close_all ss) ≡ 0
unfolding close_all
closed [] = refl
closed (s ∷ ss) = omega (arith, closed ss)

-- A change of one select that leaves it as open as it was.
same_count :
    (i : ℕ) (f : Select → Select) (ss : List Select)
    → ((s : Select) → (f s).is_open ≡ s.is_open)
    → open_count (update_at i f ss) ≡ open_count ss
unfolding update_at
same_count i f [] k = refl
same_count zero f (s ∷ ss) k = rw (k s) refl
same_count (suc i) f (s ∷ ss) k = rw (same_count i f ss k) refl

opened :
    (i : ℕ) (f : Select → Select) (ss : List Select)
    → open_count (update_at i f ss) ≤ open_count ss + 1
unfolding update_at
opened i f [] = omega arith
opened zero f (s ∷ ss) = ground arith
opened (suc i) f (s ∷ ss) = ground (arith, opened i f ss)

trigger_count : (i : ℕ) (ss : List Select) → open_count (click_trigger i ss) ≤ 1
unfolding click_trigger
trigger_count i ss = elim (Bool-cases (is_open_at (get_elem? ss i))) [
  | inl shown ↦ rw shown (omega (arith, closed ss))
  | inr shut ↦ rw shut (
      omega (
        arith,
        closed ss,
        opened i (λ s. record (sync_options s) { is_open = true }) (close_all ss),
      ))
]

reset_count : (ss : List Select) → open_count (reset_all ss) ≡ open_count ss
unfolding reset_all reset_select sync_options set_value
reset_count [] = refl
reset_count (s ∷ ss) = rw (reset_count ss) refl

range_count : (ss : List Select) → open_count (range_all ss) ≡ open_count ss
unfolding range_all set_value
range_count [] = refl
range_count (s ∷ ss) = rw (range_count ss) refl

click_count : (c : Click) (ss : List Select) → open_count ss ≤ 1 → open_count (click c ss) ≤ 1
unfolding click click_button fill_select sync_options set_value
click_count (Click.trigger i) ss h = trigger_count i ss
click_count (Click.button i j) ss h =
    omega (arith, closed (update_at i (λ s. pick_button (get_elem? s.buttons j) s) ss))
click_count Click.outside ss h = omega (arith, closed ss)
click_count Click.escape ss h = omega (arith, closed ss)
click_count Click.reset ss h = rw (reset_count ss) h
click_count Click.range ss h = rw (range_count ss) h
click_count (Click.fill i items) ss h = rw (same_count i (fill_select items) ss (λ s. refl)) h
click_count (Click.field i value) ss h =
    rw (same_count i (λ s. sync_options (set_value value s)) ss (λ s. refl)) h

-- Where at most one dropdown is open, this stays so, whatever is clicked and whatever choices a
-- response brings.
pub clicks-open_count :
    (cs : List Click) (ss : List Select) → open_count ss ≤ 1 → open_count (clicks cs ss) ≤ 1
unfolding clicks
clicks-open_count [] ss h = h
clicks-open_count (c ∷ cs) ss h = clicks-open_count cs (click c ss) (click_count c ss h)
