-- ===== src/Prelude/Trimming.antt =====
-- A text that is trimmed is trimmed already the next time.
use cpa_keeper_dashboard.Prelude.{ℕ, ◌≡◌, refl, ◌∙◌, ap, false, [], ◌∷◌, Bool-cases, inl, inr}
use cpa_keeper_dashboard.Prelude.Text.{Text, is_white, trim_start, cons_trimmed, trim_end, trim}

cons_trimmed_idem :
    (c : ℕ) (s : Text) → trim_end s ≡ s → trim_end (cons_trimmed c s) ≡ cons_trimmed c s
unfolding trim_end
cons_trimmed_idem c [] h = elim (Bool-cases (is_white c)) [
  | inl w ↦ rw w refl
  | inr v ↦ rw v (rw v refl)
]
cons_trimmed_idem c (d ∷ s) h = ap (cons_trimmed c) h

trim_end_idem : (s : Text) → trim_end (trim_end s) ≡ trim_end s
unfolding trim_end
trim_end_idem [] = refl
trim_end_idem (c ∷ s) = cons_trimmed_idem c (trim_end s) (trim_end_idem s)

cons_trimmed-visible : (c : ℕ) (s : Text) → is_white c ≡ false → cons_trimmed c s ≡ c ∷ s
cons_trimmed-visible c [] h = rw h refl
cons_trimmed-visible c (d ∷ s) h = refl

trim_start-trim_end-visible :
    (c : ℕ) (s : Text) → is_white c ≡ false → trim_start (trim_end (c ∷ s)) ≡ trim_end (c ∷ s)
unfolding trim_start trim_end
trim_start-trim_end-visible c s h = rw (cons_trimmed-visible c (trim_end s) h) (rw h refl)

trim_start-trim : (s : Text) → trim_start (trim s) ≡ trim s
unfolding trim trim_start
trim_start-trim [] = unfold trim_end in refl
trim_start-trim (c ∷ s) = elim (Bool-cases (is_white c)) [
  | inl w ↦ rw w (trim_start-trim s)
  | inr v ↦ rw v (trim_start-trim_end-visible c s v)
]

pub trim_idem : (s : Text) → trim (trim s) ≡ trim s
unfolding trim
trim_idem s = ap trim_end (trim_start-trim s) ∙ trim_end_idem (trim_start s)
