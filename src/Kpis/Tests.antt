-- ===== src/Kpis/Tests.antt =====
-- A number that is given a second target on its way to the first.
use cpa_keeper_dashboard.Prelude.{◌≡◌, refl, some, [], ◌∷◌, ◌++◌, arith}
use cpa_keeper_dashboard.Prelude.Floats.{Tenths, tenths}
use cpa_keeper_dashboard.Kpis.{
  Figure, is_immediate, animate_number, animation_frame, animation_frames, run_ticks, still_running,
  current_value,
}
use cpa_keeper_dashboard.Kpis.Animation.{animate_number-settles}

abbrev at_rest : Figure Tenths
at_rest = record { previous = some (some 0); text = some 0; runs = [] }

abbrev to_hundred : Figure Tenths
to_hundred = animate_number 1000 (some 1000) at_rest

first_frame : (animation_frame (λ q. q) 1225 to_hundred).text ≡ some 500
unfolding animation_frame animate_number is_immediate run_ticks still_running current_value
first_frame = refl

animate_number-settles_example :
    ((animation_frames
        (λ q. q)
        ((1300 ∷ 1400 ∷ []) ++ (1700 ∷ []))
        (animate_number 1200 (some 500) to_hundred)).runs
      ≡ [])
    × ((animation_frames
          (λ q. q)
          ((1300 ∷ 1400 ∷ []) ++ (1700 ∷ []))
          (animate_number 1200 (some 500) to_hundred)).text
        ≡ some 500)
unfolding animate_number is_immediate
animate_number-settles_example =
    animate_number-settles (λ q. q) 1200 (some 500) to_hundred (1300 ∷ 1400 ∷ []) 1700
      (omega arith, tt) refl (omega arith)
