-- ===== src/Charts.antt =====
-- The numbers behind the charts (go/dashboard/app.js): `cacheHitRate`, `healthLevel`,
-- `buildClampedSmoothPath`, and the heights in `renderTrend`. A path is the list of its commands,
-- with its numbers before they are rounded to one digit.
pub mod Bounds
mod Tests
use cpa_keeper_dashboard.Prelude.{ℕ, Bool, true, false, not, List, [], ◌∷◌, if◌then◌else◌}
use cpa_keeper_dashboard.Prelude.Floats.{Floats}

pub record Point (F : Type 0) : Type 0 where
  pub x : F
  pub y : F

pub data Command (F : Type 0) : Type 0 where
  move : F → F → Command F
  curve : (first_x first_y second_x second_y x y : F) → Command F

module _ {F : Type 0} ⦃f : Floats F⦄ where
  -- `Math.min(high, Math.max(low, value))`
  abbrev pub clamp : F → F → F → F
  clamp low high value = f.min high (f.max low value)

  -- Its arguments are `Number(value || 0)` of what the response gives.
  unfoldable pub cache_hit_rate : F → F → F
  cache_hit_rate input cache_read =
      if f.lt (f.literal 0 1) input
      then f.max (f.literal 0 1) (f.min (f.literal 1 1) (f.div cache_read input))
      else f.literal 0 1

  -- `tokenY` and `rateY` of `renderTrend`
  unfoldable pub token_y : (top zero_y plot_height max_token value : F) → F
  token_y top zero_y plot_height max_token value =
      clamp top zero_y (f.sub zero_y (f.mul (f.div value max_token) plot_height))

  unfoldable pub rate_y : (top zero_y plot_height value : F) → F
  rate_y top zero_y plot_height value =
      clamp top zero_y
        (f.sub zero_y (f.mul (f.max (f.literal 0 1) (f.min (f.literal 1 1) value)) plot_height))

  unfoldable pub health_level : F → F → ℕ
  health_level successes failures =
      let total = f.add successes failures in
      let rate = f.div successes total in
      let green_threshold = f.min (f.literal 99 100) (
        f.add (f.literal 9 10) (
          f.mul (f.literal 45 1000)
            (f.max (f.literal 0 1) (f.log10 (f.div total (f.literal 10 1)))))) in
      if f.is_falsy total
      then 0
      else if f.lt rate (f.literal 5 10)
      then 1
      else if f.lt rate (f.literal 65 100)
      then 2
      else if f.lt rate (f.literal 8 10)
      then 3
      else if f.lt rate green_threshold
      then 4
      else 5

  -- The heights of the control points between two points, before they are clamped.
  abbrev pub first_height : Point F → Point F → F
  first_height p q = f.add p.y (f.mul (f.sub q.y p.y) (f.literal 12 100))

  abbrev pub second_height : Point F → Point F → F
  second_height p q = f.sub q.y (f.mul (f.sub q.y p.y) (f.literal 12 100))

  abbrev pub curve_to : F → F → Point F → Point F → Command F
  curve_to min_y max_y p q =
      curve (f.add p.x (f.mul (f.sub q.x p.x) (f.literal 32 100)))
        (clamp min_y max_y (first_height p q))
        (f.sub q.x (f.mul (f.sub q.x p.x) (f.literal 32 100)))
        (clamp min_y max_y (second_height p q)) q.x q.y

  unfoldable pub curves : F → F → Point F → List (Point F) → List (Command F)
  curves min_y max_y p [] = []
  curves min_y max_y p (q ∷ qs) = curve_to min_y max_y p q ∷ curves min_y max_y q qs

  unfoldable pub build_clamped_smooth_path : F → F → List (Point F) → List (Command F)
  build_clamped_smooth_path min_y max_y [] = []
  build_clamped_smooth_path min_y max_y (p ∷ ps) = move p.x p.y ∷ curves min_y max_y p ps
