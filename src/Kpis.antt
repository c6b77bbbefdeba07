-- ===== src/Kpis.antt =====
-- The panels of the key figures (go/dashboard/app.js): the points of `makeSparkline`, and
-- `animateNumber`, with the browser's animation frames, for one element. Times are milliseconds, a
-- text is the number that the element's formatter is given; `Math.pow(x, 3)` is a parameter.
pub mod Animation
mod Tests
use cpa_keeper_dashboard.Prelude.{
  ℕ, zero, suc, ◌+◌, ◌-◌, Bool, true, false, ◌||◌, not, Option, none, some, List, [], ◌∷◌, ◌++◌,
  if◌then◌else◌, ltb, length, ◌==◌,
}
use cpa_keeper_dashboard.Prelude.Floats.{Floats}
use cpa_keeper_dashboard.Charts.{Point, Command, build_clamped_smooth_path}
use cpa_keeper_dashboard.Tokens.{nothing, or_falsy}

-- A run of `tick`.
pub record Run (F : Type 0) : Type 0 where
  pub start_time : ℕ
  pub prev : F
  pub end_value : F

-- An element with its entry of `previousKpiValues` and the runs that wait for the next frame, in the
-- order in which they asked for it.
pub record Figure (F : Type 0) : Type 0 where
  pub previous : Option F
  pub text : F
  pub runs : List (Run F)

abbrev pub animation_ms : ℕ
animation_ms = 450

module _ {F : Type 0} ⦃f : Floats F⦄ where
  abbrev pub previous_or : Option F → F → F
  previous_or none end_value = end_value
  previous_or (some prev) end_value = prev

  -- `isNaN(end) || Math.abs(end - prev) < 0.000001`
  unfoldable pub is_immediate : (prev end_value : F) → Bool
  is_immediate prev end_value =
      not (f.le end_value end_value) || f.lt (f.abs (f.sub end_value prev)) (f.literal 1 1000000)

  -- The target is `Number(target || 0)`.
  unfoldable pub animate_number : (now : ℕ) → (target : F) → Figure F → Figure F
  unfolding is_immediate
  animate_number now target s =
      let prev = previous_or s.previous target in
      if is_immediate prev target
      then record s { previous = some target; text = target }
      else record s {
        previous = some target;
        runs = s.runs ++ (record { start_time = now; prev = prev; end_value = target } ∷ []);
      }

  -- `p < 1`
  abbrev pub is_running : ℕ → Run F → Bool
  is_running now r = ltb now (r.start_time + animation_ms)

  -- `prev + (end - prev) * ease`
  unfoldable pub current_value : (cube : F → F) → ℕ → Run F → F
  current_value cube now r =
      let p =
        f.div (f.sub (f.literal now 1) (f.literal r.start_time 1)) (f.literal animation_ms 1) in
      let ease = f.sub (f.literal 1 1) (cube (f.sub (f.literal 1 1) p)) in
      f.add r.prev (f.mul (f.sub r.end_value r.prev) ease)

  -- What a `tick` writes last.
  abbrev pub tick_text : (cube : F → F) → ℕ → Run F → F
  tick_text cube now r = if is_running now r then current_value cube now r else r.end_value

  -- The frame runs each `tick` in turn, and those that go on ask for the next frame.
  unfoldable pub run_ticks : (cube : F → F) → ℕ → List (Run F) → F → F
  unfolding current_value
  run_ticks cube now [] text = text
  run_ticks cube now (r ∷ rs) text = run_ticks cube now rs (tick_text cube now r)

  unfoldable pub still_running : ℕ → List (Run F) → List (Run F)
  still_running now [] = []
  still_running now (r ∷ rs) =
      let rest = still_running now rs in if is_running now r then r ∷ rest else rest

  unfoldable pub animation_frame : (cube : F → F) → ℕ → Figure F → Figure F
  unfolding run_ticks still_running
  animation_frame cube now s = record s {
    text = run_ticks cube now s.runs s.text;
    runs = still_running now s.runs;
  }

  unfoldable pub animation_frames : (cube : F → F) → List ℕ → Figure F → Figure F
  unfolding animation_frame
  animation_frames cube [] s = s
  animation_frames cube (now ∷ nows) s = animation_frames cube nows (animation_frame cube now s)

  abbrev least : F → List F → F
  least m [] = m
  least m (x ∷ xs) = least (f.min m x) xs

  abbrev greatest : F → List F → F
  greatest m [] = m
  greatest m (x ∷ xs) = greatest (f.max m x) xs

  -- The points from an index on, of `count` values.
  unfoldable pub spark_points : (count : ℕ) (low range : F) (index : ℕ) → List F → List (Point F)
  spark_points count low range index [] = []
  spark_points count low range index (v ∷ vs) =
      record {
        x =
            if count == 1
            then f.div (f.literal 240 1) (f.literal 2 1)
            else f.mul (f.div (f.literal index 1) (f.literal (count - 1) 1)) (f.literal 240 1);
        y = f.sub (f.literal 32 1) (f.mul (f.div (f.sub v low) range) (f.literal 26 1));
      }
      ∷ spark_points count low range (suc index) vs

  abbrev spark_path : F → List F → List (Command F)
  spark_path v vs =
      let low = least v vs in
      let range = or_falsy (f.sub (greatest v vs) low) (f.literal 1 1) in
      build_clamped_smooth_path (f.literal 3 1) (f.literal 33 1)
        (spark_points (suc (length vs)) low range 0 (v ∷ vs))

  -- The line of a sparkline, of the values of the points; eight zeros stand for none.
  unfoldable pub make_sparkline : List F → List (Command F)
  unfolding spark_points build_clamped_smooth_path
  make_sparkline [] =
      spark_path nothing (nothing ∷ nothing ∷ nothing ∷ nothing ∷ nothing ∷ nothing ∷ nothing ∷ [])
  make_sparkline (v ∷ vs) = spark_path v vs
