-- ===== src/Charts/Bounds.antt =====
-- Rates stay between 0 and 1, and lines in their chart.
use cpa_keeper_dashboard.Prelude.{◌≡◌, refl, ap, Bool-cases, inl, inr, List, [], ◌∷◌, map}
use cpa_keeper_dashboard.Prelude.Floats.{Floats, ◌≼◌, IsNumber, IsOrdered}
use cpa_keeper_dashboard.Charts.{
  Point, Command, move, curve, clamp, cache_hit_rate, first_height, second_height, curves,
  build_clamped_smooth_path,
}

module _ {F : Type 0} ⦃f : Floats F⦄ ⦃o : IsOrdered F⦄ where
  abbrev pub IsWithin : F → F → F → Type 0
  IsWithin low high x = (low ≼ x) × (x ≼ high)

  clamp-IsWithin :
      (low high v : F)
      → low ≼ high
      → IsNumber low
      → IsNumber high
      → IsNumber v
      → IsWithin low high (clamp low high v)
  clamp-IsWithin low high v h a b c = (
    o.le_min low high (f.max low v) h (o.le_max low v a c),
    o.min_le high (f.max low v) b (o.max-IsNumber low v a c),
  )

  -- The line ends in a list of points.
  abbrev end_of : Command F → Point F
  end_of (move x y) = record { x = x; y = y }
  end_of (curve a b c d x y) = record { x = x; y = y }

  abbrev BendsWithin : F → F → List (Command F) → Type 0
  BendsWithin low high [] = Unit
  BendsWithin low high (move x y ∷ cs) = BendsWithin low high cs
  BendsWithin low high (curve a b c d x y ∷ cs) =
      IsWithin low high b × IsWithin low high d × BendsWithin low high cs

  abbrev AllNumbers : Point F → List (Point F) → Type 0
  AllNumbers p [] = Unit
  AllNumbers p (q ∷ qs) =
      IsNumber (first_height p q) × IsNumber (second_height p q) × AllNumbers q qs

  abbrev pub HasNumbers : List (Point F) → Type 0
  HasNumbers [] = Unit
  HasNumbers (p ∷ ps) = AllNumbers p ps

  -- A path through the points that bends within the bounds.
  abbrev pub Traces : F → F → List (Point F) → List (Command F) → Type 0
  Traces low high ps cs = (map end_of cs ≡ ps) × BendsWithin low high cs

  module _ (low high : F) (h : low ≼ high) (a : IsNumber low) (b : IsNumber high) where
    curves-Traces :
        (p : Point F) (ps : List (Point F))
        → AllNumbers p ps
        → Traces low high ps (curves low high p ps)
    unfolding curves
    curves-Traces p [] n = (refl, tt)
    curves-Traces p (q ∷ qs) (m, n, r) =
        let (e, w) = curves-Traces q qs r in
        (
          ap (λ t. q ∷ t) e,
          (clamp-IsWithin low high _ h a b m, clamp-IsWithin low high _ h a b n, w),
        )

    -- The smooth path goes through all the points in their order, and its control points lie between
    -- the least and the greatest height, if their computed heights are numbers and no NaN.
    pub build_clamped_smooth_path-Traces :
        (ps : List (Point F))
        → HasNumbers ps
        → Traces low high ps (build_clamped_smooth_path low high ps)
    unfolding build_clamped_smooth_path
    build_clamped_smooth_path-Traces [] n = (refl, tt)
    build_clamped_smooth_path-Traces (p ∷ ps) n =
        let (e, w) = curves-Traces p ps n in (ap (λ t. p ∷ t) e, w)

  -- The share of the input that was read from the cache lies between 0 and 1, whatever the counts
  -- are, if their quotient is a number and no NaN.
  pub cache_hit_rate-IsWithin :
      (input cache_read : F)
      → IsNumber (f.div cache_read input)
      → IsWithin (f.literal 0 1) (f.literal 1 1) (cache_hit_rate input cache_read)
  unfolding cache_hit_rate
  cache_hit_rate-IsWithin input cache_read n =
      let zero = f.literal 0 1 in
      let one = f.literal 1 1 in
      let z = o.literal-IsNumber 0 1 in
      let u = o.literal-IsNumber 1 1 in
      let q = f.div cache_read input in
      elim (Bool-cases (f.lt zero input)) [
        | inl some_input ↦ rw some_input (
          o.le_max zero (f.min one q) z (o.min-IsNumber one q u n),
          o.max_le zero (f.min one q) one o.zero_le_one (o.min_le one q u n),
        )
        | inr no_input ↦ rw no_input (z, o.zero_le_one)
      ]
