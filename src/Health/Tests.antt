-- ===== src/Health/Tests.antt =====
-- The grid of concrete points, and the theorems at them.
use cpa_keeper_dashboard.Prelude.{◌<◌, ◌≡◌, refl, List, [], ◌∷◌}
use cpa_keeper_dashboard.Prelude.OrdMap.{get}
use cpa_keeper_dashboard.Prelude.Interface.{nat_eq}
use cpa_keeper_dashboard.Health.{
  Point, normalized, points_by_slot, timed, sort_points, insert_point,
}
use cpa_keeper_dashboard.Health.Slots.{Mem, IsLatest, points_by_slot-IsLatest}

abbrev early : Point
early = record { timestamp_ms = 900_000_000; requests = 3; failures = 1 }

abbrev late : Point
late = record { timestamp_ms = 901_800_000; requests = 5; failures = 0 }

abbrev two_points : List Point
two_points = late ∷ early ∷ []

two_points_sorted : normalized two_points ≡ early ∷ late ∷ []
unfolding timed sort_points insert_point
two_points_sorted = refl

points_by_slot-IsLatest_example :
    IsLatest 900_000_000
      (λ q. Mem q two_points × (0 < q.timestamp_ms))
      (get 900_000_000 (points_by_slot two_points))
points_by_slot-IsLatest_example = points_by_slot-IsLatest 900_000_000 two_points
