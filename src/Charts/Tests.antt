-- ===== src/Charts/Tests.antt =====
-- A rate and a level, in tenths.
use cpa_keeper_dashboard.Prelude.{◌≡◌, refl, some}
use cpa_keeper_dashboard.Prelude.Floats.{Tenths, tenths, Tenths-IsOrdered}
use cpa_keeper_dashboard.Charts.{cache_hit_rate, health_level}

hit_rate : cache_hit_rate {F = Tenths} (some 400) (some 100) ≡ some 2
unfolding cache_hit_rate
hit_rate = refl

level : health_level {F = Tenths} (some 70) (some 30) ≡ 3
unfolding health_level
level = refl
