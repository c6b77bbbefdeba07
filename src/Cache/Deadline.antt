-- ===== src/Cache/Deadline.antt =====
-- `state.refreshDeadline`: the time at which the data in use first goes stale.
use cpa_keeper_dashboard.Prelude.{ℕ, ◌<◌, ◌≡◌, List, [], ◌∷◌, arith, min}
use cpa_keeper_dashboard.Cache.{FrontendCache, track_cache_expiry}

abbrev pub least : ℕ → List ℕ → ℕ
least t [] = t
least t (u ∷ ts) = least (min t u) ts

abbrev pub AllPositive : List ℕ → Type 0
AllPositive [] = Unit
AllPositive (t ∷ ts) = (0 < t) × AllPositive ts

module _ {D : Type 0} where
  -- The expiries tracked by the calls of `cached` of one load, in their order.
  pub track_all : List ℕ → FrontendCache D → FrontendCache D
  track_all [] s = s
  track_all (t ∷ ts) s = track_all ts (track_cache_expiry t s)

  track_pending :
      (t : ℕ) (ts : List ℕ) (s : FrontendCache D)
      → 0 < t
      → AllPositive ts
      → s.refresh_deadline ≡ t
      → (track_all ts s).refresh_deadline ≡ least t ts
  unfolding track_all
  track_pending t [] s p ps e = e
  track_pending t (u ∷ ts) s p (q, qs) e =
      track_pending (min t u) ts (track_cache_expiry u s) (omega arith) qs
        (unfold track_cache_expiry in ground arith)

  -- After the deadline is reset, as a load does, it is the least of the expiries that the load's
  -- calls of `cached` track, in whatever order they come: the data first to go stale.
  pub deadline-least :
      (t : ℕ) (ts : List ℕ) (s : FrontendCache D)
      → AllPositive (t ∷ ts)
      → s.refresh_deadline ≡ 0
      → (track_all (t ∷ ts) s).refresh_deadline ≡ least t ts
  unfolding track_all
  deadline-least t ts s (p, ps) e =
      track_pending t ts (track_cache_expiry t s) p ps (unfold track_cache_expiry in ground arith)
