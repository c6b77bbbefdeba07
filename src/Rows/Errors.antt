-- ===== src/Rows/Errors.antt =====
-- The breakdown of an upstream's errors (`openUpstream`).
use cpa_keeper_dashboard.Prelude.{
  ℕ, ◌+◌, ◌≡◌, ◌∙◌, ◌&&◌, List, [], ◌∷◌, if◌then◌else◌, ◌==◌, ==_iff, arith,
}
use cpa_keeper_dashboard.Prelude.Interface.{nat_eq}
use cpa_keeper_dashboard.Prelude.OrdMap.{OrdMap, get, put, get-put}
use cpa_keeper_dashboard.Prelude.Sorting.{sum_by}
use cpa_keeper_dashboard.Rows.{RecentEvent, error_map, count_so_far}

-- How many of the events failed with a code.
abbrev pub failures : ℕ → List RecentEvent → ℕ
failures code es = sum_by (λ e. if e.failed && e.status_code == code then 1 else 0) es

error_map-get :
    (es : List RecentEvent) (m : OrdMap ℕ ℕ) (code : ℕ)
    → count_so_far (get code (error_map es m)) ≡ count_so_far (get code m) + failures code es
unfolding error_map
error_map-get [] m code = omega arith
error_map-get (e ∷ es) m code =
    let m' = if e.failed then put e.status_code (count_so_far (get e.status_code m) + 1) m else m in
    error_map-get es m' code
    ∙ ground (
      arith,
      get-put e.status_code code (count_so_far (get e.status_code m) + 1) m,
      ==_iff e.status_code code,
    )

-- The breakdown counts for each code exactly the events that failed with it.
pub error_map-counts :
    (es : List RecentEvent) (code : ℕ)
    → count_so_far (get code (error_map es [])) ≡ failures code es
unfolding get
error_map-counts es code = error_map-get es [] code ∙ omega arith
