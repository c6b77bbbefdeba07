-- ===== src/Health.antt =====
-- The grid of health cells (go/dashboard/app.js): `renderHealth` up to the cells' colours and
-- texts, and the click on a cell. Times and counts of a point are numbers that are not negative.
pub mod Cells
pub mod Slots
mod Tests
use cpa_keeper_dashboard.Prelude.{
  ℕ, zero, suc, ◌+◌, ◌-◌, ◌*◌, ◌/◌, Bool, true, false, ◌||◌, Option, none, some, List, [], ◌∷◌,
  ◌==◌, ltb, leb, if◌then◌else◌,
}
use cpa_keeper_dashboard.Prelude.Int.{ℤ, pos, negsuc, ◌+ℤ◌, ◌-ℤ◌, sub_ℕ}
use cpa_keeper_dashboard.Prelude.OrdMap.{OrdMap, get, put}
use cpa_keeper_dashboard.Prelude.Interface.{nat_eq}

abbrev pub slot_milliseconds : ℕ
slot_milliseconds = 15 * 60 * 1000

-- `HEALTH_DAYS * HEALTH_SLOTS_PER_DAY`
abbrev pub total_slots : ℕ
total_slots = 5 * 96

pub record Point : Type 0 where
  pub timestamp_ms : ℕ
  pub requests : ℕ
  pub failures : ℕ

-- What is shown in a cell: the time may be negative where the latest point is that early.
pub record Cell : Type 0 where
  pub timestamp : ℤ
  pub reqs : ℕ
  pub succs : ℕ
  pub fails : ℕ

unfoldable pub timed : List Point → List Point
timed [] = []
timed (p ∷ ps) = let rest = timed ps in if ltb 0 p.timestamp_ms then p ∷ rest else rest

-- `sort` by the time, which keeps the order of points of the same time.
unfoldable pub insert_point : Point → List Point → List Point
insert_point p [] = p ∷ []
insert_point p (q ∷ ps) =
    let rest = insert_point p ps in
    if leb p.timestamp_ms q.timestamp_ms then p ∷ q ∷ ps else q ∷ rest

unfoldable pub sort_points : List Point → List Point
sort_points [] = []
sort_points (p ∷ ps) = insert_point p (sort_points ps)

abbrev pub normalized : List Point → List Point
normalized points = sort_points (timed points)

-- The start of the slot of a time.
abbrev pub slot_of : ℕ → ℕ
slot_of t = t / slot_milliseconds * slot_milliseconds

-- `normalized.at(-1)?.timestamp_ms || 0`
unfoldable pub latest_timestamp : List Point → ℕ
latest_timestamp [] = 0
latest_timestamp (p ∷ []) = p.timestamp_ms
latest_timestamp (_ ∷ p ∷ ps) = latest_timestamp (p ∷ ps)

unfoldable pub put_points : List Point → OrdMap ℕ Point → OrdMap ℕ Point
put_points [] m = m
put_points (p ∷ ps) m = put_points ps (put (slot_of p.timestamp_ms) p m)

abbrev pub points_by_slot : List Point → OrdMap ℕ Point
points_by_slot points = put_points (normalized points) []

abbrev pub cell_of : ℤ → Option Point → Cell
cell_of t none = record { timestamp = t; reqs = 0; succs = 0; fails = 0 }
cell_of t (some p) = record {
  timestamp = pos p.timestamp_ms;
  reqs = p.requests;
  succs = p.requests - p.failures;
  fails = p.failures;
}

-- `pointsBySlot.get(timestamp)`: no point has a slot before 1970.
unfoldable pub get_point : ℤ → OrdMap ℕ Point → Option Point
get_point (pos t) m = get t m
get_point (negsuc t) m = none

-- The cells from an index on, where so many are left.
unfoldable pub cells_from : ℕ → ℕ → ℕ → OrdMap ℕ Point → List Cell
cells_from zero index end_slot m = []
cells_from (suc left) index end_slot m =
    let t = sub_ℕ (end_slot + index * slot_milliseconds) ((total_slots - 1) * slot_milliseconds) in
    cell_of t (get_point t m) ∷ cells_from left (index + 1) end_slot m

unfoldable pub visible_of : List Point → List Point → List Cell
visible_of [] points = []
visible_of (p ∷ ps) points =
    cells_from total_slots 0 (slot_of (latest_timestamp (p ∷ ps))) (points_by_slot points)

-- The cells of `renderHealth`.
unfoldable pub visible_cells : List Point → List Cell
visible_cells points = visible_of (normalized points) points

abbrev pub is_zero : ℤ → Bool
is_zero (pos t) = t == 0
is_zero (negsuc t) = false

-- The range that a click on a cell filters the events by; a cell with no requests has none.
unfoldable pub clicked_range : Cell → Option (ℤ × ℤ)
clicked_range c =
    if is_zero c.timestamp || c.reqs == 0
    then none
    else some (c.timestamp, c.timestamp +ℤ pos slot_milliseconds -ℤ pos 1)

unfoldable pub sum_requests : List Cell → ℕ
sum_requests [] = 0
sum_requests (c ∷ cells) = c.reqs + sum_requests cells

unfoldable pub sum_failures : List Cell → ℕ
sum_failures [] = 0
sum_failures (c ∷ cells) = c.fails + sum_failures cells

-- The counts of successes and failures above the grid.
unfoldable pub shown_counts : List Cell → ℕ × ℕ
shown_counts cells = (sum_requests cells - sum_failures cells, sum_failures cells)
