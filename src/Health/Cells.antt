-- ===== src/Health/Cells.antt =====
-- The cells of the grid in their order, and the range that a click on one asks for.
use cpa_keeper_dashboard.Prelude.{
  ℕ, zero, suc, ◌+◌, ◌-◌, ◌*◌, ◌≤◌, ◌<◌, ◌≡◌, ◌↔◌, refl, some, List, ◌∷◌, arith, get_elem?, length,
  ap,
}
use cpa_keeper_dashboard.Prelude.Int.{ℤ, pos, sub_ℕ, ◌+ℤ◌, ◌-ℤ◌}
use cpa_keeper_dashboard.Prelude.OrdMap.{OrdMap}
use cpa_keeper_dashboard.Health.{
  Point, cell_of, cells_from, visible_of, visible_cells, normalized, slot_of, latest_timestamp,
  points_by_slot, get_point, clicked_range, slot_milliseconds, total_slots,
}

length-cells_from :
    (left index end_slot : ℕ) (m : OrdMap ℕ Point)
    → length (cells_from left index end_slot m) ≡ left
unfolding cells_from
length-cells_from zero index end_slot m = refl
length-cells_from (suc left) index end_slot m =
    ap suc (length-cells_from left (index + 1) end_slot m)

get_elem?-cells_from :
    (left index end_slot : ℕ) (m : OrdMap ℕ Point) (i k : ℕ)
    → i < left
    → index + i ≡ k
    → get_elem? (cells_from left index end_slot m) i ≡ (
        let t = sub_ℕ (end_slot + k * slot_milliseconds) ((total_slots - 1) * slot_milliseconds) in
        some (cell_of t (get_point t m)))
unfolding cells_from
get_elem?-cells_from zero index end_slot m i k h e = absurd (omega arith)
get_elem?-cells_from (suc left) index end_slot m zero k h e =
    let e' : k ≡ index = omega arith in rw e' refl
get_elem?-cells_from (suc left) index end_slot m (suc i) k h e =
    get_elem?-cells_from left (index + 1) end_slot m i k (omega arith) (omega arith)

visible_of_lem :
    (points xs : List Point) (p : Point) (ps : List Point) (i : ℕ)
    → xs ≡ p ∷ ps
    → i < 480
    → (length (visible_of xs points) ≡ 480)
      × (get_elem? (visible_of xs points) i ≡ (
          let t =
            sub_ℕ
              (slot_of (latest_timestamp (p ∷ ps)) + i * slot_milliseconds)
              (479 * slot_milliseconds) in
          some (cell_of t (get_point t (points_by_slot points)))))
unfolding visible_of
visible_of_lem points xs p ps i e h = rw e (
  length-cells_from total_slots 0 (slot_of (latest_timestamp (p ∷ ps))) (points_by_slot points),
  get_elem?-cells_from total_slots 0 (slot_of (latest_timestamp (p ∷ ps))) (points_by_slot points) i
      i h (omega arith),
)

-- Where a point has a time, the grid has 480 cells, and the cell with number i shows the point of
-- the slot that starts 479 - i quarters of an hour before the slot of the latest point, or zeros.
pub visible_cells_lem :
    (points : List Point) (p : Point) (ps : List Point) (i : ℕ)
    → normalized points ≡ p ∷ ps
    → i < 480
    → (length (visible_cells points) ≡ 480)
      × (get_elem? (visible_cells points) i ≡ (
          let t =
            sub_ℕ
              (slot_of (latest_timestamp (p ∷ ps)) + i * slot_milliseconds)
              (479 * slot_milliseconds) in
          some (cell_of t (get_point t (points_by_slot points)))))
unfolding visible_cells
visible_cells_lem points p ps i e h = visible_of_lem points (normalized points) p ps i e h

-- Where the server gives a slot by its start and it has requests, a click on its cell asks for the
-- range from that start to one millisecond before the next slot; and a time is in this range
-- exactly if it is in the slot.
pub clicked_range_lem :
    (p : Point) (s : ℤ) (t : ℕ)
    → 0 < p.timestamp_ms
    → 0 < p.requests
    → slot_of p.timestamp_ms ≡ p.timestamp_ms
    → (clicked_range (cell_of s (some p))
        ≡ some (pos p.timestamp_ms, pos (p.timestamp_ms + 899_999)))
      × (((p.timestamp_ms ≤ t) × (t ≤ p.timestamp_ms + 899_999)) ↔ (slot_of t ≡ p.timestamp_ms))
unfolding clicked_range ◌+ℤ◌ ◌-ℤ◌
clicked_range_lem p s t h q e =
    (ground arith, (λ w. omega (arith, w.0, w.1), λ f. (omega arith, omega arith)))
