-- ===== src/Health/Slots.antt =====
-- Which point a slot of the grid shows.
use mathlib.Core.Path.{subst}
use cpa_keeper_dashboard.Prelude.{
  ==_iff, leb→le, ℕ, ◌≤◌, ◌<◌, ◌≡◌, ◌≢◌, refl, true, false, Option, none, some, List, [], ◌∷◌, ◌==◌,
  leb, if◌then◌else◌, arith, Bool-cases, inl, inr, ◌⊎◌, ◌∙◌, sym,
}
use cpa_keeper_dashboard.Prelude.OrdMap.{OrdMap, get, put, get-put}
use cpa_keeper_dashboard.Prelude.Interface.{nat_eq}
use cpa_keeper_dashboard.Health.{
  Point, timed, insert_point, sort_points, normalized, slot_of, put_points, points_by_slot,
}

abbrev pub Mem : Point → List Point → Type 0
Mem p [] = ⊥
Mem p (q ∷ ps) = (p ≡ q) ⊎ Mem p ps

-- No point of the slot is later; where there is none, no point is of the slot.
abbrev pub IsLatest : ℕ → (Point → Type 0) → Option Point → Type 0
IsLatest t In none = (q : Point) → In q → slot_of q.timestamp_ms ≢ t
IsLatest t In (some r) =
    In r
    × (slot_of r.timestamp_ms ≡ t)
    × ((q : Point) → In q → slot_of q.timestamp_ms ≡ t → q.timestamp_ms ≤ r.timestamp_ms)

Sorted : List Point → Type 0
Sorted [] = Unit
Sorted (p ∷ ps) = ((q : Point) → Mem q ps → p.timestamp_ms ≤ q.timestamp_ms) × Sorted ps

mem-insert : (p q : Point) (ps : List Point) → Mem q (insert_point p ps) → (q ≡ p) ⊎ Mem q ps
unfolding insert_point
mem-insert p q [] m = m
mem-insert p q (r ∷ ps) m = ground (arith, mem-insert p q ps)

insert-mem : (p q : Point) (ps : List Point) → (q ≡ p) ⊎ Mem q ps → Mem q (insert_point p ps)
unfolding insert_point
insert-mem p q [] m = m
insert-mem p q (r ∷ ps) m = ground (arith, insert-mem p q ps)

mem-sort : (q : Point) (ps : List Point) → Mem q (sort_points ps) → Mem q ps
unfolding sort_points
mem-sort q [] m = m
mem-sort q (p ∷ ps) m = ground (arith, mem-insert p q (sort_points ps) m, mem-sort q ps)

sort-mem : (q : Point) (ps : List Point) → Mem q ps → Mem q (sort_points ps)
unfolding sort_points
sort-mem q [] m = m
sort-mem q (p ∷ ps) (inl e) = insert-mem p q (sort_points ps) (inl e)
sort-mem q (p ∷ ps) (inr m) = insert-mem p q (sort_points ps) (inr (sort-mem q ps m))

insert-Sorted : (p : Point) (ps : List Point) → Sorted ps → Sorted (insert_point p ps)
unfolding insert_point Sorted
insert-Sorted p [] s = (λ q m. absurd m, tt)
insert-Sorted p (r ∷ ps) (b, s) = elim (Bool-cases (leb p.timestamp_ms r.timestamp_ms)) [
  | inl le ↦ rw le (
    (λ q m. elim m [
      | inl e ↦ rw e (omega (arith, leb→le p.timestamp_ms r.timestamp_ms le))
      | inr n ↦ omega (arith, leb→le p.timestamp_ms r.timestamp_ms le, b q n)
    ]),
    (b, s),
  )
  | inr late ↦ rw late (
    (λ q m. elim (mem-insert p q ps m) [ inl e ↦ rw e (ground arith) | inr n ↦ b q n ]),
    insert-Sorted p ps s,
  )
]

sort-Sorted : (ps : List Point) → Sorted (sort_points ps)
unfolding sort_points Sorted
sort-Sorted [] = tt
sort-Sorted (p ∷ ps) = insert-Sorted p (sort_points ps) (sort-Sorted ps)

mem-timed : (q : Point) (ps : List Point) → Mem q (timed ps) → Mem q ps × (0 < q.timestamp_ms)
unfolding timed
mem-timed q [] m = absurd m
mem-timed q (p ∷ ps) m = ground (arith, mem-timed q ps)

timed-mem : (q : Point) (ps : List Point) → Mem q ps → 0 < q.timestamp_ms → Mem q (timed ps)
unfolding timed
timed-mem q [] m h = m
timed-mem q (p ∷ ps) m h = ground (arith, timed-mem q ps)

IsLatest-swap :
    (t : ℕ) (In Out : Point → Type 0) (o : Option Point)
    → ((q : Point) → In q → Out q)
    → ((q : Point) → Out q → In q)
    → IsLatest t In o
    → IsLatest t Out o
IsLatest-swap t In Out none to from h = λ q m. h q (from q m)
IsLatest-swap t In Out (some r) to from (m, e, h) = (to r m, e, λ q n. h q (from q n))

-- One more point, not earlier than those before.
IsLatest-next :
    (t : ℕ) (In : Point → Type 0) (p : Point) (o : Option Point)
    → ((q : Point) → In q → q.timestamp_ms ≤ p.timestamp_ms)
    → IsLatest t In o
    → IsLatest t (λ q. In q ⊎ (q ≡ p)) (if slot_of p.timestamp_ms == t then some p else o)
IsLatest-next t In p o b h = elim (Bool-cases (slot_of p.timestamp_ms == t)) [
  | inl same ↦ rw same (
    inr refl,
    (==_iff _ _).0 same,
    λ q m e. elim m [ inl n ↦ b q n | inr e' ↦ rw e' (omega arith) ],
  )
  | inr other ↦ rw other (kept o h (λ e. true-ne-false (sym ((==_iff _ _).1 e) ∙ other)))
]
  where
    true-ne-false : true ≢ false
    true-ne-false e = ground arith

    kept :
        (o : Option Point)
        → IsLatest t In o
        → slot_of p.timestamp_ms ≢ t
        → IsLatest t (λ q. In q ⊎ (q ≡ p)) o
    kept none h n = λ q m. elim m [ inl i ↦ h q i | inr e ↦ rw e n ]
    kept (some r) (i, e, h) n = (
      inl i,
      e,
      λ q m s. elim m [
        | inl j ↦ h q j s
        | inr e' ↦ absurd (n (subst (λ u. slot_of u.timestamp_ms ≡ t) e' s))
      ],
    )

-- Putting sorted points into the map, later than all that it holds.
put-IsLatest :
    (t : ℕ) (ps : List Point) (m : OrdMap ℕ Point) (In : Point → Type 0)
    → Sorted ps
    → ((p q : Point) → In p → Mem q ps → p.timestamp_ms ≤ q.timestamp_ms)
    → IsLatest t In (get t m)
    → IsLatest t (λ q. In q ⊎ Mem q ps) (get t (put_points ps m))
unfolding put_points Sorted
put-IsLatest t [] m In s b h =
    IsLatest-swap t _ _ (get t m) (λ q i. inl i) (λ q i. elim i [ inl j ↦ j | inr n ↦ absurd n ]) h
put-IsLatest t (p ∷ ps) m In (l, s) b h =
    IsLatest-swap t _ _ _
      (λ q i. elim i [ inl (inl j) ↦ inl j | inl (inr e) ↦ inr (inl e) | inr n ↦ inr (inr n) ])
      (λ q i. elim i [ inl j ↦ inl (inl j) | inr (inl e) ↦ inl (inr e) | inr (inr n) ↦ inr n ])
      (put-IsLatest t ps (put (slot_of p.timestamp_ms) p m) (λ q. In q ⊎ (q ≡ p)) s
        (λ r q i n. elim i [ inl j ↦ b r q j (inr n) | inr e ↦ rw e (l q n) ])
        (rw (get-put (slot_of p.timestamp_ms) t p m)
          (IsLatest-next t In p (get t m) (λ q i. b q p i (inl refl)) h)))

-- A slot of the grid shows the point that is the latest of those in the slot, and none exactly
-- where no point with a time is in it; a point with no time is shown in no slot.
pub points_by_slot-IsLatest :
    (t : ℕ) (points : List Point)
    → IsLatest t (λ q. Mem q points × (0 < q.timestamp_ms)) (get t (points_by_slot points))
points_by_slot-IsLatest t points =
    IsLatest-swap t _ _ _
      (λ q i. elim i [
        | inl n ↦ absurd n
        | inr m ↦ mem-timed q points (mem-sort q (timed points) m)
      ])
      (λ q i. inr (sort-mem q (timed points) (timed-mem q points i.0 i.1)))
      (put-IsLatest t (normalized points) [] (λ _. ⊥) (sort-Sorted (timed points))
        (λ p q i m. absurd i) (unfold get in (λ q i. absurd i)))
