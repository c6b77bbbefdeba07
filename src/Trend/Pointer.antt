-- ===== src/Trend/Pointer.antt =====
-- What the pointer shows over the chart of the trend: the handlers that `renderTrend` sets, with the
-- browser's animation frames, and `updateHover`.
use cpa_keeper_dashboard.Prelude.{
  ℕ, suc, ◌+◌, ◌≡◌, refl, ap, ◌∙◌, ◌||◌, Option, none, some, List, [], ◌∷◌, if◌then◌else◌, arith,
  get_elem?, Bool-cases, inl, inr,
}
use cpa_keeper_dashboard.Prelude.Floats.{Floats, ◌≼◌, IsNumber, IsLinear}
use cpa_keeper_dashboard.Prelude.Sorting.{All}
use cpa_keeper_dashboard.Tokens.{nothing}

-- The reduction, at an index: the best so far and its index. A point counts by its distance from the
-- time under the pointer, `Math.abs(point.timestamp_ms - targetTimestamp)`.
module _ {F : Type 0} ⦃f : Floats F⦄ {P : Type 0} (distance : P → F) where
  unfoldable pub closest_from : (closest : P) (closest_index index : ℕ) → List P → ℕ
  closest_from closest closest_index index [] = closest_index
  closest_from closest closest_index index (p ∷ ps) =
      let rest = closest_from p index (suc index) ps in
      let same = closest_from closest closest_index (suc index) ps in
      if f.lt (distance p) (distance closest) then rest else same

  -- The reduction starts with the index 0, at the first point.
  unfoldable pub closest_index : P → List P → ℕ
  unfolding closest_from
  closest_index first rest = elim rest [ [] ↦ 0 | q ∷ qs ↦ closest_from first 0 0 (first ∷ q ∷ qs) ]

-- What a list holds at an index, at least as near as all of some points.
abbrev pub Nearest :
    {F : Type 0} ⦃f : Floats F⦄ {P : Type 0} → (P → F) → List P → ℕ → List P → Type 0
Nearest {P} distance points index others =
    (p : P) × (get_elem? points index ≡ some p) × All (λ q. distance p ≼ distance q) others

module _ {F : Type 0} ⦃f : Floats F⦄ ⦃l : IsLinear F⦄ {P : Type 0} (distance : P → F) where
  closest_from-Nearest :
      (points : List P) (closest : P) (best index : ℕ) (ps : List P)
      → IsNumber (distance closest)
      → All (λ p. IsNumber (distance p)) ps
      → get_elem? points best ≡ some closest
      → ((j : ℕ) → get_elem? points (index + j) ≡ get_elem? ps j)
      → Nearest distance points (closest_from distance closest best index ps) (closest ∷ ps)
  unfolding closest_from
  closest_from-Nearest points closest best index [] n a e suffix = (closest, e, (n, tt))
  closest_from-Nearest points closest best index (p ∷ ps) n a e suffix =
      elim (Bool-cases (f.lt (distance p) (distance closest))) [
        | inl nearer ↦
            let here : get_elem? points index ≡ some p = rw⁻¹ (add_zero index) (suffix 0) in
            let (r, er, ar) =
              closest_from-Nearest points p index (suc index) ps a.0 a.1 here next in
            rw nearer (r, er, (l.le_trans _ _ _ ar.0 (l.le_of_lt _ _ nearer), ar))
        | inr farther ↦
            let (r, er, ar) =
              closest_from-Nearest points closest best (suc index) ps n a.1 e next in
            rw farther
              (r, er, (ar.0, (l.le_trans _ _ _ ar.0 (l.le_of_not_lt _ _ a.0 n farther), ar.1)))
      ]
    where
      add_zero : (n : ℕ) → n + 0 ≡ n
      add_zero n = omega arith

      next : (j : ℕ) → get_elem? points (suc index + j) ≡ get_elem? ps j
      next j = ap (get_elem? points) (shift index j) ∙ suffix (suc j)
        where
          shift : (n j : ℕ) → suc n + j ≡ n + suc j
          shift n j = omega arith

  -- Where no distance is NaN, the index that the pointer picks is that of a point, and no other point
  -- is nearer to the time under the pointer.
  pub closest_index-Nearest :
      (first : P) (rest : List P)
      → All (λ p. IsNumber (distance p)) (first ∷ rest)
      → Nearest distance (first ∷ rest) (closest_index distance first rest) (first ∷ rest)
  unfolding closest_index
  closest_index-Nearest first [] a = (first, refl, (a.0, tt))
  closest_index-Nearest first (q ∷ qs) a =
      let (p, e, d) =
        closest_from-Nearest (first ∷ q ∷ qs) first 0 0 (first ∷ q ∷ qs) a.0 a refl
          (λ j. ap (get_elem? (first ∷ q ∷ qs)) (zero_add j)) in
      (p, e, d.1)
    where
      zero_add : (n : ℕ) → 0 + n ≡ n
      zero_add n = omega arith

-- Where the chart is on the page and what it shows, in pixels and milliseconds.
pub record Geometry (F : Type 0) : Type 0 where
  pub rect_left : F
  pub rect_width : F
  pub width : F
  pub left : F
  pub right : F
  pub plot_width : F
  pub first_timestamp : F
  pub timestamp_span : F

pub data HoverView : Type 0 where
  hidden : HoverView
  at_point : (index : ℕ) → HoverView

module _ {F : Type 0} ⦃f : Floats F⦄ where
  unfoldable pub view_x : Geometry F → F → F
  view_x g client_x = f.mul (f.div (f.sub client_x g.rect_left) g.rect_width) g.width

  unfoldable pub target_timestamp : Geometry F → (view_x : F) → F
  target_timestamp g x =
      let ratio =
        if f.is_falsy g.plot_width
        then nothing
        else f.max nothing (f.min (f.literal 1 1) (f.div (f.sub x g.left) g.plot_width)) in
      if f.is_falsy g.timestamp_span
      then g.first_timestamp
      else f.add g.first_timestamp (f.mul ratio g.timestamp_span)

  -- `updateHover` at an abscissa, for the times of the points; `none` where it changes nothing
  unfoldable pub update_hover : Geometry F → (first : F) → (rest : List F) → F → Option HoverView
  unfolding view_x target_timestamp
  update_hover g first rest client_x =
      let x = view_x g client_x in
      let target = target_timestamp g x in
      if f.is_falsy g.rect_width
      then none
      else if f.lt x g.left || f.lt (f.sub g.width g.right) x
      then some hidden
      else some (at_point (closest_index (λ timestamp. f.abs (f.sub timestamp target)) first rest))
