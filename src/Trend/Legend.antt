-- ===== src/Trend/Legend.antt =====
-- The legend of the trend: `bindTrendInteractiveLegend`, and `renderTrend` with the points that it
-- keeps in `state.lastTrendPoints`.
use cpa_keeper_dashboard.Prelude.{◌≡◌, refl, ap, ◌∙◌, Bool, true, false, List, [], ◌∷◌, map, arith}
use cpa_keeper_dashboard.Prelude.Floats.{Floats}
use cpa_keeper_dashboard.Prelude.Sorting.{
  sort_by, All-map, All-sort_by, sort_by-sorted, sort_by-IsSorted, map-fixed, IsSorted,
}
use cpa_keeper_dashboard.Tokens.{or_falsy}
use cpa_keeper_dashboard.Trend.{
  TrendPoint, Dimension, input, output, cache_write, cache_read, hit_rate, ActiveDims, is_active,
  toggle_dim, earlier, normalize, normalized_points, TrendView, trend_view,
}

-- `classList.toggle('is-active', …)` and `aria-pressed` of one chip
abbrev set_chip : Dimension → Bool → ActiveDims → ActiveDims
set_chip input b chips = record chips { input = b }
set_chip output b chips = record chips { output = b }
set_chip cache_write b chips = record chips { cache_write = b }
set_chip cache_read b chips = record chips { cache_read = b }
set_chip hit_rate b chips = record chips { hit_rate = b }

set_chip-toggle :
    (d : Dimension) (a : ActiveDims) → set_chip d (is_active (toggle_dim d a) d) a ≡ toggle_dim d a
unfolding toggle_dim
set_chip-toggle input a = refl
set_chip-toggle output a = refl
set_chip-toggle cache_write a = refl
set_chip-toggle cache_read a = refl
set_chip-toggle hit_rate a = refl

pub data LegendEvent (F : Type 0) : Type 0 where
  load : List (TrendPoint F) → LegendEvent F
  click : Dimension → LegendEvent F

pub record TrendState (F : Type 0) : Type 0 where
  pub active : ActiveDims
  pub chips : ActiveDims
  pub last_points : List (TrendPoint F)
  pub view : TrendView F

module _ {F : Type 0} ⦃f : Floats F⦄ where
  unfoldable pub render_trend : List (TrendPoint F) → TrendState F → TrendState F
  unfolding normalized_points trend_view
  render_trend raw s =
      let points = normalized_points raw in
      record s { last_points = points; view = trend_view s.active points }

  unfoldable pub legend_event : LegendEvent F → TrendState F → TrendState F
  unfolding render_trend toggle_dim
  legend_event (load raw) s = render_trend raw s
  legend_event (click dim) s =
      let active = toggle_dim dim s.active in
      render_trend s.last_points
        (record s { active = active; chips = set_chip dim (is_active active dim) s.chips })

  unfoldable pub legend_events : List (LegendEvent F) → TrendState F → TrendState F
  unfolding legend_event
  legend_events [] s = s
  legend_events (e ∷ es) s = legend_events es (legend_event e s)

  or_falsy_idem : (a b : F) → or_falsy (or_falsy a b) b ≡ or_falsy a b
  or_falsy_idem a b = ground arith

  normalize_idem : (p : TrendPoint F) → normalize (normalize p) ≡ normalize p
  normalize_idem p i = record p {
    tokens = or_falsy_idem p.tokens p.total_tokens i;
    reasoning = or_falsy_idem p.reasoning p.reasoning_tokens i;
    actual_cost = or_falsy_idem p.actual_cost p.cost_usd i;
  }

  leb_total : (p q : TrendPoint F) → earlier p q ≡ false → earlier q p ≡ true
  leb_total p q e = ground arith

  pub normalized_points_idem :
      (raw : List (TrendPoint F))
      → normalized_points (normalized_points raw) ≡ normalized_points raw
  unfolding normalized_points
  normalized_points_idem raw =
      let points = sort_by earlier (map normalize raw) in
      let fixed =
        All-sort_by earlier (λ p. normalize p ≡ p) (map normalize raw)
          (All-map (λ p. normalize p ≡ p) normalize raw normalize_idem) in
      ap (sort_by earlier) (map-fixed normalize points fixed)
      ∙ sort_by-sorted earlier points (sort_by-IsSorted earlier leb_total (map normalize raw))

  -- The chips show which dimensions are drawn, the points are in the order of their times, and the
  -- chart is that of these points and dimensions.
  pub record IsDrawn (s : TrendState F) : Type 0 where
    pub pressed : s.chips ≡ s.active
    pub sorted : IsSorted earlier s.last_points
    pub normal : normalized_points s.last_points ≡ s.last_points
    pub drawn : s.view ≡ trend_view s.active s.last_points

  render_trend-IsDrawn :
      (raw : List (TrendPoint F)) (s : TrendState F)
      → s.chips ≡ s.active
      → IsDrawn (render_trend raw s)
  unfolding render_trend
  render_trend-IsDrawn raw s e = record {
    pressed = e;
    sorted = unfold normalized_points in sort_by-IsSorted earlier leb_total (map normalize raw);
    normal = normalized_points_idem raw;
    drawn = refl;
  }

  legend_event-IsDrawn :
      (e : LegendEvent F) (s : TrendState F) → IsDrawn s → IsDrawn (legend_event e s)
  unfolding legend_event
  legend_event-IsDrawn (load raw) s d = render_trend-IsDrawn raw s d.pressed
  legend_event-IsDrawn (click dim) s d =
      render_trend-IsDrawn s.last_points
        (record s {
          active = toggle_dim dim s.active;
          chips = set_chip dim (is_active (toggle_dim dim s.active) dim) s.chips;
        })
        (ap (set_chip dim (is_active (toggle_dim dim s.active) dim)) d.pressed
          ∙ set_chip-toggle dim s.active)

  -- After any loads and clicks on the legend, from a chart that is drawn: each chip is pressed exactly
  -- where its dimension is active, the points are in the order of their times, filling in their numbers
  -- and sorting them again would change nothing, and the chart is that of these points and dimensions.
  pub legend_events-IsDrawn :
      (es : List (LegendEvent F)) (s : TrendState F) → IsDrawn s → IsDrawn (legend_events es s)
  unfolding legend_events
  legend_events-IsDrawn [] s d = d
  legend_events-IsDrawn (e ∷ es) s d =
      legend_events-IsDrawn es (legend_event e s) (legend_event-IsDrawn e s d)
