-- ===== src/Trend/Tests.antt =====
-- Two points out of order, a legend that is clicked, and a pointer that comes and goes.
use cpa_keeper_dashboard.Prelude.{◌≡◌, refl, true, Option, none, some, List, [], ◌∷◌}
use cpa_keeper_dashboard.Prelude.Floats.{Tenths, tenths, Tenths-IsLinear}
use cpa_keeper_dashboard.Trend.{
  TrendPoint, TrendView, chart, ActiveDims, input, output, cache_write, cache_read, hit_rate,
  toggle_dim, normalized_points, trend_view, has_any_usage,
}
use cpa_keeper_dashboard.Trend.Legend.{
  TrendState, LegendEvent, load, click, render_trend, legend_event, legend_events, IsDrawn,
  legend_events-IsDrawn,
}
use cpa_keeper_dashboard.Trend.Pointer.{
  closest_from, closest_index, Nearest, closest_index-Nearest, HoverView, hidden, at_point,
}
use cpa_keeper_dashboard.Trend.Frames.{
  Chart, ChartEvent, mouse_move, mouse_leave, frame, chart_event, chart_events,
}

abbrev point : TrendPoint Tenths
point = record {
  timestamp_ms = 2000;
  requests = some 10;
  tokens = some 0;
  total_tokens = some 300;
  reasoning = some 0;
  reasoning_tokens = some 0;
  input = some 200;
  output = some 100;
  cache_write = some 0;
  cache_read = some 0;
  hit_rate = some 0;
  actual_cost = some 0;
  cost_usd = some 0;
  standard_cost = some 0;
}

abbrev earlier_point : TrendPoint Tenths
earlier_point = record point { timestamp_ms = 1000 }

abbrev all_active : ActiveDims
all_active = record {
  input = true;
  output = true;
  cache_write = true;
  cache_read = true;
  hit_rate = true;
}

abbrev empty_trend : TrendState Tenths
empty_trend = record {
  active = all_active;
  chips = all_active;
  last_points = [];
  view = TrendView.no_usage;
}

abbrev loaded_and_clicked : List (LegendEvent Tenths)
loaded_and_clicked = load (point ∷ earlier_point ∷ []) ∷ click output ∷ []

drawn :
    (legend_events loaded_and_clicked empty_trend).view
    ≡ chart (input ∷ cache_write ∷ cache_read ∷ hit_rate ∷ []) (earlier_point ∷ point ∷ [])
unfolding legend_events legend_event render_trend normalized_points trend_view toggle_dim
    has_any_usage
drawn = refl

empty_trend-IsDrawn : IsDrawn empty_trend
unfolding normalized_points trend_view has_any_usage
empty_trend-IsDrawn = record { pressed = refl; sorted = tt; normal = refl; drawn = refl }

legend_events-IsDrawn_example : IsDrawn (legend_events loaded_and_clicked empty_trend)
legend_events-IsDrawn_example =
    legend_events-IsDrawn loaded_and_clicked empty_trend empty_trend-IsDrawn

abbrev distances : List Tenths
distances = some 20 ∷ some 40 ∷ []

closest : closest_index {F = Tenths} (λ d. d) (some 30) distances ≡ 1
unfolding closest_index closest_from
closest = refl

closest_index-Nearest_example :
    Nearest {F = Tenths}
      (λ d. d)
      (some 30 ∷ distances)
      (closest_index {F = Tenths} (λ d. d) (some 30) distances)
      (some 30 ∷ distances)
closest_index-Nearest_example =
    closest_index-Nearest {F = Tenths} (λ d. d) (some 30) distances (refl, (refl, (refl, tt)))

abbrev away : Chart Tenths
away = record {
  hover_frame = 0;
  requested = none;
  last_request = 0;
  last_pointer = none;
  view = hidden;
}

abbrev first_point : Tenths → Option HoverView
first_point x = some (at_point 0)

abbrev pass : List (ChartEvent Tenths)
pass = mouse_move (some 10) ∷ mouse_move (some 20) ∷ frame ∷ []

left :
    (chart_events first_point (mouse_move (some 10) ∷ mouse_leave ∷ frame ∷ []) away).view ≡ hidden
unfolding chart_events chart_event
left = refl
