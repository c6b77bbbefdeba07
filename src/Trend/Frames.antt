-- ===== src/Trend/Frames.antt =====
-- The pointer over the chart of the trend, and the browser's animation frames: the handlers that
-- `renderTrend` sets on its host. The abscissa is the part of a position that `update_hover` reads.
use cpa_keeper_dashboard.Prelude.{
  ℕ, zero, suc, ◌==◌, ◌≡◌, Option, none, some, List, [], ◌∷◌, if◌then◌else◌,
}
use cpa_keeper_dashboard.Trend.Pointer.{HoverView, hidden}

-- The request numbers count from 1; 0 stands for none.
pub record Chart (F : Type 0) : Type 0 where
  pub hover_frame : ℕ
  pub requested : Option ℕ  -- what the browser is asked to run
  pub last_request : ℕ
  pub last_pointer : Option F
  pub view : HoverView

pub data ChartEvent (F : Type 0) : Type 0 where
  mouse_move : F → ChartEvent F
  mouse_leave frame : ChartEvent F

-- `if (hoverFrame) cancelAnimationFrame(hoverFrame)`: a frame that is not asked for is no error.
abbrev cancel : ℕ → Option ℕ → Option ℕ
cancel n none = none
cancel n (some m) = if n == m then none else some m

abbrev set_view : {F : Type 0} → Option HoverView → Chart F → Chart F
set_view none c = c
set_view (some v) c = record c { view = v }

module _ {F : Type 0} (update : F → Option HoverView) where
  abbrev show_last : Option F → Chart F → Chart F
  show_last none c = c
  show_last (some x) c = set_view (update x) c

  abbrev request_frame : ℕ → Chart F → Chart F
  request_frame zero c = record c {
    hover_frame = suc c.last_request;
    requested = some (suc c.last_request);
    last_request = suc c.last_request;
  }
  request_frame (suc n) c = c

  abbrev run_frame : Option ℕ → Chart F → Chart F
  run_frame none c = c
  run_frame (some n) c = show_last c.last_pointer (record c { hover_frame = 0; requested = none })

  unfoldable pub chart_event : ChartEvent F → Chart F → Chart F
  chart_event (mouse_move x) c = request_frame c.hover_frame (record c { last_pointer = some x })
  chart_event mouse_leave c = record c {
    hover_frame = 0;
    requested = cancel c.hover_frame c.requested;
    last_pointer = none;
    view = hidden;
  }
  chart_event frame c = run_frame c.requested c

  unfoldable pub chart_events : List (ChartEvent F) → Chart F → Chart F
  unfolding chart_event
  chart_events [] c = c
  chart_events (e ∷ es) c = chart_events es (chart_event e c)

  abbrev asked : ℕ → Option ℕ
  asked zero = none
  asked (suc n) = some (suc n)

  -- The browser is asked to run one frame at most, the one that the page knows of. With no pointer over
  -- the chart there is none and nothing is shown; with one, and no frame to come, what is shown is for
  -- where the pointer is.
  pub record IsSettled (c : Chart F) : Type 0 where
    pub frame : c.requested ≡ asked c.hover_frame
    pub away : c.last_pointer ≡ none → (c.hover_frame ≡ 0) × (c.view ≡ hidden)
    pub shown :
        (x : F) (v : HoverView)
        → c.last_pointer ≡ some x
        → c.hover_frame ≡ 0
        → update x ≡ some v
        → c.view ≡ v
