-- ===== src/Providers/Chips.antt =====
-- The legend of the providers' chart: `renderProviderTokenLegend`, and the clicks of
-- `bindProviderTokenInteractivity` with the data that `loadInterfaces` keeps.
use mathlib.Core.Path.{subst}
use cpa_keeper_dashboard.Prelude.{◌≡◌, refl, sym, ap, Bool, not, List, [], ◌∷◌, Option, none, some}
use cpa_keeper_dashboard.Tokens.{TokenKind, input, output, cache_read, cache_write, reasoning}
use cpa_keeper_dashboard.Providers.{
  Upstream, TokenDims, is_active, ChartView, render_provider_token_chart,
}

-- `active[dim] = value`, or the class and the attribute of one chip
abbrev pub set_dim : TokenKind → Bool → TokenDims → TokenDims
set_dim input b a = record a { input = b }
set_dim output b a = record a { output = b }
set_dim cache_read b a = record a { cache_read = b }
set_dim cache_write b a = record a { cache_write = b }
set_dim reasoning b a = record a { reasoning = b }

pub record Providers (F : Type 0) : Type 0 where
  pub active : TokenDims
  pub chips : TokenDims
  pub last_upstreams : Option (List (Upstream F))
  pub view : ChartView F

pub data ChipEvent (F : Type 0) : Type 0 where
  load : List (Upstream F) → ChipEvent F
  click : TokenKind → ChipEvent F

module _ {F : Type 0} where
  abbrev redraw : Option (List (Upstream F)) → Providers F → Providers F
  redraw none p = p
  redraw (some us) p = record p { view = render_provider_token_chart p.active us }

  unfoldable pub chip_event : ChipEvent F → Providers F → Providers F
  unfolding render_provider_token_chart
  chip_event (load us) p = record p {
    chips = p.active;
    last_upstreams = some us;
    view = render_provider_token_chart p.active us;
  }
  chip_event (click dim) p =
      let value = not (is_active p.active dim) in
      redraw p.last_upstreams
        (record p { active = set_dim dim value p.active; chips = set_dim dim value p.chips })

  unfoldable pub chip_events : List (ChipEvent F) → Providers F → Providers F
  unfolding chip_event
  chip_events [] p = p
  chip_events (e ∷ es) p = chip_events es (chip_event e p)

  abbrev IsViewOf : ChartView F → TokenDims → Option (List (Upstream F)) → Type 0
  IsViewOf view active none = Unit
  IsViewOf view active (some us) = view ≡ render_provider_token_chart active us

  pub record IsDrawn (p : Providers F) : Type 0 where
    pub pressed : p.chips ≡ p.active
    pub drawn : IsViewOf p.view p.active p.last_upstreams

  redraw-IsDrawn :
      (o : Option (List (Upstream F))) (p : Providers F)
      → p.last_upstreams ≡ o
      → p.chips ≡ p.active
      → IsDrawn (redraw o p)
  redraw-IsDrawn none p e c = record {
    pressed = c;
    drawn = subst (IsViewOf p.view p.active) (sym e) tt;
  }
  redraw-IsDrawn (some us) p e c = record {
    pressed = c;
    drawn = subst (IsViewOf (render_provider_token_chart p.active us) p.active) (sym e) refl;
  }

  chip_event-IsDrawn : (e : ChipEvent F) (p : Providers F) → IsDrawn p → IsDrawn (chip_event e p)
  unfolding chip_event
  chip_event-IsDrawn (load us) p d = record { pressed = refl; drawn = refl }
  chip_event-IsDrawn (click dim) p d =
      let value = not (is_active p.active dim) in
      redraw-IsDrawn p.last_upstreams
        (record p { active = set_dim dim value p.active; chips = set_dim dim value p.chips }) refl
        (ap (set_dim dim value) d.pressed)

  -- After any loads and clicks on the chips, from a page that is drawn: each chip is pressed exactly
  -- where its dimension is active, and once there are upstreams, the chart is that of the last loaded
  -- ones and these dimensions.
  pub chip_events-IsDrawn :
      (es : List (ChipEvent F)) (p : Providers F) → IsDrawn p → IsDrawn (chip_events es p)
  unfolding chip_events
  chip_events-IsDrawn [] p d = d
  chip_events-IsDrawn (e ∷ es) p d =
      chip_events-IsDrawn es (chip_event e p) (chip_event-IsDrawn e p d)
