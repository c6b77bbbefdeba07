-- ===== src/Distributions/Tests.antt =====
-- Two models and nothing else; a card without requests; a pointer that goes from row to row.
use cpa_keeper_dashboard.Prelude.{◌≡◌, refl, true, false, some, List, [], ◌∷◌, max, ◌≤◌, length}
use cpa_keeper_dashboard.Prelude.Floats.{Tenths, tenths}
use cpa_keeper_dashboard.Prelude.Sorting.{sum_by}
use cpa_keeper_dashboard.Prelude.Text.{codes}
use cpa_keeper_dashboard.Distributions.{
  Item, ranked, card_total, remainder, chart_items, list_items, distribution_segments,
  distribution_list, rest_of,
}
use cpa_keeper_dashboard.Distributions.Slices.{requests_of, distribution_segments-requests}
use cpa_keeper_dashboard.Distributions.Hover.{
  no_hover, HoverEvent, mouse_over, mouse_out, focus_in, others_show, others_hide, at_item,
  activate_item, clear_card, leave_card, leave_item, hover_event, hover_events,
}
use cpa_keeper_dashboard.Distributions.Marks.{IsConsistent, hover_events-IsConsistent}

abbrev gpt : Item
gpt = record { name = codes "gpt"; requests = 3; other = false }

abbrev claude : Item
claude = record { name = codes "claude"; requests = 7; other = false }

abbrev idle : Item
idle = record { name = codes "idle"; requests = 0; other = false }

by_requests : distribution_list (gpt ∷ idle ∷ claude ∷ []) ≡ claude ∷ gpt ∷ []
unfolding distribution_list ranked list_items remainder card_total
by_requests = refl

no_rows : distribution_list (idle ∷ []) ≡ []
unfolding distribution_list ranked list_items remainder card_total
no_rows = refl

one_segment : chart_items (ranked (idle ∷ [])) ≡ rest_of 1 ∷ []
unfolding chart_items ranked remainder card_total
one_segment = refl

distribution_segments-requests_example :
    (sum_by
        (λ s. requests_of s.item)
        (distribution_segments {F = Tenths} (some 2390) (gpt ∷ idle ∷ claude ∷ []))
      ≡ max 1 10)
    × (sum_by requests_of (distribution_list (gpt ∷ idle ∷ claude ∷ [])) ≡ 10)
    × (length (distribution_segments {F = Tenths} (some 2390) (gpt ∷ idle ∷ claude ∷ [])) ≤ 6)
distribution_segments-requests_example =
    distribution_segments-requests (some 2390) (gpt ∷ idle ∷ claude ∷ [])

abbrev over : List HoverEvent
over =
    mouse_over (at_item 0 1 true)
    ∷ mouse_out (at_item 0 1 true) (at_item 2 0 false)
    ∷ mouse_over (at_item 2 0 false)
    ∷ []

now_active :
    (hover_events over no_hover).active_item
    ≡ some (record { rendering = 0; card = 2; index = 0; is_row = false })
unfolding hover_events hover_event activate_item clear_card leave_card leave_item
now_active = refl

-- Another listener writes the tooltip while a row is active, and then the pointer leaves that row.
abbrev elsewhere_and_back : List HoverEvent
elsewhere_and_back = focus_in (at_item 1 0 true) ∷ others_show ∷ others_hide ∷ over

hover_events-IsConsistent_example : IsConsistent false (hover_events elsewhere_and_back no_hover)
hover_events-IsConsistent_example =
    hover_events-IsConsistent elsewhere_and_back true no_hover (λ _. refl)
