-- ===== src/Listing/Tests.antt =====
-- A list of events after concrete actions, and the theorems at them.
use cpa_keeper_dashboard.Prelude.{
  ◌≡◌, ◌≤◌, refl, ℕ, true, false, none, some, List, [], ◌∷◌, arith, Option, if◌then◌else◌,
}
use cpa_keeper_dashboard.Prelude.Int.{pos}
use cpa_keeper_dashboard.Prelude.Text.{Text, codes, text_eq}
use cpa_keeper_dashboard.Session.State.{overview}
use cpa_keeper_dashboard.Listing.{Listing, Action, act_all, remove_filter}
use cpa_keeper_dashboard.Listing.Chips.{
  event_filter_chips, chips_of, display_value, is_other, AgreeBut, remove_filter-chips,
}
use cpa_keeper_dashboard.Prelude.Sorting.{filter}
use cpa_keeper_dashboard.Prelude.OrdMap.{get}
use cpa_keeper_dashboard.Prelude.Interface.{◌===◌}
use cpa_keeper_dashboard.Listing.Current.{IsUpToDate, act_all-IsUpToDate}
use cpa_keeper_dashboard.Listing.Newer.{shown_id}
use cpa_keeper_dashboard.Listing.Params.{IsFiltered}

abbrev unfiltered : Listing ℕ
unfiltered = record {
  page = overview;
  range = codes "24h";
  custom_range = (pos 0, pos 0);
  event_page = 1;
  event_pages = 0;
  event_filters = [];
  health_filter = none;
  banner_hidden = true;
  event_request_id = 0;
  event_controller = none;
  aborted_events = [];
  waiting = [];
  current_events = none;
}

abbrev filters : List (Text × Text)
filters = (codes "q", []) ∷ (codes "model", codes "gpt") ∷ []

-- The answer for the first filter comes after the filters were reset.
abbrev hurried : List (Action ℕ)
hurried =
    Action.submit filters
    ∷ Action.reset
    ∷ Action.respond 2 false (record { accessible_pages = none; pages = some 3; events = 20 })
    ∷ Action.respond 1 false (record { accessible_pages = none; pages = some 9; events = 10 })
    ∷ Action.next
    ∷ []

unfiltered-IsUpToDate : IsUpToDate unfiltered
unfiltered-IsUpToDate = record { asked = tt; shown = tt }

unfiltered-IsFiltered : IsFiltered unfiltered
unfiltered-IsFiltered = record { valued = tt; single = tt; paged = omega arith }

act_all-IsUpToDate_example :
    IsUpToDate (act_all hurried unfiltered)
    × (shown_id unfiltered.current_events ≤ shown_id (act_all hurried unfiltered).current_events)
act_all-IsUpToDate_example = act_all-IsUpToDate hurried unfiltered unfiltered-IsUpToDate

abbrev filtered : Listing ℕ
filtered = record unfiltered {
  event_filters = (codes "q", codes "slow") ∷ (codes "status", codes "failure") ∷ [];
}

chips :
    event_filter_chips (λ name. none) filtered.event_filters
    ≡ record { name = codes "q"; label = codes "搜索"; value = codes "slow" }
      ∷ record { name = codes "status"; label = codes "状态"; value = codes "失败" }
      ∷ []
unfolding event_filter_chips chips_of display_value get
chips = refl

-- A provider that was chosen after the filters were set, while the field of the model is cleared.
abbrev form_before : Text → Option (Text × Text)
form_before name =
    if codes "model" === name then some (codes "gpt", codes "GPT") else some (codes "b", codes "B")

abbrev form_after : Text → Option (Text × Text)
form_after name =
    if codes "model" === name then some ([], codes "全部") else some (codes "b", codes "B")

abbrev chosen : Listing ℕ
chosen = record unfiltered {
  event_filters = (codes "model", codes "gpt") ∷ (codes "provider", codes "a") ∷ [];
}

forms-AgreeBut : AgreeBut form_before form_after (codes "model")
forms-AgreeBut n h = rw h refl

remove_filter-chips_example :
    event_filter_chips form_after (remove_filter (codes "model") chosen).event_filters
    ≡ filter (is_other (codes "model")) (event_filter_chips form_before chosen.event_filters)
remove_filter-chips_example =
    remove_filter-chips form_before form_after (codes "model") chosen forms-AgreeBut
