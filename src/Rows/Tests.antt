-- ===== src/Rows/Tests.antt =====
-- An event that reads its input from the cache, and an upstream with three failures.
use cpa_keeper_dashboard.Prelude.{ℕ, ◌≡◌, refl, true, false, none, some, List, [], ◌∷◌}
use cpa_keeper_dashboard.Prelude.Floats.{Tenths, tenths}
use cpa_keeper_dashboard.Prelude.Interface.{nat_eq}
use cpa_keeper_dashboard.Prelude.OrdMap.{get, put}
use cpa_keeper_dashboard.Prelude.Text.{codes}
use cpa_keeper_dashboard.Session.State.{Page}
use cpa_keeper_dashboard.Prelude.Int.{pos}
use cpa_keeper_dashboard.Listing.{Listing, page_next, load_events}
use cpa_keeper_dashboard.Rows.{
  EventTokens, shown_tokens, token_cell_total, RecentEvent, error_map, page_label, first_pages_of,
  tokens_per_second,
}

abbrev cached_event : EventTokens
cached_event = record {
  input_tokens = 100;
  cache_read_tokens = 0;
  cached_tokens = 60;
  cache_creation_tokens = 10;
  output_tokens = 20;
  reasoning_tokens = 0;
  total_tokens = 0;
}

cell : token_cell_total (shown_tokens cached_event) ≡ 60
unfolding token_cell_total shown_tokens
cell = refl

abbrev failure : RecentEvent
failure = record { failed = true; status_code = 429 }

abbrev recent : List RecentEvent
recent =
    failure
    ∷ record { failed = false; status_code = 200 }
    ∷ record { failed = true; status_code = 0 }
    ∷ failure
    ∷ []

breakdown : error_map recent [] ≡ (429, 2) ∷ (0, 1) ∷ []
unfolding error_map put get
breakdown = refl

label : page_label 2 80 40 ≡ first_pages_of 2 80 40
unfolding page_label
label = refl

speed :
    tokens_per_second {F = Tenths} (λ x. true) (some 500) (some 20000) (some 10000)
    ≡ some (some 500)
unfolding tokens_per_second
speed = refl

abbrev listing : Listing ℕ
listing = record {
  page = Page.overview;
  range = codes "24h";
  custom_range = (pos 0, pos 0);
  event_page = 1;
  event_pages = 2;
  event_filters = [];
  health_filter = none;
  banner_hidden = true;
  event_request_id = 0;
  event_controller = none;
  aborted_events = [];
  waiting = [];
  current_events = none;
}

on_second_page : (page_next listing).event_page ≡ 2
unfolding page_next load_events
on_second_page = refl
