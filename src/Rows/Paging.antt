-- ===== src/Rows/Paging.antt =====
-- The buttons of the pages do what they say (`renderEvents`, and the handlers of `bindEvents`).
use cpa_keeper_dashboard.Prelude.{◌+◌, ◌-◌, ◌≡◌, if◌then◌else◌, arith}
use cpa_keeper_dashboard.Listing.{Listing, page_prev, page_next, load_events}
use cpa_keeper_dashboard.Rows.{prev_disabled, next_disabled}

-- Where the list shows the page that was asked for: a button is disabled exactly where its handler
-- would stay on the page, and an enabled one goes one page back or on.
pub page_buttons_lem :
    {D : Type 0} (s : Listing D)
    → ((page_prev s).event_page
        ≡ (if prev_disabled s.event_page then s.event_page else s.event_page - 1))
      × ((page_next s).event_page
          ≡ (if next_disabled s.event_page s.event_pages then s.event_page else s.event_page + 1))
unfolding page_prev page_next prev_disabled next_disabled load_events
page_buttons_lem s = ground arith
