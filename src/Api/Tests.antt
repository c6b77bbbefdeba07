-- ===== src/Api/Tests.antt =====
-- Requests at concrete responses, and the theorems at them.
use cpa_keeper_dashboard.Prelude.{
  ℕ, ◌≡◌, ◌≤◌, ◌<◌, ◌↔◌, refl, true, false, none, some, List, [], ◌∷◌,
}
use cpa_keeper_dashboard.Prelude.Int.{pos, negsuc, ◌-ℤ◌, ◌+ℤ◌}
use cpa_keeper_dashboard.Prelude.Text.{codes}
use cpa_keeper_dashboard.Api.{
  Response, rejects, responds, value, Client, Call, api_finish, api_start, api_response, sign_out,
  download_start, download_finally, call, call_all,
}
use cpa_keeper_dashboard.Api.Pending.{IsCounted, call_all-IsCounted}
use cpa_keeper_dashboard.Api.Results.{api_finish-value_iff}

abbrev signed_in : Client ℕ
signed_in = record {
  management_key = codes "sk-1";
  key_stored = true;
  pending_requests = pos 0;
  frontend_cache = record {
    cache = [];
    refresh_deadline = 0;
    storage = record { enabled = true; items = [] };
  };
  online = true;
  auth_dialog = false;
  toasts = 0;
  downloads_done = 0;
  api_calls = 0;
  download_calls = 0;
}

abbrev answer : ℕ → Response ℕ
answer status = record {
  status = status;
  aborted = false;
  aborted_reading = false;
  body = some 7;
  message = none;
}

abbrev two_calls : List (Call ℕ)
two_calls =
    Call.start_api
    ∷ Call.start_api
    ∷ Call.finish_api (responds (answer 401))
    ∷ Call.finish_api (rejects false)
    ∷ Call.start_download
    ∷ []

-- The first request is refused and the key goes; a download that is started now, with the second
-- request out, counts down a request that it did not count up, and the count ends at -1.
abbrev miscounted : List (Call ℕ)
miscounted =
    Call.start_api
    ∷ Call.start_api
    ∷ Call.finish_api (responds (answer 401))
    ∷ Call.start_download
    ∷ Call.finish_api (rejects false)
    ∷ []

miscounted_end : (call_all miscounted signed_in).pending_requests ≡ negsuc 0
unfolding call_all call download_start api_start api_finish api_response sign_out download_finally
    ◌-ℤ◌ ◌+ℤ◌
miscounted_end = refl

call_all-IsCounted_example : IsCounted (call_all two_calls signed_in)
unfolding call_all call download_start api_start api_finish api_response sign_out download_finally
    ◌-ℤ◌ ◌+ℤ◌
call_all-IsCounted_example =
    call_all-IsCounted two_calls signed_in (tt, (tt, (tt, (tt, ((λ e. refl), tt))))) refl

api_finish-value_iff_example : ((api_finish (responds (answer 200)) signed_in).1 ≡ value 7) ↔ (
    (r : Response ℕ) × (responds (answer 200) ≡ responds r)
    × (r.aborted ≡ false)
    × (200 ≤ r.status)
    × (r.status < 300)
    × (r.body ≡ some 7)
    × (r.aborted_reading ≡ false))
api_finish-value_iff_example = api_finish-value_iff (responds (answer 200)) signed_in 7
