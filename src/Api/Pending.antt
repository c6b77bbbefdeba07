-- ===== src/Api/Pending.antt =====
-- `state.pendingRequests` is the number of requests that are out.
use cpa_keeper_dashboard.Prelude.{◌+◌, ◌≡◌, true, List, [], ◌∷◌, arith}
use cpa_keeper_dashboard.Prelude.Int.{pos, ◌+ℤ◌, ◌-ℤ◌}
use cpa_keeper_dashboard.Session.State.{is_empty}
use cpa_keeper_dashboard.Api.{
  Fetched, Client, Call, sign_out, api_start, api_response, api_finish, download_finally,
  download_start, download_response, download_finish, call, call_all,
}

module _ {D : Type 0} where
  abbrev pub IsCounted : Client D → Type 0
  IsCounted c = c.pending_requests ≡ pos (c.api_calls + c.download_calls)

  -- No download is started with no key while a request is out.
  abbrev pub IsGuarded : Call D → Client D → Type 0
  IsGuarded Call.start_download c =
      is_empty c.management_key ≡ true → c.api_calls + c.download_calls ≡ 0
  IsGuarded _ c = Unit

  abbrev pub AllGuarded : List (Call D) → Client D → Type 0
  AllGuarded [] c = Unit
  AllGuarded (x ∷ calls) c = IsGuarded x c × AllGuarded calls (call x c)

  api_response-counts :
      (f : Fetched D) (c : Client D)
      → ((api_response f c).0.pending_requests ≡ c.pending_requests)
        × ((api_response f c).0.api_calls ≡ c.api_calls)
        × ((api_response f c).0.download_calls ≡ c.download_calls)
  unfolding api_response sign_out
  api_response-counts f c = ground arith

  download_response-counts :
      (f : Fetched D) (c : Client D)
      → ((download_response f c).pending_requests ≡ c.pending_requests)
        × ((download_response f c).api_calls ≡ c.api_calls)
        × ((download_response f c).download_calls ≡ c.download_calls)
  unfolding download_response sign_out
  download_response-counts f c = ground arith

  call-IsCounted : (x : Call D) (c : Client D) → IsGuarded x c → IsCounted c → IsCounted (call x c)
  unfolding call api_start api_finish download_start download_finish download_finally ◌+ℤ◌ ◌-ℤ◌
  call-IsCounted Call.start_api c g h = ground arith
  call-IsCounted (Call.finish_api f) c g h = ground (arith, api_response-counts f c)
  call-IsCounted Call.start_download c g h = ground arith
  call-IsCounted (Call.finish_download f) c g h = ground (arith, download_response-counts f c)

  -- As long as no download is started with no key while a request is out, `pendingRequests` is the
  -- number of the calls of `api` and `download` that wait, in whatever order they start and end.
  pub call_all-IsCounted :
      (calls : List (Call D)) (c : Client D)
      → AllGuarded calls c
      → IsCounted c
      → IsCounted (call_all calls c)
  unfolding call_all
  call_all-IsCounted [] c g h = h
  call_all-IsCounted (x ∷ calls) c (g, gs) h =
      call_all-IsCounted calls (call x c) gs (call-IsCounted x c g h)
