-- ===== src/Api.antt =====
-- Requests to the plugin (go/dashboard/app.js): `api` and `download`, each cut at its `fetch`, and
-- the count of the requests that are out.
pub mod Pending
pub mod Results
mod Tests
use cpa_keeper_dashboard.Prelude.{
  ℕ, zero, suc, ◌+◌, ◌-◌, Bool, true, false, ◌&&◌, ◌||◌, not, Option, none, some, List, [], ◌∷◌,
  ◌==◌, ltb, leb, if◌then◌else◌,
}
use cpa_keeper_dashboard.Prelude.Int.{ℤ, pos, negsuc, ◌+ℤ◌, ◌-ℤ◌}
use cpa_keeper_dashboard.Prelude.Text.{Text}
use cpa_keeper_dashboard.Session.State.{is_empty}
use cpa_keeper_dashboard.Cache.{FrontendCache, clear_frontend_cache}

-- A response: its status, whether the signal was aborted when it came and when its body had been
-- read, its body (none where reading it throws), and the message that the body gives of an error.
pub record Response (D : Type 0) : Type 0 where
  pub status : ℕ
  pub aborted : Bool
  pub aborted_reading : Bool
  pub body : Option D
  pub message : Option Text

-- How `fetch` ends: it rejects, with an AbortError or another error, or gives a response.
pub data Fetched (D : Type 0) : Type 0 where
  rejects : Bool → Fetched D
  responds : Response D → Fetched D

-- What `api` returns or throws.
pub data Result (D : Type 0) : Type 0 where
  value : D → Result D
  auth_required : Result D
  abort_error : Result D
  network_error : Result D
  unreadable : Result D
  storage_error : Result D
  refused : ℕ → Option Text → Result D  -- the status, and the body's message where it has one

pub record Client (D : Type 0) : Type 0 where
  pub management_key : Text
  pub key_stored : Bool
  pub pending_requests : ℤ
  pub frontend_cache : FrontendCache D
  pub online : Bool
  pub auth_dialog : Bool
  pub toasts : ℕ
  pub downloads_done : ℕ
  pub api_calls : ℕ  -- the calls of `api` that wait for their `fetch`
  pub download_calls : ℕ  -- and those of `download`

-- `response.ok`
abbrev pub is_ok : ℕ → Bool
is_ok status = leb 200 status && ltb status 300

-- `Math.max(0, n)`
abbrev pub not_negative : ℤ → ℤ
not_negative (pos n) = pos n
not_negative (negsuc n) = pos 0

module _ {D : Type 0} where
  -- What a response with the status 401 does; where sessionStorage is disabled, removing the key
  -- from it throws before anything is done.
  unfoldable pub sign_out : Client D → Client D
  sign_out c = record c {
    key_stored = false;
    management_key = [];
    frontend_cache = clear_frontend_cache c.frontend_cache;
    online = false;
    auth_dialog = true;
  }

  -- `api` up to its `fetch`; `some` is what it throws there.
  unfoldable pub api_start : Client D → Client D × Option (Result D)
  api_start c =
      if is_empty c.management_key then (record c { auth_dialog = true }, some auth_required) else (
        record c { pending_requests = c.pending_requests +ℤ pos 1; api_calls = c.api_calls + 1 },
        none,
      )

  unfoldable pub api_body : Option D → Response D → Result D
  api_body none r = unreadable
  api_body (some d) r =
      if r.aborted_reading
      then abort_error
      else if not (is_ok r.status)
      then refused r.status r.message
      else value d

  -- The `try` block of `api` after its `fetch`.
  unfoldable pub api_response : Fetched D → Client D → Client D × Result D
  api_response (rejects aborted) c = (c, if aborted then abort_error else network_error)
  api_response (responds r) c =
      if r.aborted
      then (c, abort_error)
      else if r.status == 401
      then (if c.frontend_cache.storage.enabled
          then (sign_out c, auth_required)
          else (c, storage_error))
      else (c, api_body r.body r)

  -- The rest of `api`, with its `finally` block.
  unfoldable pub api_finish : Fetched D → Client D → Client D × Result D
  api_finish f c =
      let (c', result) = api_response f c in
      (
        record c' { pending_requests = c'.pending_requests -ℤ pos 1; api_calls = c'.api_calls - 1 },
        result,
      )

  -- The `finally` block of `download`.
  unfoldable pub download_finally : Client D → Client D
  download_finally c = record c { pending_requests = not_negative (c.pending_requests -ℤ pos 1) }

  -- `download` up to its `fetch`; with no key it ends there, and its `finally` block runs.
  unfoldable pub download_start : Client D → Client D
  download_start c =
      if is_empty c.management_key
      then download_finally (record c { auth_dialog = true })
      else record c {
        pending_requests = c.pending_requests +ℤ pos 1;
        download_calls = c.download_calls + 1;
      }

  -- The `try` and `catch` blocks of `download` after its `fetch`.
  unfoldable pub download_response : Fetched D → Client D → Client D
  download_response (rejects aborted) c = record c { toasts = c.toasts + 1 }
  download_response (responds r) c =
      if r.status == 401
      then (if c.frontend_cache.storage.enabled
          then sign_out c
          else record c { toasts = c.toasts + 1 })
      else if not (is_ok r.status)
      then record c { toasts = c.toasts + 1 }
      else save_download r.body c
    where
      save_download : Option D → Client D → Client D
      save_download none c = record c { toasts = c.toasts + 1 }
      save_download (some d) c = record c {
        toasts = c.toasts + 1;
        downloads_done = c.downloads_done + 1;
      }

  unfoldable pub download_finish : Fetched D → Client D → Client D
  download_finish f c =
      let c' = download_response f c in
      download_finally (record c' { download_calls = c'.download_calls - 1 })

pub data Call (D : Type 0) : Type 0 where
  start_api : Call D
  finish_api : Fetched D → Call D
  start_download : Call D
  finish_download : Fetched D → Call D

module _ {D : Type 0} where
  -- A call starts, or one that waits runs on.
  unfoldable pub call : Call D → Client D → Client D
  call Call.start_api c = (api_start c).0
  call (Call.finish_api f) c = if c.api_calls == 0 then c else (api_finish f c).0
  call Call.start_download c = download_start c
  call (Call.finish_download f) c = if c.download_calls == 0 then c else download_finish f c

  unfoldable pub call_all : List (Call D) → Client D → Client D
  call_all [] c = c
  call_all (x ∷ calls) c = call_all calls (call x c)
