-- ===== src/Api/Results.antt =====
-- What `api` returns, and what it leaves behind.
use cpa_keeper_dashboard.Prelude.{
  ◌≤◌, ◌<◌, ◌≡◌, ◌↔◌, refl, false, ◌&&◌, not, some, [], ◌==◌, if◌then◌else◌, arith,
}
use cpa_keeper_dashboard.Cache.{clear_frontend_cache}
use cpa_keeper_dashboard.Api.{
  Response, Fetched, rejects, responds, value, Client, sign_out, api_body, api_response, api_finish,
}

module _ {D : Type 0} where
  -- `api` returns a body exactly if `fetch` gives a response with a status from 200 to 299, whose
  -- body can be read and is that one, and the signal is aborted neither when the response comes
  -- nor when the body has been read.
  pub api_finish-value_iff :
      (f : Fetched D) (c : Client D) (d : D)
      → ((api_finish f c).1 ≡ value d) ↔ (
          (r : Response D) × (f ≡ responds r)
          × (r.aborted ≡ false)
          × (200 ≤ r.status)
          × (r.status < 300)
          × (r.body ≡ some d)
          × (r.aborted_reading ≡ false))
  unfolding api_finish api_response api_body sign_out
  api_finish-value_iff (rejects aborted) c d =
      (λ h. absurd (ground arith), λ w. absurd (ground arith))
  api_finish-value_iff (responds r) c d = (
    λ h. (r, refl, ground arith, ground arith, ground arith, ground arith, ground arith),
    λ w. let (x, e, a, lo, hi, b, u) = w in ground arith,
  )

  pub api_finish-key :
      (f : Fetched D) (c : Client D) (r : Response D)
      → f ≡ responds r
      → let out = not r.aborted && r.status == 401 && c.frontend_cache.storage.enabled in
        ((api_finish f c).0.management_key ≡ (if out then [] else c.management_key))
        × ((api_finish f c).0.frontend_cache
            ≡ (if out then clear_frontend_cache c.frontend_cache else c.frontend_cache))
  unfolding api_finish api_response sign_out
  api_finish-key f c r e = rw e (ground arith)
