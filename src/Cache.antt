-- ===== src/Cache.antt =====
-- The cache of responses (go/dashboard/app.js): `state.cache`, its copy in sessionStorage and
-- `state.refreshDeadline`; `cached` is its two synchronous halves, before and after the request.
pub mod Scope
pub mod Lookup
pub mod Store
pub mod Deadline
pub mod Clear
pub mod Log
pub mod Served
mod Runs
mod Tests
use cpa_keeper_dashboard.Prelude.{
  ℕ, zero, suc, ◌+◌, ◌-◌, ◌≡◌, ◌≢◌, Bool, true, false, ◌&&◌, ◌||◌, not, Option, none, some, List,
  [], ◌∷◌, ltb, leb, ◌==◌, if◌then◌else◌, length, get_elem?,
}
use cpa_keeper_dashboard.Prelude.OrdMap.{OrdMap, get, put, delete}
use cpa_keeper_dashboard.Prelude.Text.{Text, codes, starts_with, text_eq}

abbrev pub frontend_cache_ttl_ms : ℕ
frontend_cache_ttl_ms = 60_000

abbrev pub frontend_cache_max_items : ℕ
frontend_cache_max_items = 32

abbrev pub cache_prefix : Text
cache_prefix = codes "usage-keeper-cache:"

pub record Entry (D : Type 0) : Type 0 where
  pub content : D  -- the field `data`
  pub expires_at : ℕ

-- `JSON.parse` of a stored text: it throws, or gives a value that has no `expiresAt` in the
-- future (null, a number, an object of another shape), or an entry.
pub data Parsed (D : Type 0) : Type 0 where
  throws : Parsed D
  no_entry : Parsed D
  an_entry : Entry D → Parsed D

-- `JSON.stringify` and `JSON.parse` on entries: the responses are themselves JSON values.
pub record Codec (D : Type 0) : Type 0 where
  pub stringify : Entry D → Text
  pub parse : Text → Parsed D
  pub parse-stringify : (e : Entry D) → parse (stringify e) ≡ an_entry e
  pub stringify-ne-nil : (e : Entry D) → stringify e ≢ []

-- sessionStorage: every access throws where the browser's policy disables it.
pub record SessionStorage : Type 0 where
  pub enabled : Bool
  pub items : OrdMap Text Text

pub record FrontendCache (D : Type 0) : Type 0 where
  pub cache : OrdMap Text (Entry D)
  pub refresh_deadline : ℕ
  pub storage : SessionStorage

-- `try { sessionStorage.removeItem(key) } catch (_) {}`
unfoldable pub remove_item : Text → SessionStorage → SessionStorage
remove_item key st = if st.enabled then record st { items = delete key st.items } else st

-- `try { sessionStorage.setItem(key, value) } catch (_) {}`: it throws too where there is no room.
unfoldable pub set_item : Text → Text → Bool → SessionStorage → SessionStorage
set_item key value room st =
    if st.enabled && room then record st { items = put key value st.items } else st

-- `if (key?.startsWith(CACHE_PREFIX)) sessionStorage.removeItem(key)`
unfoldable pub clear_key : Option (Text × Text) → OrdMap Text Text → OrdMap Text Text
clear_key none items = items
clear_key (some (key, value)) items =
    if starts_with cache_prefix key then delete key items else items

-- The loop of `clearFrontendCache` over the indices below its argument, from the last one down.
unfoldable pub clear_storage : ℕ → OrdMap Text Text → OrdMap Text Text
unfolding clear_key
clear_storage zero items = items
clear_storage (suc index) items = clear_storage index (clear_key (get_elem? items index) items)

module _ {D : Type 0} where
  unfoldable pub track_cache_expiry : ℕ → FrontendCache D → FrontendCache D
  track_cache_expiry expires s =
      if s.refresh_deadline == 0 || ltb expires s.refresh_deadline
      then record s { refresh_deadline = expires }
      else s

  -- One round of the loop that makes room: the oldest key of the Map goes, here and in storage.
  unfoldable pub drop_oldest : OrdMap Text (Entry D) → FrontendCache D → FrontendCache D
  drop_oldest [] s = s
  drop_oldest ((oldest, e) ∷ m) s = record s {
    cache = delete oldest s.cache;
    storage = remove_item oldest s.storage;
  }

  -- `while (state.cache.size >= FRONTEND_CACHE_MAX_ITEMS) …`, with as much fuel as there are keys.
  unfoldable pub make_room : ℕ → FrontendCache D → FrontendCache D
  make_room zero s = s
  make_room (suc fuel) s =
      let rest = make_room fuel (drop_oldest s.cache s) in
      if leb frontend_cache_max_items (length s.cache) then rest else s

  unfoldable pub clear_frontend_cache : FrontendCache D → FrontendCache D
  unfolding clear_storage
  clear_frontend_cache s = record s {
    cache = [];
    refresh_deadline = 0;
    storage =
        if s.storage.enabled
        then record {
          enabled = true;
          items = clear_storage (length s.storage.items) s.storage.items;
        }
        else s.storage;
  }

module _ {D : Type 0} (codec : Codec D) where
  -- What is done with a stored text: an entry that is still fresh is copied to the Map, any other
  -- value is removed; where parsing throws nothing happens.
  unfoldable pub restore_parsed :
      Text → ℕ → Parsed D → FrontendCache D → FrontendCache D × Option (Entry D)
  restore_parsed key now throws s = (s, none)
  restore_parsed key now no_entry s = (record s { storage = remove_item key s.storage }, none)
  restore_parsed key now (an_entry e) s =
      if ltb now e.expires_at
      then (record s { cache = put key e s.cache }, some e)
      else (record s { storage = remove_item key s.storage }, none)

  unfoldable pub restore_raw :
      Text → ℕ → Option Text → FrontendCache D → FrontendCache D × Option (Entry D)
  unfolding restore_parsed
  restore_raw key now none s = (s, none)
  restore_raw key now (some []) s = (s, none)
  restore_raw key now (some (c ∷ raw)) s = restore_parsed key now (codec.parse (c ∷ raw)) s

  -- `let entry = state.cache.get(cacheKey); if (!entry && !force) { … }`
  unfoldable pub find_entry :
      Text → Bool → ℕ → Option (Entry D) → FrontendCache D → FrontendCache D × Option (Entry D)
  unfolding restore_raw
  find_entry key force now (some e) s = (s, some e)
  find_entry key force now none s =
      if force || not s.storage.enabled
      then (s, none)
      else restore_raw key now (get key s.storage.items) s

  -- The rest of the first half: a fresh entry is returned, a stale or bypassed one removed.
  unfoldable pub use_entry :
      Text → Bool → ℕ → Option (Entry D) → FrontendCache D → FrontendCache D × Option D
  use_entry key force now none s = (s, none)
  use_entry key force now (some e) s =
      if not force && ltb now e.expires_at
      then (track_cache_expiry e.expires_at s, some e.content)
      else (record s { cache = delete key s.cache; storage = remove_item key s.storage }, none)

  -- `cached` up to its request; `some` is an answer with no request. `seen` and `now` are its two
  -- readings of the clock.
  unfoldable pub cached_lookup : Text → Bool → ℕ → ℕ → FrontendCache D → FrontendCache D × Option D
  unfolding find_entry use_entry track_cache_expiry
  cached_lookup key force seen now s =
      let (s', entry) = find_entry key force seen (get key s.cache) s in
      use_entry key force now entry s'

  -- `cached` after its request.
  unfoldable pub cached_store : Text → D → ℕ → Bool → FrontendCache D → FrontendCache D
  unfolding track_cache_expiry
  cached_store key content now room s =
      let s' = make_room (length s.cache) s in
      let e : Entry D = record { content = content; expires_at = now + frontend_cache_ttl_ms } in
      track_cache_expiry e.expires_at (record s' {
        cache = put key e s'.cache;
        storage = set_item key (codec.stringify e) room s'.storage;
      })
