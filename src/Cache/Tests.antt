-- ===== src/Cache/Tests.antt =====
-- The cache at concrete responses, and the theorems at them.
use cpa_keeper_dashboard.Prelude.{
  drop, ℕ, ◌+◌, ◌<◌, ◌≤◌, ◌-◌, ◌≡◌, ◌↔◌, refl, true, false, some, [], ◌∷◌, length, arith,
}
use cpa_keeper_dashboard.Prelude.OrdMap.{get, put, delete, HasDistinctKeys}
use cpa_keeper_dashboard.Prelude.Text.{Text, codes, text_eq}
use cpa_keeper_dashboard.Cache.{
  find_entry, use_entry, restore_raw, restore_parsed, make_room, track_cache_expiry, set_item,
  clear_storage, clear_key, Entry, Codec, Parsed, throws, an_entry, FrontendCache, cached_lookup,
  cached_store, clear_frontend_cache,
}
use cpa_keeper_dashboard.Cache.Store.{cached_store-keeps_newest}
use cpa_keeper_dashboard.Cache.Lookup.{Available, cached_lookup-eq-some_iff}

write_numbers : Entry ℕ → Text
write_numbers e = e.content ∷ e.expires_at ∷ []

read_numbers : Text → Parsed ℕ
read_numbers (a ∷ b ∷ []) = an_entry (record { content = a; expires_at = b })
read_numbers _ = throws

-- Responses that are numbers.
abbrev numbers : Codec ℕ
unfolding write_numbers read_numbers
numbers = record {
  stringify = write_numbers;
  parse = read_numbers;
  parse-stringify = λ e. refl;
  stringify-ne-nil = λ e h. absurd (unfold write_numbers in ground arith);
}

abbrev summary_key : Text
summary_key = codes "usage-keeper-cache:0:summary"

abbrev nothing_cached : FrontendCache ℕ
nothing_cached = record {
  cache = [];
  refresh_deadline = 0;
  storage = record { enabled = true; items = (codes "theme", codes "dark") ∷ [] };
}

abbrev summary_cached : FrontendCache ℕ
summary_cached = cached_store numbers summary_key 7 1_000 true nothing_cached

served : (cached_lookup numbers summary_key false 2_000 2_000 summary_cached).1 ≡ some 7
unfolding cached_lookup cached_store find_entry use_entry restore_raw restore_parsed make_room
    track_cache_expiry set_item get put
served = refl

cleared : clear_frontend_cache summary_cached ≡ nothing_cached
unfolding clear_frontend_cache clear_storage clear_key cached_store make_room track_cache_expiry
    set_item put delete
cleared = refl

cached_store-keeps_newest_example :
    ((cached_store numbers summary_key 7 1_000 true nothing_cached).cache
      ≡ put summary_key
          (record { content = 7; expires_at = 1_000 + 60_000 })
          (drop (length nothing_cached.cache - 31) nothing_cached.cache))
    × (length (cached_store numbers summary_key 7 1_000 true nothing_cached).cache ≤ 32)
    × HasDistinctKeys (cached_store numbers summary_key 7 1_000 true nothing_cached).cache
cached_store-keeps_newest_example =
    cached_store-keeps_newest numbers summary_key 7 1_000 true nothing_cached tt

cached_lookup-eq-some_iff_example :
    ((cached_lookup numbers summary_key false 2_000 2_000 summary_cached).1 ≡ some 7) ↔ (
      (e : Entry ℕ) × (false ≡ false)
      × Available numbers summary_key 2_000 summary_cached e
      × (2_000 < e.expires_at)
      × (e.content ≡ 7))
cached_lookup-eq-some_iff_example =
    cached_lookup-eq-some_iff numbers summary_key 2_000 2_000 summary_cached 7 false
