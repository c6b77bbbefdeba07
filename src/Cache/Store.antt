-- ===== src/Cache/Store.antt =====
-- The second half of `cached`: which entries the Map keeps, and what is served afterwards.
use cpa_keeper_dashboard.Prelude.{
  ℕ, zero, suc, ◌+◌, ◌-◌, ◌≤◌, ◌≡◌, refl, Bool, none, some, [], ◌∷◌, arith, length, drop,
  length-drop, if◌then◌else◌, leb, ltb, Bool-cases, ◌∙◌, inl, inr,
}
use cpa_keeper_dashboard.Prelude.Interface.{beq_refl}
use cpa_keeper_dashboard.Prelude.OrdMap.{
  OrdMap, get, put, get-put, HasDistinctKeys, delete_head, length-put, put-HasDistinctKeys,
}
use cpa_keeper_dashboard.Prelude.Text.{Text, text_eq}
use cpa_keeper_dashboard.Cache.{
  Entry, Codec, FrontendCache, drop_oldest, track_cache_expiry, make_room, cached_lookup,
  cached_store,
}

module _ {D : Type 0} where
  drop_oldest_lem :
      (m : OrdMap Text (Entry D)) (s : FrontendCache D)
      → s.cache ≡ m
      → HasDistinctKeys m
      → (drop_oldest m s).cache ≡ drop 1 m
  unfolding drop_oldest
  drop_oldest_lem [] s e h = e
  drop_oldest_lem ((k, x) ∷ m) s e h = rw e (delete_head k x m h.0)

  drop-HasDistinctKeys :
      (n : ℕ) (m : OrdMap Text (Entry D)) → HasDistinctKeys m → HasDistinctKeys (drop n m)
  drop-HasDistinctKeys zero m h = h
  drop-HasDistinctKeys (suc n) [] h = h
  drop-HasDistinctKeys (suc n) (x ∷ m) h = drop-HasDistinctKeys n m h.1

  drop-drop : (n : ℕ) (m : OrdMap Text (Entry D)) → drop n (drop 1 m) ≡ drop (suc n) m
  drop-drop zero [] = refl
  drop-drop (suc n) [] = refl
  drop-drop n (x ∷ m) = refl

  -- What one more round leaves to be dropped.
  drop-tail :
      (m : OrdMap Text (Entry D))
      → 32 ≤ length m
      → drop (length (drop 1 m) - 31) (drop 1 m) ≡ drop (length m - 31) m
  drop-tail [] h = absurd (omega arith)
  drop-tail (x ∷ m) h = let e : suc (length m) - 31 ≡ suc (length m - 31) = omega arith in rw e refl

  make_room_lem :
      (fuel : ℕ) (s : FrontendCache D)
      → HasDistinctKeys s.cache
      → length s.cache ≤ fuel
      → (make_room fuel s).cache ≡ drop (length s.cache - 31) s.cache
  unfolding make_room
  make_room_lem zero s d h = let z : length s.cache - 31 ≡ 0 = omega arith in rw z
  make_room_lem (suc fuel) s d h = elim (Bool-cases (leb 32 (length s.cache))) [
    | inl full ↦
        let fewer : (drop_oldest s.cache s).cache ≡ drop 1 s.cache =
          drop_oldest_lem s.cache s refl d in
        let distinct : HasDistinctKeys (drop_oldest s.cache s).cache =
          rw fewer (drop-HasDistinctKeys 1 s.cache d) in
        let shorter : length (drop_oldest s.cache s).cache ≡ length s.cache - 1 =
          rw fewer (length-drop 1 s.cache) in
        let kept : (make_room fuel (drop_oldest s.cache s)).cache
            ≡ drop (length (drop_oldest s.cache s).cache - 31) (drop_oldest s.cache s).cache =
          make_room_lem fuel (drop_oldest s.cache s) distinct (omega (arith, shorter)) in
        rw full (kept ∙ rw fewer (drop-tail s.cache (ground arith)))
    | inr roomy ↦ let z : length s.cache - 31 ≡ 0 = ground arith in rw (roomy, z)
  ]

  make_room-HasDistinctKeys :
      (s : FrontendCache D)
      → HasDistinctKeys s.cache
      → HasDistinctKeys (make_room (length s.cache) s).cache
  make_room-HasDistinctKeys s d =
      rw (make_room_lem (length s.cache) s d (omega arith))
        (drop-HasDistinctKeys (length s.cache - 31) s.cache d)

  length-make_room :
      (s : FrontendCache D)
      → HasDistinctKeys s.cache
      → length (make_room (length s.cache) s).cache ≤ 31
  length-make_room s d =
      rw (make_room_lem (length s.cache) s d (omega arith))
        (omega (arith, length-drop (length s.cache - 31) s.cache))

  -- The fields that `track_cache_expiry` leaves alone.
  cache-track : (expires : ℕ) (s : FrontendCache D) → (track_cache_expiry expires s).cache ≡ s.cache
  unfolding track_cache_expiry
  cache-track expires s = ground arith

-- An entry that the Map holds decides the answer.
cached_lookup_held :
    {D : Type 0} (codec : Codec D) (key : Text) (force : Bool) (seen later : ℕ)
    (s : FrontendCache D) (e : Entry D)
    → get key s.cache ≡ some e
    → (cached_lookup codec key force seen later s).1
      ≡ (if force then none else if ltb later e.expires_at then some e.content else none)
unfolding cached_lookup
cached_lookup_held codec key force seen later s e h = ground arith

module _ {D : Type 0} (codec : Codec D) (key : Text) (content : D) (now : ℕ) (room : Bool) where
  -- If each key stands once in the Map, storing a response makes room first: the Map is the
  -- newest 31 entries of before, in their order, with the response put under its key, expiring a
  -- minute after the clock reading. It holds at most 32 entries, and each key once.
  pub cached_store-keeps_newest :
      (s : FrontendCache D)
      → HasDistinctKeys s.cache
      → ((cached_store codec key content now room s).cache
          ≡ put key
              (record { content = content; expires_at = now + 60_000 })
              (drop (length s.cache - 31) s.cache))
        × (length (cached_store codec key content now room s).cache ≤ 32)
        × HasDistinctKeys (cached_store codec key content now room s).cache
  unfolding cached_store
  cached_store-keeps_newest s d = (
    rw (cache-track, make_room_lem (length s.cache) s d (omega arith)) refl,
    rw cache-track (
        omega (
          arith,
          length-make_room s d,
          length-put key (record { content = content; expires_at = now + 60_000 })
              (make_room (length s.cache) s).cache,
        )),
    rw cache-track (put-HasDistinctKeys key _ _ (make_room-HasDistinctKeys s d)),
  )

  -- What was stored is served from the Map with no request, whatever the Map held before, exactly
  -- until a minute has passed; then, and whenever the caller forces it, a request is made.
  pub cached_lookup-cached_store :
      (s : FrontendCache D) (force : Bool) (seen later : ℕ)
      → (cached_lookup codec key force seen later (cached_store codec key content now room s)).1
        ≡ (if force then none else if ltb later (now + 60_000) then some content else none)
  unfolding cached_store
  cached_lookup-cached_store s force seen later =
      cached_lookup_held codec key force seen later _
        (record { content = content; expires_at = now + 60_000 })
        (rw cache-track (rw (get-put, beq_refl key) refl))
