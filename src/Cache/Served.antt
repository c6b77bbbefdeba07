-- ===== src/Cache/Served.antt =====
-- What the cache promises its callers: an answer without a request is a response that was stored
-- for the same request since the cache was last cleared, and that has not expired.
use cpa_keeper_dashboard.Prelude.{
  ℕ, ◌+◌, ◌<◌, ◌≡◌, refl, sym, ◌∙◌, Bool, true, false, Option, none, some, List, [], ◌∷◌, arith,
  inl, inr, Bool-cases, length, ltb, if◌then◌else◌, not, ◌||◌, ◌&&◌, ap,
}
use cpa_keeper_dashboard.Prelude.Interface.{◌===◌}
use cpa_keeper_dashboard.Prelude.OrdMap.{OrdMap, get}
use cpa_keeper_dashboard.Prelude.Text.{Text, text_eq, starts_with}
use cpa_keeper_dashboard.Cache.{
  cache_prefix, Entry, Codec, Parsed, throws, no_entry, an_entry, SessionStorage, FrontendCache,
  frontend_cache_ttl_ms, clear_frontend_cache, cached_lookup, cached_store, find_entry, use_entry,
  restore_raw, restore_parsed,
}
use cpa_keeper_dashboard.Cache.Scope.{cache_key}
use cpa_keeper_dashboard.Cache.Lookup.{Available, cached_lookup-eq-some_iff}
use cpa_keeper_dashboard.Cache.Clear.{others, clear_frontend_cache_lem}
use cpa_keeper_dashboard.Cache.Log.{
  Log, InLog, MapIn-delete, MapIn-put, StorageIn, remove_item-StorageIn, set_item-StorageIn,
  Refines, track-Refines, make_room-Refines,
}

-- What callers and forms do with the cache: a lookup, a response to store, and clearing it. The
-- management key and the path of the request make the key of an entry.
pub data Event (D : Type 0) : Type 0 where
  lookup : (key path : Text) (force : Bool) (seen now : ℕ) → Event D
  store : (key path : Text) (content : D) (now : ℕ) (room : Bool) → Event D
  clear : Event D

module _ {D : Type 0} where
  abbrev stored : D → ℕ → Entry D
  stored content now = record { content = content; expires_at = now + frontend_cache_ttl_ms }

  -- The log is what was stored since the cache was last cleared.
  abbrev pub log_after : Event D → Log D → Log D
  log_after (lookup key path force seen now) log = log
  log_after (store key path content now room) log = (cache_key key path, stored content now) ∷ log
  log_after clear log = []

  -- An answer is none, or one out of the log that has not expired, where it was not forced.
  abbrev pub IsAllowed : Event D → Option D → Log D → Type 0
  IsAllowed e none log = Unit
  IsAllowed (lookup key path force seen now) (some d) log =
      (force ≡ false)
      × (e : Entry D) × InLog (cache_key key path) e log
      × (now < e.expires_at)
      × (e.content ≡ d)
  IsAllowed (store key path content now room) (some d) log = ⊥
  IsAllowed clear (some d) log = ⊥

module _ {D : Type 0} (codec : Codec D) where
  abbrev pub answer : Event D → FrontendCache D → FrontendCache D × Option D
  answer (lookup key path force seen now) s =
      cached_lookup codec (cache_key key path) force seen now s
  answer (store key path content now room) s =
      (cached_store codec (cache_key key path) content now room s, none)
  answer clear s = (clear_frontend_cache s, none)

  key-IsOurs : (key path : Text) → starts_with cache_prefix (cache_key key path) ≡ true
  unfolding cache_key
  key-IsOurs key path = refl

  Available-InLog :
      (key : Text) (seen : ℕ) (s : FrontendCache D) (e : Entry D) (log : Log D)
      → starts_with cache_prefix key ≡ true
      → Refines codec s log
      → Available codec key seen s e
      → InLog key e log
  Available-InLog key seen s e log p h (inl m) = h.in_map key e m
  Available-InLog key seen s e log p h (inr (raw, _, on, i, _, r, _)) =
      h.in_storage on key raw e p i r

  lookup-IsAllowed :
      (key path : Text) (force : Bool) (seen now : ℕ) (s : FrontendCache D) (log : Log D)
      (o : Option D)
      → Refines codec s log
      → (cached_lookup codec (cache_key key path) force seen now s).1 ≡ o
      → IsAllowed (lookup key path force seen now) o log
  lookup-IsAllowed key path force seen now s log none h q = tt
  lookup-IsAllowed key path force seen now s log (some d) h q =
      let (e, f, a, l, c) =
        (cached_lookup-eq-some_iff codec (cache_key key path) seen now s d force).0 q in
      (f, e, Available-InLog (cache_key key path) seen s e log (key-IsOurs key path) h a, l, c)

  parsed-Refines :
      (key raw : Text) (now : ℕ) (p : Parsed D) (s : FrontendCache D) (log : Log D)
      → (starts_with cache_prefix key ≡ true) × (s.storage.enabled ≡ true)
      → (get key s.storage.items ≡ some raw) × (codec.parse raw ≡ p)
      → Refines codec s log
      → Refines codec (restore_parsed codec key now p s).0 log
  unfolding restore_parsed
  parsed-Refines key raw now throws s log a b h = h
  parsed-Refines key raw now no_entry s log a b h = record {
    in_map = h.in_map;
    in_storage = remove_item-StorageIn codec key s.storage log h.in_storage;
  }
  parsed-Refines key raw now (an_entry e) s log (ours, on) (g, r) h =
      elim (Bool-cases (ltb now e.expires_at)) [
        | inl fresh ↦ rw fresh (record {
          in_map = MapIn-put key e s.cache log (h.in_storage on key raw e ours g r) h.in_map;
          in_storage = h.in_storage;
        })
        | inr late ↦ rw late (record {
          in_map = h.in_map;
          in_storage = remove_item-StorageIn codec key s.storage log h.in_storage;
        })
      ]

  raw-Refines :
      (key : Text) (now : ℕ) (o : Option Text) (s : FrontendCache D) (log : Log D)
      → (starts_with cache_prefix key ≡ true) × (s.storage.enabled ≡ true)
      → get key s.storage.items ≡ o
      → Refines codec s log
      → Refines codec (restore_raw codec key now o s).0 log
  unfolding restore_raw
  raw-Refines key now none s log a g h = h
  raw-Refines key now (some []) s log a g h = h
  raw-Refines key now (some (c ∷ raw)) s log a g h =
      parsed-Refines key (c ∷ raw) now _ s log a (g, refl) h

  find-Refines :
      (key : Text) (force : Bool) (now : ℕ) (o : Option (Entry D)) (s : FrontendCache D)
      (log : Log D)
      → starts_with cache_prefix key ≡ true
      → Refines codec s log
      → Refines codec (find_entry codec key force now o s).0 log
  unfolding find_entry
  find-Refines key force now (some e) s log p h = h
  find-Refines key force now none s log p h = elim (Bool-cases (force || not s.storage.enabled)) [
    | inl skipped ↦ rw skipped h
    | inr read ↦ rw read (raw-Refines key now _ s log (p, ground arith) refl h)
  ]

  use-Refines :
      (key : Text) (force : Bool) (now : ℕ) (o : Option (Entry D)) (s : FrontendCache D)
      (log : Log D)
      → Refines codec s log
      → Refines codec (use_entry codec key force now o s).0 log
  unfolding use_entry
  use-Refines key force now none s log h = h
  use-Refines key force now (some e) s log h =
      elim (Bool-cases (not force && ltb now e.expires_at)) [
        | inl fresh ↦ rw fresh (track-Refines codec e.expires_at s log h)
        | inr late ↦ rw late (record {
          in_map = MapIn-delete key s.cache log h.in_map;
          in_storage = remove_item-StorageIn codec key s.storage log h.in_storage;
        })
      ]

  later-Refines :
      (k : Text) (e : Entry D) (s : FrontendCache D) (log : Log D)
      → Refines codec s log
      → Refines codec s ((k, e) ∷ log)
  later-Refines k e s log h = record {
    in_map = λ j f g. inr (h.in_map j f g);
    in_storage = λ on j raw f p g r. inr (h.in_storage on j raw f p g r);
  }

  store-Refines :
      (key : Text) (content : D) (now : ℕ) (room : Bool) (s : FrontendCache D) (log : Log D)
      → Refines codec s log
      → Refines codec (cached_store codec key content now room s) ((key, stored content now) ∷ log)
  unfolding cached_store
  store-Refines key content now room s log h =
      let e = stored content now in
      let r = make_room-Refines codec (length s.cache) s _ (later-Refines key e s log h) in
      let log' = (key, e) ∷ log in
      track-Refines codec e.expires_at _ log' (record {
        in_map = MapIn-put key e _ log' (inl (refl, refl)) r.in_map;
        in_storage = set_item-StorageIn codec key e room _ log' (inl (refl, refl)) r.in_storage;
      })

  get-others :
      (k : Text) (items : OrdMap Text Text)
      → starts_with cache_prefix k ≡ true
      → get k (others items) ≡ none
  unfolding get others
  get-others k [] p = refl
  get-others k ((j, v) ∷ items) p = elim (Bool-cases (starts_with cache_prefix j)) [
    | inl ours ↦ rw ours (get-others k items p)
    | inr foreign ↦ elim (Bool-cases (j === k)) [
      | inl same ↦
          let q = ap (starts_with cache_prefix) ((text_eq.beq_iff j k).0 same) in
          absurd (let r = sym foreign ∙ q ∙ p in ground arith)
      | inr other ↦ rw foreign (rw other (get-others k items p))
    ]
  ]

  cleared-StorageIn :
      (b : Bool) (st : SessionStorage)
      → st.enabled ≡ b
      → StorageIn codec (if b then record { enabled = true; items = others st.items } else st) []
  cleared-StorageIn true st q on k raw e p g r =
      absurd (let o = get-others k st.items p in ground arith)
  cleared-StorageIn false st q on k raw e p g r = absurd (ground arith)

  clear-Refines : (s : FrontendCache D) → Refines codec (clear_frontend_cache s) []
  clear-Refines s = rw (clear_frontend_cache_lem s) (record {
    in_map = λ k e g. absurd (unfold get in ground arith);
    in_storage = cleared-StorageIn s.storage.enabled s.storage refl;
  })

  answer-Refines :
      (e : Event D) (s : FrontendCache D) (log : Log D)
      → Refines codec s log
      → IsAllowed e (answer e s).1 log × Refines codec (answer e s).0 (log_after e log)
  unfolding cached_lookup
  answer-Refines (lookup key path force seen now) s log h = (
    lookup-IsAllowed key path force seen now s log _ h refl,
    use-Refines (cache_key key path) force now _ _ log
        (find-Refines (cache_key key path) force seen _ s log (key-IsOurs key path) h),
  )
  answer-Refines (store key path content now room) s log h =
      (tt, store-Refines (cache_key key path) content now room s log h)
  answer-Refines clear s log h = (tt, clear-Refines s)

  -- Every answer of a run is one that the log then allows.
  abbrev pub Serves : List (Event D) → FrontendCache D → Log D → Type 0
  Serves [] s log = Unit
  Serves (e ∷ es) s log =
      IsAllowed e (answer e s).1 log × Serves es (answer e s).0 (log_after e log)

  -- In any order of lookups, stored responses and clearings, from a state in which whatever the Map
  -- and sessionStorage hold is in the log: an answer without a request was not forced, it has not
  -- expired, and it is the data of a response that was stored under the key that the management
  -- key and the path make, after the cache was last cleared, or is in the log of the start.
  pub answer-Serves :
      (es : List (Event D)) (s : FrontendCache D) (log : Log D)
      → Refines codec s log
      → Serves es s log
  answer-Serves [] s log h = tt
  answer-Serves (e ∷ es) s log h =
      let (allowed, next) = answer-Refines e s log h in
      (allowed, answer-Serves es (answer e s).0 (log_after e log) next)
