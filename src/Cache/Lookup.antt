-- ===== src/Cache/Lookup.antt =====
-- The first half of `cached`: when it answers with no request.
use cpa_keeper_dashboard.Prelude.{
  ℕ, ◌<◌, ◌≡◌, ◌≢◌, ◌↔◌, ◌⊎◌, Bool, true, false, none, some, [], ◌∷◌, arith, Option-cases, inl, inr,
  ltb, ◌&&◌, if◌then◌else◌, Bool-cases, refl, ap, ◌+◌, zero, suc, length, ◌∙◌,
}
use cpa_keeper_dashboard.Prelude.Interface.{beq_refl}
use cpa_keeper_dashboard.Prelude.OrdMap.{OrdMap, get, get-put}
use cpa_keeper_dashboard.Prelude.Text.{Text, text_eq}
use cpa_keeper_dashboard.Cache.{
  Entry, Codec, Parsed, throws, no_entry, an_entry, FrontendCache, cached_lookup, cached_store,
  track_cache_expiry, set_item, drop_oldest, make_room, remove_item, SessionStorage,
}

module _ {D : Type 0} (codec : Codec D) (key : Text) where
  -- An entry in reach: in the Map, or in sessionStorage, readable there and fresh when it is read.
  abbrev pub Available : ℕ → FrontendCache D → Entry D → Type 0
  Available seen s e =
      (get key s.cache ≡ some e)
      ⊎ ((raw : Text) × (get key s.cache ≡ none)
          × (s.storage.enabled ≡ true)
          × (get key s.storage.items ≡ some raw)
          × (raw ≢ [])
          × (codec.parse raw ≡ an_entry e)
          × (seen < e.expires_at))

  Parsed-cases : (p : Parsed D) → (p ≡ throws) ⊎ (p ≡ no_entry) ⊎ ((e : Entry D) × (p ≡ an_entry e))
  Parsed-cases throws = inl (λ i. throws)
  Parsed-cases no_entry = inr (inl (λ i. no_entry))
  Parsed-cases (an_entry e) = inr (inr (e, λ i. an_entry e))

  module _ (seen now : ℕ) (s : FrontendCache D) (d : D) where
    stored_hit :
        (raw : Text)
        → get key s.cache ≡ none
        → s.storage.enabled ≡ true
        → get key s.storage.items ≡ some raw
        → (cached_lookup codec key false seen now s).1 ≡ some d
        → (e : Entry D) × Available seen s e × (now < e.expires_at) × (e.content ≡ d)
    unfolding cached_lookup
    stored_hit [] m on i h = absurd (ground arith)
    stored_hit (c ∷ raw) m on i h = elim (Parsed-cases (codec.parse (c ∷ raw))) [
      | inl bad ↦ absurd (ground arith)
      | inr (inl other) ↦ absurd (ground arith)
      | inr (inr (e, parsed)) ↦
          (e, inr (c ∷ raw, m, on, i, (λ z. cc), parsed, ground arith), ground arith, ground arith)
    ]

    unforced_hit :
        (cached_lookup codec key false seen now s).1 ≡ some d
        → (e : Entry D) × Available seen s e × (now < e.expires_at) × (e.content ≡ d)
    unfolding cached_lookup
    unforced_hit h = elim (Option-cases (get key s.cache)) [
      | inr (e, m) ↦ (e, inl m, ground arith, ground arith)
      | inl m ↦ elim (Bool-cases s.storage.enabled) [
        | inr off ↦ absurd (ground arith)
        | inl on ↦ elim (Option-cases (get key s.storage.items)) [
          | inl missing ↦ absurd (ground arith)
          | inr (raw, i) ↦ stored_hit raw m on i h
        ]
      ]
    ]

    forced_miss : (cached_lookup codec key true seen now s).1 ≡ none
    unfolding cached_lookup
    forced_miss = ground arith

    stored_complete :
        (e : Entry D) (raw : Text)
        → get key s.cache ≡ none
        → s.storage.enabled ≡ true
        → get key s.storage.items ≡ some raw
        → raw ≢ []
        → codec.parse raw ≡ an_entry e
        → seen < e.expires_at
        → now < e.expires_at
        → (cached_lookup codec key false seen now s).1 ≡ some e.content
    unfolding cached_lookup
    stored_complete e [] m on i r p q h = absurd (r refl)
    stored_complete e (c ∷ raw) m on i r p q h = ground arith

    hit_complete :
        (e : Entry D)
        → Available seen s e
        → now < e.expires_at
        → (cached_lookup codec key false seen now s).1 ≡ some e.content
    unfolding cached_lookup
    hit_complete e (inl m) h = ground arith
    hit_complete e (inr (raw, m, on, i, r, p, q)) h = stored_complete e raw m on i r p q h

    -- `cached` answers with no request exactly if the caller does not force it and an entry in
    -- reach has not expired at the second clock reading; it answers with that entry's data.
    pub cached_lookup-eq-some_iff :
        (force : Bool)
        → ((cached_lookup codec key force seen now s).1 ≡ some d) ↔ (
            (e : Entry D) × (force ≡ false)
            × Available seen s e
            × (now < e.expires_at)
            × (e.content ≡ d))
    cached_lookup-eq-some_iff true =
        (λ h. absurd (ground (arith, forced_miss)), λ w. absurd (ground arith))
    cached_lookup-eq-some_iff false = (
      λ h. let (e, a, q, c) = unforced_hit h in (e, refl, a, q, c),
      λ w. let (e, f, a, q, c) = w in rw (hit_complete e a q) (ap some c),
    )

  -- A page that is loaded again: the Map and the deadline are new, sessionStorage stays.
  abbrev pub reloaded : FrontendCache D → FrontendCache D
  reloaded s = record s { cache = []; refresh_deadline = 0 }

  -- What sessionStorage holds for a key that the Map lacks decides the answer.
  stored_answer :
      (seen now : ℕ) (s : FrontendCache D) (e : Entry D) (raw : Text)
      → get key s.cache ≡ none
      → s.storage.enabled ≡ true
      → get key s.storage.items ≡ some raw
      → raw ≢ []
      → codec.parse raw ≡ an_entry e
      → (cached_lookup codec key false seen now s).1
        ≡ (if ltb seen e.expires_at && ltb now e.expires_at then some e.content else none)
  unfolding cached_lookup
  stored_answer seen now s e [] m on i r p = absurd (r refl)
  stored_answer seen now s e (c ∷ raw) m on i r p = ground arith

  enabled-drop_oldest :
      (m : OrdMap Text (Entry D)) (s : FrontendCache D)
      → (drop_oldest m s).storage.enabled ≡ s.storage.enabled
  unfolding drop_oldest remove_item
  enabled-drop_oldest [] s = refl
  enabled-drop_oldest ((k, e) ∷ m) s = ground arith

  enabled-make_room :
      (fuel : ℕ) (s : FrontendCache D) → (make_room fuel s).storage.enabled ≡ s.storage.enabled
  unfolding make_room
  enabled-make_room zero s = refl
  enabled-make_room (suc fuel) s =
      ground (arith, enabled-make_room fuel (drop_oldest s.cache s), enabled-drop_oldest s.cache s)

  storage-track :
      (expires : ℕ) (s : FrontendCache D) → (track_cache_expiry expires s).storage ≡ s.storage
  unfolding track_cache_expiry
  storage-track expires s = ground arith

  storage-store :
      (content : D) (now : ℕ) (s : FrontendCache D)
      → (cached_store codec key content now true s).storage
        ≡ set_item key
            (codec.stringify (record { content = content; expires_at = now + 60_000 }))
            true
            (make_room (length s.cache) s).storage
  unfolding cached_store
  storage-store content now s = rw storage-track refl

  -- A stored response outlives a reload of the page, where sessionStorage is enabled and has room:
  -- it is then served from there with no request until its minute has passed.
  pub cached_lookup-reloaded :
      (content : D) (stored_at seen now : ℕ) (s : FrontendCache D)
      → s.storage.enabled ≡ true
      → (cached_lookup codec key false seen now
          (reloaded (cached_store codec key content stored_at true s))).1
        ≡ (if ltb seen (stored_at + 60_000) && ltb now (stored_at + 60_000)
            then some content
            else none)
  cached_lookup-reloaded content stored_at seen now s on =
      stored_answer seen now (reloaded (cached_store codec key content stored_at true s)) e
        (codec.stringify e) (unfold get in refl) (ap (λ st'. st'.enabled) written ∙ enabled kept)
        (ap (λ st'. get key st'.items) written ∙ stored kept) (codec.stringify-ne-nil e)
        (codec.parse-stringify e)
    where
      e : Entry D
      e = record { content = content; expires_at = stored_at + 60_000 }

      st : SessionStorage
      st = (make_room (length s.cache) s).storage

      written :
          (cached_store codec key content stored_at true s).storage
          ≡ set_item key (codec.stringify e) true st
      written = storage-store content stored_at s

      kept : st.enabled ≡ true
      kept = enabled-make_room (length s.cache) s ∙ on

      enabled : st.enabled ≡ true → (set_item key (codec.stringify e) true st).enabled ≡ true
      enabled h = unfold set_item in ground arith

      stored :
          st.enabled ≡ true
          → get key (set_item key (codec.stringify e) true st).items ≡ some (codec.stringify e)
      stored h = unfold set_item in rw h (rw (get-put, beq_refl key) refl)
