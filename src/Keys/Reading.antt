-- ===== src/Keys/Reading.antt =====
-- What `readManagementKey` (go/dashboard/app.js) reads a management key from.
use mathlib.Core.Path.{subst}
use cpa_keeper_dashboard.Prelude.{
  ◌+◌, ◌≡◌, ◌≢◌, refl, sym, ◌∙◌, ◌⊎◌, inl, inr, Option, none, some, [], ◌∷◌, arith, length,
}
use cpa_keeper_dashboard.Prelude.Json.{Json}
use cpa_keeper_dashboard.Prelude.Text.{Text, codes, text_eq}
use cpa_keeper_dashboard.Keys.{
  Platform, decode_obfuscated, parse_json, find_in, found_key, read_stored, read_candidates,
  after_session, read_management_key,
}
use cpa_keeper_dashboard.Keys.Finding.{HoldsKey, find_management_key-HoldsKey}
use cpa_keeper_dashboard.Keys.Finding.{or_else-cases, or_else-left, or_else-right}

module _ {N : Type 0} (p : Platform N) where
  -- A stored text is not empty, and after decoding and parsing it holds a key.
  abbrev Yields : Text → Text → Type 0
  Yields raw k =
      let decoded = decode_obfuscated p raw in
      (raw ≢ [])
      × (v : Json N) × (parse_json p (length decoded + 1) decoded ≡ some v)
      × HoldsKey v k

  abbrev Stores : (Text → Option (Option Text)) → Text → Text → Type 0
  Stores read c k = (raw : Text) × (read c ≡ some (some raw)) × Yields raw k

  found_key-Yields :
      (raw : Text) (o : Option (Json N))
      → raw ≢ []
      → (let decoded = decode_obfuscated p raw in parse_json p (length decoded + 1) decoded ≡ o)
      → find_in p o ≢ []
      → Yields raw (find_in p o)
  found_key-Yields raw none r e q = absurd (q refl)
  found_key-Yields raw (some v) r e q = (r, v, e, (find_management_key-HoldsKey v).0 q)

  Yields-found_key : (raw k : Text) → k ≢ [] → Yields raw k → found_key p raw ≢ []
  unfolding found_key
  Yields-found_key raw k q (r, v, e, h) = rw e ((find_management_key-HoldsKey v).1 k q h)

  stored-Stores :
      (read : Text → Option (Option Text)) (c rest k : Text) (o : Option (Option Text))
      → k ≢ []
      → read c ≡ o
      → read_stored p o rest ≡ k
      → Stores read c k ⊎ (rest ≡ k)
  unfolding found_key
  stored-Stores read c rest k none q e r = absurd (q (sym r))
  stored-Stores read c rest k (some none) q e r = inr r
  stored-Stores read c rest k (some (some [])) q e r = inr r
  stored-Stores read c rest k (some (some (x ∷ raw))) q e r = elim (or_else-cases _ _ k q r) [
    | inl found ↦ inl (
      x ∷ raw,
      e,
      subst (Yields (x ∷ raw)) found
          (found_key-Yields (x ∷ raw) _ (λ n. absurd (ground arith)) refl (λ n. q (sym found ∙ n))),
    )
    | inr later ↦ inr later
  ]

  Stores-stored :
      (read : Text → Option (Option Text)) (c rest k : Text)
      → k ≢ []
      → Stores read c k
      → read_stored p (read c) rest ≢ []
  Stores-stored read c rest k q ([], e, (ne, _, _, _)) = absurd (ne refl)
  Stores-stored read c rest k q (x ∷ raw, e, y) =
      rw e (or_else-left _ rest (Yields-found_key (x ∷ raw) k q y))

  -- What does not throw passes on the rest.
  passed-stored :
      (o : Option (Option Text)) (rest : Text) → o ≢ none → rest ≢ [] → read_stored p o rest ≢ []
  passed-stored none rest t q = absurd (t refl)
  passed-stored (some none) rest t q = q
  passed-stored (some (some [])) rest t q = q
  passed-stored (some (some (x ∷ raw))) rest t q = or_else-right (found_key p (x ∷ raw)) rest q

  abbrev proxy_auth : Text
  proxy_auth = codes "cli-proxy-auth"

  abbrev local_key : Text
  local_key = codes "managementKey"

  candidates-Stores :
      (local : Text → Option (Option Text)) (k : Text)
      → k ≢ []
      → read_candidates p local (proxy_auth ∷ local_key ∷ []) ≡ k
      → Stores local proxy_auth k ⊎ Stores local local_key k
  unfolding read_candidates
  candidates-Stores local k q e = elim (stored-Stores local proxy_auth _ k _ q refl e) [
    | inl h ↦ inl h
    | inr r ↦ elim (stored-Stores local local_key [] k _ q refl r) [
      | inl h ↦ inr h
      | inr n ↦ absurd (q (sym n))
    ]
  ]

  -- The key of this session, or one of those that the local storage holds.
  abbrev pub HasStored : (session local : Text → Option (Option Text)) → Text → Type 0
  HasStored session local k =
      (session (codes "usage-keeper-management-key") ≡ some (some k))
      ⊎ (Stores local proxy_auth k ⊎ Stores local local_key k)

  abbrev NeverThrows : (Text → Option (Option Text)) → Type 0
  NeverThrows read = (c : Text) → read c ≢ none

  after_session-cases :
      (o : Option (Option Text)) (rest k : Text)
      → k ≢ []
      → after_session o rest ≡ k
      → (o ≡ some (some k)) ⊎ (rest ≡ k)
  after_session-cases none rest k q e = absurd (q (sym e))
  after_session-cases (some none) rest k q e = inr e
  after_session-cases (some (some s)) rest k q e = elim (or_else-cases s rest k q e) [
    | inl same ↦ inl (rw same refl)
    | inr later ↦ inr later
  ]

  after_session-some :
      (o : Option (Option Text)) (rest : Text) → o ≢ none → rest ≢ [] → after_session o rest ≢ []
  after_session-some none rest t q = absurd (t refl)
  after_session-some (some none) rest t q = q
  after_session-some (some (some s)) rest t q = or_else-right s rest q

  read-HasStored :
      (session local : Text → Option (Option Text)) (k : Text)
      → k ≢ []
      → read_management_key p session local ≡ k
      → HasStored session local k
  unfolding read_management_key
  read-HasStored session local k q e = elim (after_session-cases _ _ k q e) [
    | inl h ↦ inl h
    | inr r ↦ inr (candidates-Stores local k q r)
  ]

  HasStored-read :
      (session local : Text → Option (Option Text)) (k : Text)
      → NeverThrows session
      → NeverThrows local
      → k ≢ []
      → HasStored session local k
      → read_management_key p session local ≢ []
  unfolding read_management_key read_candidates
  HasStored-read session local k ts tl q (inl h) = rw h (or_else-left k _ q)
  HasStored-read session local k ts tl q (inr (inl h)) =
      after_session-some _ _ (ts _) (Stores-stored local proxy_auth _ k q h)
  HasStored-read session local k ts tl q (inr (inr h)) =
      after_session-some _ _ (ts _)
        (passed-stored _ _ (tl _) (Stores-stored local local_key [] k q h))

  -- Where no access to a storage throws: a key that is read, unless it is empty, is the one that
  -- sessionStorage has, or one of the value that a text in localStorage under `cli-proxy-auth` or
  -- `managementKey` is decoded and parsed to; and if there is such a key that is not empty, the key
  -- that is read is not empty.
  pub read_management_key-HasStored :
      (session local : Text → Option (Option Text))
      → NeverThrows session
      → NeverThrows local
      → (let k = read_management_key p session local in k ≢ [] → HasStored session local k)
        × ((k : Text)
            → k ≢ []
            → HasStored session local k
            → read_management_key p session local ≢ [])
  read_management_key-HasStored session local ts tl = (
    λ q. read-HasStored session local _ q refl,
    λ k q h. HasStored-read session local k ts tl q h,
  )
