-- ===== src/Cache/Log.antt =====
-- A log of the responses that were stored, and that whatever the cache holds is in it.
use mathlib.Core.Path.{subst}
use cpa_keeper_dashboard.Prelude.{
  ◌||◌, ◌&&◌, ◌==◌, ap, ℕ, zero, suc, ◌≡◌, sym, ◌∙◌, Bool, true, false, some, List, [], ◌∷◌, arith,
  ◌⊎◌, inl, inr, Bool-cases, length, ltb, leb, if◌then◌else◌,
}
use cpa_keeper_dashboard.Prelude.Interface.{◌===◌}
use cpa_keeper_dashboard.Prelude.OrdMap.{OrdMap, get, put, delete, get-put, get-delete}
use cpa_keeper_dashboard.Prelude.Text.{Text, text_eq, starts_with}
use cpa_keeper_dashboard.Cache.{
  cache_prefix, Entry, Codec, an_entry, SessionStorage, FrontendCache, remove_item, set_item,
  track_cache_expiry, drop_oldest, make_room,
}

abbrev pub Log : Type 0 → Type 0
Log D = List (Text × Entry D)

module _ {D : Type 0} where
  abbrev pub InLog : Text → Entry D → Log D → Type 0
  InLog k e [] = ⊥
  InLog k e ((j, f) ∷ log) = ((j ≡ k) × (f ≡ e)) ⊎ InLog k e log

  abbrev pub MapIn : OrdMap Text (Entry D) → Log D → Type 0
  MapIn m log = (k : Text) (e : Entry D) → get k m ≡ some e → InLog k e log

  pub MapIn-delete :
      (k : Text) (m : OrdMap Text (Entry D)) (log : Log D) → MapIn m log → MapIn (delete k m) log
  MapIn-delete k m log h j e g = h j e (let q = get-delete k j m in ground arith)

  pub MapIn-put :
      (k : Text) (e : Entry D) (m : OrdMap Text (Entry D)) (log : Log D)
      → InLog k e log
      → MapIn m log
      → MapIn (put k e m) log
  MapIn-put k e m log i h j f g = elim (Bool-cases (k === j)) [
    | inl same ↦
        let p = (text_eq.beq_iff k j).0 same in
        let q : e ≡ f = let r = get-put k j e m in ground arith in
        subst (λ x. InLog x f log) p (subst (λ x. InLog k x log) q i)
    | inr other ↦ h j f (let r = get-put k j e m in ground arith)
  ]

module _ {D : Type 0} (codec : Codec D) where
  -- The texts under the cache's own keys that can be read.
  abbrev pub TextsIn : OrdMap Text Text → Log D → Type 0
  TextsIn items log =
      (k raw : Text) (e : Entry D)
      → starts_with cache_prefix k ≡ true
      → get k items ≡ some raw
      → codec.parse raw ≡ an_entry e
      → InLog k e log

  pub TextsIn-delete :
      (k : Text) (items : OrdMap Text Text) (log : Log D)
      → TextsIn items log
      → TextsIn (delete k items) log
  TextsIn-delete k items log h j raw e p g r =
      h j raw e p (let q = get-delete k j items in ground arith) r

  an_entry-injective : (e f : Entry D) → an_entry e ≡ an_entry f → e ≡ f
  an_entry-injective e f h = ap (λ p. elim p [ an_entry x ↦ x | _ ↦ e ]) h

  TextsIn-put :
      (k : Text) (e : Entry D) (items : OrdMap Text Text) (log : Log D)
      → InLog k e log
      → TextsIn items log
      → TextsIn (put k (codec.stringify e) items) log
  TextsIn-put k e items log i h j raw f p g r = elim (Bool-cases (k === j)) [
    | inl same ↦
        let q = (text_eq.beq_iff k j).0 same in
        let w : codec.stringify e ≡ raw =
          let t = get-put k j (codec.stringify e) items in ground arith in
        let x = an_entry-injective e f (sym (codec.parse-stringify e) ∙ ap codec.parse w ∙ r) in
        subst (λ y. InLog y f log) q (subst (λ y. InLog k y log) x i)
    | inr other ↦ h j raw f p (let t = get-put k j (codec.stringify e) items in ground arith) r
  ]

  -- A storage that is disabled cannot be read.
  abbrev pub StorageIn : SessionStorage → Log D → Type 0
  StorageIn st log = st.enabled ≡ true → TextsIn st.items log

  pub if-StorageIn :
      (b : Bool) (st' st : SessionStorage) (log : Log D)
      → StorageIn st' log
      → StorageIn st log
      → StorageIn (if b then st' else st) log
  if-StorageIn true st' st log h' h = h'
  if-StorageIn false st' st log h' h = h

  pub remove_item-StorageIn :
      (k : Text) (st : SessionStorage) (log : Log D)
      → StorageIn st log
      → StorageIn (remove_item k st) log
  unfolding remove_item
  remove_item-StorageIn k st log h =
      if-StorageIn st.enabled _ st log (λ on. TextsIn-delete k st.items log (h on)) h

  pub set_item-StorageIn :
      (k : Text) (e : Entry D) (room : Bool) (st : SessionStorage) (log : Log D)
      → InLog k e log
      → StorageIn st log
      → StorageIn (set_item k (codec.stringify e) room st) log
  unfolding set_item
  set_item-StorageIn k e room st log i h =
      if-StorageIn (st.enabled && room) _ st log (λ on. TextsIn-put k e st.items log i (h on)) h

  -- Whatever the cache could answer with is in the log.
  pub record Refines (s : FrontendCache D) (log : Log D) : Type 0 where
    pub in_map : MapIn s.cache log
    pub in_storage : StorageIn s.storage log

  pub track-Refines :
      (expires : ℕ) (s : FrontendCache D) (log : Log D)
      → Refines s log
      → Refines (track_cache_expiry expires s) log
  unfolding track_cache_expiry
  track-Refines expires s log h =
      elim (Bool-cases (s.refresh_deadline == 0 || ltb expires s.refresh_deadline)) [
        | inl sooner ↦ rw sooner (record { in_map = h.in_map; in_storage = h.in_storage })
        | inr later ↦ rw later h
      ]

  drop-Refines :
      (m : OrdMap Text (Entry D)) (s : FrontendCache D) (log : Log D)
      → Refines s log
      → Refines (drop_oldest m s) log
  unfolding drop_oldest
  drop-Refines [] s log h = h
  drop-Refines ((k, e) ∷ m) s log h = record {
    in_map = MapIn-delete k s.cache log h.in_map;
    in_storage = remove_item-StorageIn k s.storage log h.in_storage;
  }

  pub make_room-Refines :
      (fuel : ℕ) (s : FrontendCache D) (log : Log D)
      → Refines s log
      → Refines (make_room fuel s) log
  unfolding make_room
  make_room-Refines zero s log h = h
  make_room-Refines (suc fuel) s log h = elim (Bool-cases (leb 32 (length s.cache))) [
    | inl full ↦
        rw full (make_room-Refines fuel (drop_oldest s.cache s) log (drop-Refines s.cache s log h))
    | inr room ↦ rw room h
  ]
