-- ===== src/Settings/Saving.antt =====
-- After a form has been saved, and after a 401, nothing is answered from the cache.
use mathlib.Core.Path.{subst}
use cpa_keeper_dashboard.Prelude.{
  ℕ, ◌+◌, ◌≡◌, refl, ap, sym, ◌∙◌, Bool, true, false, ◌&&◌, ◌||◌, ◌==◌, not, none, some, [], ◌∷◌,
  if◌then◌else◌, arith, Bool-cases, inl, inr, length,
}
use cpa_keeper_dashboard.Prelude.Interface.{◌===◌, list_beq_sound, nat_eq}
use cpa_keeper_dashboard.Prelude.OrdMap.{OrdMap, get}
use cpa_keeper_dashboard.Prelude.Text.{Text, text_eq, starts_with}
use cpa_keeper_dashboard.Cache.{
  cache_prefix, FrontendCache, Codec, clear_frontend_cache, cached_lookup, find_entry, use_entry,
  restore_raw,
}
use cpa_keeper_dashboard.Cache.Clear.{others, clear_frontend_cache_lem}
use cpa_keeper_dashboard.Api.{
  Result, value, Fetched, rejects, responds, Client, api_response, api_finish,
}
use cpa_keeper_dashboard.Api.Results.{api_finish-key}
use cpa_keeper_dashboard.Settings.{
  Form, prices, storage, backup, Messages, end_form, Panel, save_prices_finish, render_storage,
  save_storage_settings, restore_backup, Asked, saving_prices, saving_storage, restoring_backup,
  Readers, form_of, end_request,
}

get-others :
    (key : Text) (m : OrdMap Text Text)
    → starts_with cache_prefix key ≡ true
    → get key (others m) ≡ none
unfolding others get
get-others key [] h = refl
get-others key ((k, v) ∷ m) h = elim (Bool-cases (starts_with cache_prefix k)) [
  | inl ours ↦ rw ours (get-others key m h)
  | inr foreign ↦ rw foreign (elim (Bool-cases (k === key)) [
    | inl same ↦
        let e : k ≡ key = list_beq_sound k key same in
        absurd (true_ne_false (sym h ∙ sym (ap (starts_with cache_prefix) e) ∙ foreign))
    | inr other ↦ rw other (get-others key m h)
  ])
]
  where
    true_ne_false : true ≡ false → ⊥
    true_ne_false e = cc

-- Neither the Map nor sessionStorage, where it can be read, holds the key.
abbrev IsAbsent : {D : Type 0} → Text → FrontendCache D → Type 0
IsAbsent key s =
    (get key s.cache ≡ none) × (s.storage.enabled ≡ true → get key s.storage.items ≡ none)

clear-IsAbsent :
    {D : Type 0} (key : Text) (s : FrontendCache D)
    → starts_with cache_prefix key ≡ true
    → IsAbsent key (clear_frontend_cache s)
unfolding get
clear-IsAbsent key s h =
    subst (IsAbsent key) (sym (clear_frontend_cache_lem s))
      (refl, by_enabled s.storage.enabled refl)
  where
    by_enabled :
        (b : Bool)
        → s.storage.enabled ≡ b
        → (if b
            then record { enabled = true; items = others s.storage.items }
            else s.storage).enabled
          ≡ true
        → get key
            (if b
              then record { enabled = true; items = others s.storage.items }
              else s.storage).items
          ≡ none
    by_enabled true e r = get-others key s.storage.items h
    by_enabled false e r = cc

module _ {D : Type 0} (codec : Codec D) where
  find_entry-absent :
      (key : Text) (force : Bool) (seen : ℕ) (s : FrontendCache D)
      → (s.storage.enabled ≡ true → get key s.storage.items ≡ none)
      → find_entry codec key force seen none s ≡ (s, none)
  unfolding find_entry restore_raw
  find_entry-absent key force seen s h = elim (Bool-cases (force || not s.storage.enabled)) [
    | inl skipped ↦ rw skipped refl
    | inr read ↦ rw (read, h (ground arith)) refl
  ]

  cached_lookup-absent :
      (key : Text) (force : Bool) (seen now : ℕ) (s : FrontendCache D)
      → IsAbsent key s
      → (cached_lookup codec key force seen now s).1 ≡ none
  unfolding cached_lookup use_entry
  cached_lookup-absent key force seen now s h =
      rw (h.0) (rw (find_entry-absent key force seen s h.1) refl)

  pub cached_lookup-clear :
      (key : Text) (force : Bool) (seen now : ℕ) (s : FrontendCache D)
      → starts_with cache_prefix key ≡ true
      → (cached_lookup codec key force seen now (clear_frontend_cache s)).1 ≡ none
  cached_lookup-clear key force seen now s h =
      cached_lookup-absent key force seen now (clear_frontend_cache s) (clear-IsAbsent key s h)

abbrev pub is_value : {R : Type 0} → Result R → Bool
is_value (value v) = true
is_value _ = false

abbrev pub is_saved : {P : Type 0} → Form P → Bool
is_saved (prices sent result) = is_value result
is_saved (storage result) = is_value result
is_saved (backup none) = false
is_saved (backup (some result)) = is_value result

-- The numbers of toasts that a form adds.
abbrev pub toast_count : {P : Type 0} → Form P → ℕ
toast_count (backup none) = 0
toast_count _ = 1

-- The status 401 of a response that is in time, where storage can be accessed.
abbrev pub signs_out : {D : Type 0} → Fetched D → Client D → Bool
signs_out (rejects aborted) c = false
signs_out (responds r) c = not r.aborted && r.status == 401 && c.frontend_cache.storage.enabled

api_finish-cache :
    {D : Type 0} (f : Fetched D) (c : Client D)
    → (api_finish f c).0.frontend_cache
      ≡ (if signs_out f c then clear_frontend_cache c.frontend_cache else c.frontend_cache)
api_finish-cache (rejects aborted) c = unfold api_finish api_response in refl
api_finish-cache (responds r) c = (api_finish-key (responds r) c r refl).1

module _ {D P : Type 0} (trim lower : Text → Text) (zeros : P) (m : Messages P) where
  end_form-cache :
      (form : Form P) (p : Panel D P)
      → (end_form trim lower zeros m form p).frontend_cache
        ≡ (if is_saved form then clear_frontend_cache p.frontend_cache else p.frontend_cache)
  unfolding end_form save_prices_finish save_storage_settings restore_backup render_storage
  end_form-cache form p = ground arith

  end_form-toasts :
      (form : Form P) (p : Panel D P)
      → length (end_form trim lower zeros m form p).toasts ≡ length p.toasts + toast_count form
  unfolding end_form save_prices_finish save_storage_settings restore_backup render_storage
  end_form-toasts form p = ground arith

  is_saved-form_of :
      (readers : Readers D P) (asked : Asked P) (result : Result D)
      → is_saved (form_of readers asked result) ≡ is_value result
  is_saved-form_of readers (saving_prices sent) result = ground arith
  is_saved-form_of readers saving_storage result = ground arith
  is_saved-form_of readers restoring_backup result = ground arith

  toast_count-form_of :
      (readers : Readers D P) (asked : Asked P) (result : Result D)
      → toast_count (form_of readers asked result) ≡ 1
  toast_count-form_of readers (saving_prices sent) result = refl
  toast_count-form_of readers saving_storage result = refl
  toast_count-form_of readers restoring_backup result = refl

  -- When the request of a form ends, of the prices, of the settings or of a backup: if it gives a body,
  -- or `api` signs out after a response with the status 401, the next lookup of any key of the cache
  -- gives no answer, so that the data is requested anew; otherwise lookups answer as before. In every
  -- case there is one toast more.
  pub end_request-cached_lookup :
      (codec : Codec D) (readers : Readers D P) (asked : Asked P) (f : Fetched D) (c : Client D)
      (p : Panel D P) (key : Text) (force : Bool) (seen now : ℕ)
      → starts_with cache_prefix key ≡ true
      → ((cached_lookup codec key force seen now
            (end_request trim lower zeros m readers asked f c p).frontend_cache).1
          ≡ (if is_value (api_finish f c).1 || signs_out f c
              then none
              else (cached_lookup codec key force seen now c.frontend_cache).1))
        × (length (end_request trim lower zeros m readers asked f c p).toasts ≡ length p.toasts + 1)
  unfolding end_request
  end_request-cached_lookup codec readers asked f c p key force seen now h =
      let result = (api_finish f c).1 in
      let q = record p { frontend_cache = (api_finish f c).0.frontend_cache } in
      let form = form_of readers asked result in
      (
        ap (λ s. (cached_lookup codec key force seen now s).1)
              (end_form-cache form q
                ∙ ap (λ b. if b then clear_frontend_cache q.frontend_cache else q.frontend_cache)
                    (is_saved-form_of readers asked result)
                ∙ ap (λ s. if is_value result then clear_frontend_cache s else s)
                    (api_finish-cache f c))
            ∙ by_case (is_value result) (signs_out f c),
        end_form-toasts form q
            ∙ ap (λ n. length p.toasts + n) (toast_count-form_of readers asked result),
      )
    where
      by_case :
          (v o : Bool)
          → (cached_lookup codec key force seen now (
              let s = if o then clear_frontend_cache c.frontend_cache else c.frontend_cache in
              if v then clear_frontend_cache s else s)).1
            ≡ (if v || o then none else (cached_lookup codec key force seen now c.frontend_cache).1)
      by_case true true =
          cached_lookup-clear codec key force seen now (clear_frontend_cache c.frontend_cache) h
      by_case true false = cached_lookup-clear codec key force seen now c.frontend_cache h
      by_case false true = cached_lookup-clear codec key force seen now c.frontend_cache h
      by_case false false = refl
