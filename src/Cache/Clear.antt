-- ===== src/Cache/Clear.antt =====
-- `clearFrontendCache`: the loop over sessionStorage, which removes while it counts down.
use cpa_keeper_dashboard.Prelude.{
  ℕ, zero, suc, ◌≡◌, refl, Bool, true, false, none, some, [], ◌∷◌, arith, length, drop, get_elem?,
  if◌then◌else◌, Option-cases, inl, inr, Bool-cases, sym, ◌∙◌,
}
use cpa_keeper_dashboard.Prelude.Interface.{◌===◌, list_beq_iff, list_beq_sound, nat_eq}
use cpa_keeper_dashboard.Prelude.OrdMap.{OrdMap, delete}
use cpa_keeper_dashboard.Prelude.Text.{Text, text_eq, starts_with}
use cpa_keeper_dashboard.Cache.{
  cache_prefix, FrontendCache, clear_key, clear_storage, clear_frontend_cache,
}

abbrev pub is_ours : Text × Text → Bool
is_ours (key, value) = starts_with cache_prefix key

-- What does not belong to the cache.
unfoldable pub others : OrdMap Text Text → OrdMap Text Text
others [] = []
others ((key, value) ∷ m) =
    let rest = others m in if starts_with cache_prefix key then rest else (key, value) ∷ rest

abbrev NoneOurs : OrdMap Text Text → Type 0
NoneOurs [] = Unit
NoneOurs (kv ∷ m) = (is_ours kv ≡ false) × NoneOurs m

-- The rounds so far have cleared every place from the index on.
abbrev IsClearFrom : ℕ → OrdMap Text Text → Type 0
IsClearFrom n m = NoneOurs (drop n m)

drop-clear : (n : ℕ) (m : OrdMap Text Text) → IsClearFrom n m → IsClearFrom (suc n) m
drop-clear zero [] h = h
drop-clear zero (x ∷ m) h = h.1
drop-clear (suc n) [] h = h
drop-clear (suc n) (x ∷ m) h = drop-clear n m h

delete-NoneOurs : (k : Text) (m : OrdMap Text Text) → NoneOurs m → NoneOurs (delete k m)
unfolding delete
delete-NoneOurs k [] h = tt
delete-NoneOurs k ((j, w) ∷ m) h = ground (arith, delete-NoneOurs k m h.1)

-- Removing keys moves later places down, and never a place that is not clear past the index.
delete-IsClearFrom :
    (k : Text) (n : ℕ) (m : OrdMap Text Text) → IsClearFrom n m → IsClearFrom n (delete k m)
unfolding delete
delete-IsClearFrom k zero m h = delete-NoneOurs k m h
delete-IsClearFrom k (suc n) [] h = tt
delete-IsClearFrom k (suc n) ((j, w) ∷ m) h = elim (Bool-cases (j === k)) [
  | inl same ↦ rw same (drop-clear n (delete k m) (delete-IsClearFrom k n m h))
  | inr other ↦ rw other (delete-IsClearFrom k n m h)
]

delete_at-IsClearFrom :
    (k v : Text) (n : ℕ) (m : OrdMap Text Text)
    → get_elem? m n ≡ some (k, v)
    → IsClearFrom (suc n) m
    → IsClearFrom n (delete k m)
unfolding delete
delete_at-IsClearFrom k v n [] e h = cc
delete_at-IsClearFrom k v zero ((j, w) ∷ m) e h =
    let same : j ≡ k = cc in rw ((list_beq_iff j k).1 same) (delete-NoneOurs k m h)
delete_at-IsClearFrom k v (suc n) ((j, w) ∷ m) e h = elim (Bool-cases (j === k)) [
  | inl same ↦ rw same (drop-clear n (delete k m) (delete_at-IsClearFrom k v n m e h))
  | inr other ↦ rw other (delete_at-IsClearFrom k v n m e h)
]

others-delete :
    (k : Text) (m : OrdMap Text Text)
    → starts_with cache_prefix k ≡ true
    → others (delete k m) ≡ others m
unfolding others delete
others-delete k [] h = refl
others-delete k ((j, w) ∷ m) h = elim (Bool-cases (j === k)) [
  | inl same ↦
      let ours : starts_with cache_prefix j ≡ true = rw (list_beq_sound j k same) h in
      rw same (rw ours (others-delete k m h))
  | inr other ↦ rw other (rw (others-delete k m h) refl)
]

others_of_NoneOurs : (m : OrdMap Text Text) → NoneOurs m → others m ≡ m
unfolding others
others_of_NoneOurs [] h = refl
others_of_NoneOurs ((j, w) ∷ m) h = rw (h.0, others_of_NoneOurs m h.1)

past_end-IsClearFrom : (n : ℕ) (m : OrdMap Text Text) → get_elem? m n ≡ none → IsClearFrom n m
past_end-IsClearFrom zero [] e = tt
past_end-IsClearFrom (suc n) [] e = tt
past_end-IsClearFrom zero (x ∷ m) e = absurd (ground arith)
past_end-IsClearFrom (suc n) (x ∷ m) e = past_end-IsClearFrom n m e

foreign-IsClearFrom :
    (n : ℕ) (m : OrdMap Text Text) (kv : Text × Text)
    → get_elem? m n ≡ some kv
    → is_ours kv ≡ false
    → IsClearFrom (suc n) m
    → IsClearFrom n m
foreign-IsClearFrom n [] kv e f h = absurd (ground arith)
foreign-IsClearFrom zero (x ∷ m) kv e f h = let same : x ≡ kv = cc in (rw same f, h)
foreign-IsClearFrom (suc n) (x ∷ m) kv e f h = foreign-IsClearFrom n m kv e f h

clear_key-IsClearFrom :
    (n : ℕ) (m : OrdMap Text Text)
    → IsClearFrom (suc n) m
    → IsClearFrom n (clear_key (get_elem? m n) m)
      × (others (clear_key (get_elem? m n) m) ≡ others m)
unfolding clear_key
clear_key-IsClearFrom n m h = elim (Option-cases (get_elem? m n)) [
  | inl past ↦ rw past (past_end-IsClearFrom n m past, refl)
  | inr ((k, v), here) ↦ elim (Bool-cases (starts_with cache_prefix k)) [
    | inl ours ↦ rw here (rw ours (delete_at-IsClearFrom k v n m here h, others-delete k m ours))
    | inr foreign ↦ rw here (rw foreign (foreign-IsClearFrom n m (k, v) here foreign h, refl))
  ]
]

clear_storage_lem : (n : ℕ) (m : OrdMap Text Text) → IsClearFrom n m → clear_storage n m ≡ others m
unfolding clear_storage
clear_storage_lem zero m h = sym (others_of_NoneOurs m h)
clear_storage_lem (suc n) m h =
    let (clear, kept) = clear_key-IsClearFrom n m h in
    clear_storage_lem n (clear_key (get_elem? m n) m) clear ∙ kept

drop-length : (m : OrdMap Text Text) → IsClearFrom (length m) m
drop-length [] = tt
drop-length (x ∷ m) = drop-length m

-- Clearing the cache empties the Map, resets the deadline, and leaves in sessionStorage exactly
-- the items of other programs, in their order; where sessionStorage is disabled it stays as it is.
pub clear_frontend_cache_lem :
    {D : Type 0} (s : FrontendCache D)
    → clear_frontend_cache s ≡ record {
      cache = [];
      refresh_deadline = 0;
      storage =
          if s.storage.enabled
          then record { enabled = true; items = others s.storage.items }
          else s.storage;
    }
unfolding clear_frontend_cache
clear_frontend_cache_lem s =
    rw (clear_storage_lem (length s.storage.items) s.storage.items (drop-length s.storage.items))
      refl
