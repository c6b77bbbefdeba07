-- ===== src/Prelude/OrdMap.antt =====
-- JavaScript's Map (and the browser's Storage) as an association list in insertion order: `set` on
-- a key that is present keeps its place.
use cpa_keeper_dashboard.Prelude.{
  ◌+◌, ◌≤◌, ◌≡◌, refl, Option, none, some, List, [], ◌∷◌, arith, if◌then◌else◌, length,
}
use cpa_keeper_dashboard.Prelude.Interface.{Eq, ◌===◌, beq_refl}

abbrev pub OrdMap : Type 0 → Type 0 → Type 0
OrdMap K V = List (K × V)

module _ {K V : Type 0} ⦃e : Eq K⦄ where
  unfoldable pub get : K → OrdMap K V → Option V
  get k [] = none
  get k ((j, v) ∷ m) = if j === k then some v else get k m

  unfoldable pub put : K → V → OrdMap K V → OrdMap K V
  put k v [] = (k, v) ∷ []
  put k v ((j, w) ∷ m) = if j === k then (k, v) ∷ m else (j, w) ∷ put k v m

  unfoldable pub delete : K → OrdMap K V → OrdMap K V
  delete k [] = []
  delete k ((j, w) ∷ m) = let rest = delete k m in if j === k then rest else (j, w) ∷ rest

  pub get-put :
      (k j : K) (v : V) (m : OrdMap K V) → get j (put k v m) ≡ (if k === j then some v else get j m)
  unfolding get put
  get-put k j v [] = refl
  get-put k j v ((i, w) ∷ m) =
      ground (arith, e.beq_iff k j, e.beq_iff i k, e.beq_iff i j, get-put k j v m)

  pub get-delete :
      (k j : K) (m : OrdMap K V) → get j (delete k m) ≡ (if k === j then none else get j m)
  unfolding get delete
  get-delete k j [] = ground arith
  get-delete k j ((i, w) ∷ m) =
      ground (arith, e.beq_iff k j, e.beq_iff i k, e.beq_iff i j, get-delete k j m)

  pub length-put : (k : K) (v : V) (m : OrdMap K V) → length (put k v m) ≤ length m + 1
  unfolding put
  length-put k v [] = ground arith
  length-put k v ((i, w) ∷ m) = ground (arith, length-put k v m)

  pub length-delete : (k : K) (m : OrdMap K V) → length (delete k m) ≤ length m
  unfolding delete
  length-delete k [] = ground arith
  length-delete k ((i, w) ∷ m) = ground (arith, length-delete k m)

  -- Each key stands once, as in a Map.
  abbrev pub HasDistinctKeys : OrdMap K V → Type 0
  HasDistinctKeys [] = Unit
  HasDistinctKeys ((k, v) ∷ m) = (get k m ≡ none) × HasDistinctKeys m

  pub delete_absent : (k : K) (m : OrdMap K V) → get k m ≡ none → delete k m ≡ m
  unfolding get delete
  delete_absent k [] h = refl
  delete_absent k ((i, w) ∷ m) h = ground (arith, delete_absent k m)

  pub delete_head : (k : K) (v : V) (m : OrdMap K V) → get k m ≡ none → delete k ((k, v) ∷ m) ≡ m
  unfolding delete
  delete_head k v m h = ground (arith, beq_refl k, delete_absent k m h)

  pub put-HasDistinctKeys :
      (k : K) (v : V) (m : OrdMap K V) → HasDistinctKeys m → HasDistinctKeys (put k v m)
  unfolding put
  put-HasDistinctKeys k v [] h = (unfold get in refl, tt)
  put-HasDistinctKeys k v ((i, w) ∷ m) h =
      ground (arith, e.beq_iff i k, e.beq_iff k i, get-put k i v m, put-HasDistinctKeys k v m)

  pub delete-HasDistinctKeys :
      (k : K) (m : OrdMap K V) → HasDistinctKeys m → HasDistinctKeys (delete k m)
  unfolding delete
  delete-HasDistinctKeys k [] h = tt
  delete-HasDistinctKeys k ((i, w) ∷ m) h =
      ground (arith, get-delete k i m, delete-HasDistinctKeys k m)
