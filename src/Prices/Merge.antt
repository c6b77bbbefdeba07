-- ===== src/Prices/Merge.antt =====
-- What an import leaves in the table.
use cpa_keeper_dashboard.Prelude.{
  ◌≡◌, refl, Bool, true, false, Option, none, some, List, [], ◌∷◌, if◌then◌else◌, arith, Bool-cases,
  inl, inr, ◌∙◌, ap,
}
use cpa_keeper_dashboard.Prelude.OrdMap.{
  OrdMap, get, put, get-put, HasDistinctKeys, put-HasDistinctKeys,
}
use cpa_keeper_dashboard.Prelude.Interface.{◌===◌}
use cpa_keeper_dashboard.Prelude.Text.{Text, text_eq}
use cpa_keeper_dashboard.Prices.{
  Price, merge, render_prices, table_prices, set_prices, values, import_prices,
}

module _ {D : Type 0} (lower trim : Text → Text) (zeros : D) where
  -- The first price of a model in a list, and the last one, or else what is given.
  abbrev pub first_price : Text → List (Price D) → Option (Price D)
  first_price key [] = none
  first_price key (p ∷ ps) = if lower p.model === key then some p else first_price key ps

  abbrev pub last_price : Text → List (Price D) → Option (Price D) → Option (Price D)
  last_price key [] before = before
  last_price key (p ∷ ps) before =
      last_price key ps (if lower p.model === key then some p else before)

  -- No two rows are of one model.
  abbrev pub HasDistinctModels : List (Price D) → Type 0
  HasDistinctModels [] = Unit
  HasDistinctModels (p ∷ ps) = (first_price (lower p.model) ps ≡ none) × HasDistinctModels ps

  IsKeyed : OrdMap Text (Price D) → Type 0
  IsKeyed [] = Unit
  IsKeyed ((k, p) ∷ m) = (lower p.model ≡ k) × IsKeyed m

  put-IsKeyed :
      (p : Price D) (m : OrdMap Text (Price D)) → IsKeyed m → IsKeyed (put (lower p.model) p m)
  unfolding IsKeyed put
  put-IsKeyed p [] h = (refl, tt)
  put-IsKeyed p ((k, q) ∷ m) (e, h) = elim (Bool-cases (k === lower p.model)) [
    | inl same ↦ rw same (refl, h)
    | inr other ↦ rw other (e, put-IsKeyed p m h)
  ]

  set-IsKeyed :
      (ps : List (Price D)) (m : OrdMap Text (Price D))
      → IsKeyed m
      → HasDistinctKeys m
      → IsKeyed (set_prices lower trim zeros ps m)
        × HasDistinctKeys (set_prices lower trim zeros ps m)
  unfolding set_prices
  set-IsKeyed [] m h d = (h, d)
  set-IsKeyed (p ∷ ps) m h d =
      set-IsKeyed ps (put (lower p.model) p m) (put-IsKeyed p m h)
        (put-HasDistinctKeys (lower p.model) p m d)

  get-set_prices :
      (key : Text) (ps : List (Price D)) (m : OrdMap Text (Price D))
      → get key (set_prices lower trim zeros ps m) ≡ last_price key ps (get key m)
  unfolding set_prices
  get-set_prices key [] m = refl
  get-set_prices key (p ∷ ps) m =
      get-set_prices key ps (put (lower p.model) p m) ∙ (rw (get-put (lower p.model) key p m) refl)

  first-values :
      (key : Text) (m : OrdMap Text (Price D))
      → IsKeyed m
      → first_price key (values lower trim zeros m) ≡ get key m
  unfolding values IsKeyed get
  first-values key [] h = refl
  first-values key ((k, p) ∷ m) (e, h) = rw (e, first-values key m h) refl

  values-HasDistinctModels :
      (m : OrdMap Text (Price D))
      → IsKeyed m
      → HasDistinctKeys m
      → HasDistinctModels (values lower trim zeros m)
  unfolding values IsKeyed
  values-HasDistinctModels [] h d = tt
  values-HasDistinctModels ((k, p) ∷ m) (e, h) (a, d) =
      ((rw e (first-values k m h ∙ a)), values-HasDistinctModels m h d)

  is_nil : {A : Type 0} → List A → Bool
  is_nil [] = true
  is_nil (_ ∷ _) = false

  render_filled : (ps : List (Price D)) → is_nil ps ≡ false → render_prices lower trim zeros ps ≡ ps
  unfolding render_prices is_nil
  render_filled [] h = absurd (ground arith)
  render_filled (p ∷ ps) h = refl

  put-filled : (k : Text) (p : Price D) (m : OrdMap Text (Price D)) → is_nil (put k p m) ≡ false
  unfolding put is_nil
  put-filled k p [] = refl
  put-filled k p ((j, q) ∷ m) = ground arith

  set-filled :
      (ps : List (Price D)) (m : OrdMap Text (Price D))
      → is_nil m ≡ false
      → is_nil (values lower trim zeros (set_prices lower trim zeros ps m)) ≡ false
  unfolding set_prices values is_nil
  set-filled [] [] h = h
  set-filled [] ((k, p) ∷ m) h = refl
  set-filled (p ∷ ps) m h = set-filled ps (put (lower p.model) p m) (put-filled (lower p.model) p m)

  -- An import that merges leaves one row for each model, whatever case its name is written in: the
  -- last one imported, and for a model that was not imported the last one that the table had.
  pub import_prices-merge :
      (p : Price D) (ps rows : List (Price D)) (key : Text)
      → (first_price key (import_prices lower trim zeros merge (p ∷ ps) rows)
          ≡ last_price key (p ∷ ps) (last_price key (table_prices trim rows) none))
        × HasDistinctModels (import_prices lower trim zeros merge (p ∷ ps) rows)
  unfolding import_prices IsKeyed
  import_prices-merge p ps rows key =
      let before = set_prices lower trim zeros (table_prices trim rows) [] in
      let (k, d) = set-IsKeyed (table_prices trim rows) [] tt tt in
      let (k', d') = set-IsKeyed (p ∷ ps) before k d in
      let after = set_prices lower trim zeros (p ∷ ps) before in
      let shown : render_prices lower trim zeros (values lower trim zeros after)
          ≡ values lower trim zeros after =
        render_filled _ (
          unfold set_prices in
          set-filled ps (put (lower p.model) p before) (put-filled (lower p.model) p before)) in
      rw shown (
        first-values key after k'
            ∙ (get-set_prices key (p ∷ ps) before
                ∙ ap (last_price key (p ∷ ps))
                    (unfold get in get-set_prices key (table_prices trim rows) [])),
        values-HasDistinctModels after k' d',
      )
