-- ===== src/Prices/Unpriced.antt =====
-- What `autoFillUnpricedModels` adds.
use cpa_keeper_dashboard.Prelude.{◌≡◌, refl, Bool, true, false, ◌||◌, List, [], ◌∷◌, ◌++◌, arith}
use cpa_keeper_dashboard.Prelude.Interface.{◌===◌, beq_refl}
use cpa_keeper_dashboard.Prelude.Text.{Text, text_eq}
use cpa_keeper_dashboard.Session.State.{is_empty}
use cpa_keeper_dashboard.Prices.{
  Price, table_prices, has_model, has_name, discover, unpriced_rows, auto_fill_unpriced_models,
}

module _ {D : Type 0} (lower trim : Text → Text) (zeros : D) where
  -- A list of rows has one with exactly this name.
  abbrev pub has_row : Text → List (Price D) → Bool
  has_row name [] = false
  has_row name (p ∷ ps) = p.model === name || has_row name ps

  abbrev shown : Text → List Text → Bool
  shown = has_name lower trim zeros

  abbrev found_in : List (Price D) → List Text → List Text → List Text
  found_in = discover lower trim zeros

  name-append :
      (name n : Text) (found : List Text)
      → shown name (found ++ (n ∷ [])) ≡ (shown name found || n === name)
  unfolding has_name
  name-append name n [] = ground arith
  name-append name n (m ∷ found) = ground (arith, name-append name n found)

  found-kept :
      (existing : List (Price D)) (name : Text) (names found : List Text)
      → shown name found ≡ true
      → shown name (found_in existing names found) ≡ true
  unfolding discover
  found-kept existing name [] found h = h
  found-kept existing name (n ∷ names) found h =
      found-kept existing name names _ (ground (arith, name-append name (trim n) found))

  found-new :
      (existing : List (Price D)) (n : Text) (names later found : List Text)
      → is_empty (trim n) ≡ false
      → has_model lower trim zeros (lower (trim n)) existing ≡ false
      → shown (trim n) (found_in existing (names ++ (n ∷ later)) found) ≡ true
  unfolding discover
  found-new existing n [] later found v h =
      found-kept existing (trim n) later _
        (ground (arith, name-append (trim n) (trim n) found, beq_refl (trim n)))
  found-new existing n (m ∷ names) later found v h = found-new existing n names later _ v h

  row-unpriced :
      (name : Text) (names : List Text)
      → has_row name (unpriced_rows lower trim zeros names) ≡ shown name names
  unfolding unpriced_rows has_name
  row-unpriced name [] = refl
  row-unpriced name (n ∷ names) = ground (arith, row-unpriced name names)

  row-append :
      (name : Text) (ps qs : List (Price D))
      → has_row name qs ≡ true
      → has_row name (ps ++ qs) ≡ true
  row-append name [] qs h = h
  row-append name (p ∷ ps) qs h = ground (arith, row-append name ps qs h)

  -- A name that the tables of models and events show, which is not blank and of no model in the
  -- price table, has a row of its own there afterwards.
  pub auto_fill_unpriced_models-has_row :
      (before later : List Text) (n : Text) (rows : List (Price D))
      → is_empty (trim n) ≡ false
      → has_model lower trim zeros (lower (trim n)) (table_prices trim rows) ≡ false
      → has_row (trim n) (auto_fill_unpriced_models lower trim zeros (before ++ (n ∷ later)) rows)
        ≡ true
  unfolding auto_fill_unpriced_models
  auto_fill_unpriced_models-has_row before later n rows v h =
      row-append (trim n) rows _
        (rw row-unpriced (found-new (table_prices trim rows) n before later [] v h))
