-- ===== src/Prices.antt =====
-- The table of prices (go/dashboard/app.js): `renderPrices`, `getTablePrices`, the import of prices,
-- and `autoFillUnpricedModels`. A row's five prices are one value; what `toLowerCase` and `trim`
-- make of a text are parameters.
pub mod Exporting
pub mod Import
mod ImportTests
pub mod Merge
pub mod Picker
mod PickerTests
pub mod Picking
pub mod Unpriced
mod Tests
use cpa_keeper_dashboard.Prelude.{
  ℕ, Bool, true, false, ◌||◌, not, Option, none, some, List, [], ◌∷◌, ◌++◌, if◌then◌else◌,
}
use cpa_keeper_dashboard.Prelude.OrdMap.{OrdMap, get, put}
use cpa_keeper_dashboard.Prelude.Interface.{◌===◌}
use cpa_keeper_dashboard.Prelude.Text.{Text, text_eq}
use cpa_keeper_dashboard.Session.State.{is_empty}

pub record Price (D : Type 0) : Type 0 where
  pub model : Text
  pub prices : D

pub data ImportMode : Type 0 where
  replace merge : ImportMode

module _ {D : Type 0} (trim : Text → Text) where
  unfoldable pub table_prices : List (Price D) → List (Price D)
  table_prices [] = []
  table_prices (row ∷ rows) =
      let rest = table_prices rows in
      if is_empty (trim row.model)
      then rest
      else record { model = trim row.model; prices = row.prices } ∷ rest

module _ {D : Type 0} (lower trim : Text → Text) (zeros : D) where
  -- The rows of the table after `renderPrices`: an empty row where there are no prices.
  unfoldable pub render_prices : List (Price D) → List (Price D)
  render_prices [] = record { model = []; prices = zeros } ∷ []
  render_prices (p ∷ ps) = p ∷ ps

  -- `items.forEach((item) => map.set(item.model.toLowerCase(), item))`
  unfoldable pub set_prices : List (Price D) → OrdMap Text (Price D) → OrdMap Text (Price D)
  set_prices [] m = m
  set_prices (p ∷ ps) m = set_prices ps (put (lower p.model) p m)

  unfoldable pub values : OrdMap Text (Price D) → List (Price D)
  values [] = []
  values ((k, p) ∷ m) = p ∷ values m

  -- The submit of the import, of what `parseImportedPrices` found, on the rows of the table.
  unfoldable pub import_prices : ImportMode → List (Price D) → List (Price D) → List (Price D)
  import_prices mode [] rows = rows
  import_prices replace (p ∷ ps) rows = render_prices (p ∷ ps)
  import_prices merge (p ∷ ps) rows =
      render_prices (values (set_prices (p ∷ ps) (set_prices (table_prices trim rows) [])))

  unfoldable pub has_model : Text → List (Price D) → Bool
  has_model key [] = false
  has_model key (p ∷ ps) = lower p.model === key || has_model key ps

  unfoldable pub has_name : Text → List Text → Bool
  has_name name [] = false
  has_name name (n ∷ names) = n === name || has_name name names

  -- The names that `autoFillUnpricedModels` adds to `discovered`, in the order of their first use.
  unfoldable pub discover : List (Price D) → List Text → List Text → List Text
  discover existing [] found = found
  discover existing (n ∷ names) found = discover existing names (
      if is_empty (trim n) || has_model (lower (trim n)) existing || has_name (trim n) found
      then found
      else found ++ (trim n ∷ []))

  unfoldable pub unpriced_rows : List Text → List (Price D)
  unpriced_rows [] = []
  unpriced_rows (n ∷ names) = record { model = n; prices = zeros } ∷ unpriced_rows names

  -- `autoFillUnpricedModels`, of the names that the tables of models and events show.
  unfoldable pub auto_fill_unpriced_models : List Text → List (Price D) → List (Price D)
  auto_fill_unpriced_models names rows =
      rows ++ unpriced_rows (discover (table_prices trim rows) names [])
