-- ===== src/Prices/Tests.antt =====
-- The import of concrete prices, and the theorem at them; here no name has capitals or blanks.
use cpa_keeper_dashboard.Prelude.{ℕ, ◌≡◌, none, List, [], ◌∷◌}
use cpa_keeper_dashboard.Prelude.Text.{Text, codes}
use cpa_keeper_dashboard.Prices.{Price, merge, table_prices, import_prices}
use cpa_keeper_dashboard.Prices.Merge.{
  first_price, last_price, HasDistinctModels, import_prices-merge,
}

abbrev plain : Text → Text
plain t = t

abbrev gpt : Price ℕ
gpt = record { model = codes "gpt"; prices = 5 }

abbrev old_rows : List (Price ℕ)
old_rows =
    record { model = codes "claude"; prices = 3 }
    ∷ record { model = codes "gpt"; prices = 4 }
    ∷ record { model = []; prices = 0 }
    ∷ []

import_prices-merge_example :
    (first_price plain plain 0 (codes "gpt") (import_prices plain plain 0 merge (gpt ∷ []) old_rows)
      ≡ last_price plain plain 0
          (codes "gpt")
          (gpt ∷ [])
          (last_price plain plain 0 (codes "gpt") (table_prices plain old_rows) none))
    × HasDistinctModels plain plain 0 (import_prices plain plain 0 merge (gpt ∷ []) old_rows)
import_prices-merge_example = import_prices-merge plain plain 0 gpt [] old_rows (codes "gpt")
