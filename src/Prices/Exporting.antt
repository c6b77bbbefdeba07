-- ===== src/Prices/Exporting.antt =====
-- What `exportPricesJSON` (go/dashboard/app.js) writes, and its import.
use cpa_keeper_dashboard.Prelude.{
  ◌≡◌, refl, true, false, Option, none, some, List, [], ◌∷◌, arith, Bool-cases, inl, inr,
}
use cpa_keeper_dashboard.Prelude.Json.{
  Json, num, str, arr, obj, Items, no_items, item, no_members, member, Numbers, string_of,
  number_of, first_truthy,
}
use cpa_keeper_dashboard.Prelude.Text.{Text, codes, trim, starts_with}
use cpa_keeper_dashboard.Prelude.Trimming.{trim_idem}
use cpa_keeper_dashboard.Session.State.{is_empty}
use cpa_keeper_dashboard.Prices.{Price, table_prices}
use cpa_keeper_dashboard.Prices.Import.{
  Rates, object_rates, import_item, import_items, import_json, parse_imported_prices,
}

-- A model as `getTablePrices` gives it.
abbrev IsNamed : Text → Type 0
IsNamed m = (trim m ≡ m) × (is_empty m ≡ false)

bracket-not_empty : (text : Text) → starts_with (codes "[") text ≡ true → is_empty text ≡ false
bracket-not_empty [] h = absurd (ground arith)
bracket-not_empty (c ∷ text) h = refl

module _ {N : Type 0} where
  abbrev pub price_json : Price (Rates N) → Json N
  price_json p = obj (
      member (codes "model") (str p.model) (
        member (codes "input_per_million") (num p.prices.input_per_million) (
          member (codes "output_per_million") (num p.prices.output_per_million) (
            member (codes "cache_read_per_million") (num p.prices.cache_read_per_million) (
              member (codes "cache_write_per_million") (num p.prices.cache_write_per_million) (
                member (codes "reasoning_per_million") (num p.prices.reasoning_per_million)
                  no_members))))))

  abbrev pub price_items : List (Price (Rates N)) → Items N
  price_items [] = no_items
  price_items (p ∷ ps) = item (price_json p) (price_items ps)

  -- The value of which `exportPricesJSON` writes the text.
  unfoldable pub export_json : List (Price (Rates N)) → Json N
  export_json rows = arr (price_items (table_prices trim rows))

  abbrev AllNamed : List (Price (Rates N)) → Type 0
  AllNamed [] = Unit
  AllNamed (p ∷ ps) = IsNamed p.model × AllNamed ps

  table_prices-AllNamed : (rows : List (Price (Rates N))) → AllNamed (table_prices trim rows)
  unfolding table_prices
  table_prices-AllNamed [] = tt
  table_prices-AllNamed (p ∷ ps) = elim (Bool-cases (is_empty (trim p.model))) [
    | inl gone ↦ rw gone (table_prices-AllNamed ps)
    | inr here ↦ rw here ((trim_idem p.model, here), table_prices-AllNamed ps)
  ]

  module _ (k : Numbers N) where
    first_truthy-str :
        (m : Text) (vs : List (Option (Json N))) (last : Json N)
        → is_empty m ≡ false
        → first_truthy k (some (str m) ∷ vs) last ≡ str m
    first_truthy-str [] vs last h = absurd (ground arith)
    first_truthy-str (c ∷ m) vs last h = refl

    import-price_json :
        (p : Price (Rates N)) → IsNamed p.model → import_item k (price_json p) ≡ some (some p)
    unfolding import_item string_of object_rates number_of
    import-price_json p (t, n) =
        rw (first_truthy-str p.model (none ∷ none ∷ []) (str []) n) (rw t (rw n refl))

    import-price_items :
        (ps : List (Price (Rates N))) → AllNamed ps → import_items k (price_items ps) ≡ some ps
    unfolding import_items
    import-price_items [] h = refl
    import-price_items (p ∷ ps) (n, h) =
        rw (import-price_json p n) (rw (import-price_items ps h) refl)

    import-export_json :
        (rows : List (Price (Rates N)))
        → import_json k (some (export_json rows)) ≡ some (table_prices trim rows)
    unfolding import_json export_json
    import-export_json rows =
        import-price_items (table_prices trim rows) (table_prices-AllNamed rows)

    -- Exported prices are imported again as they stood in the table, if `JSON.parse` undoes
    -- `JSON.stringify` on them, and the text of an array begins with a bracket.
    pub parse_imported_prices-export_json :
        (lower : Text → Text) (stringify : Json N → Text) (parse : Text → Option (Json N))
        (rows : List (Price (Rates N)))
        → starts_with (codes "[") (trim (stringify (export_json rows))) ≡ true
        → parse (trim (stringify (export_json rows))) ≡ some (export_json rows)
        → parse_imported_prices k lower parse (stringify (export_json rows))
          ≡ table_prices trim rows
    unfolding parse_imported_prices
    parse_imported_prices-export_json lower stringify parse rows bracket parsed =
        rw (bracket-not_empty _ bracket)
          (rw bracket (rw parsed (rw (import-export_json rows) refl)))
