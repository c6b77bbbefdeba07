-- ===== src/Prices/Import.antt =====
-- `parseImportedPrices` (go/dashboard/app.js): prices out of JSON or out of lines.
use cpa_keeper_dashboard.Prelude.{
  ℕ, Bool, ◌||◌, Option, none, some, List, [], ◌∷◌, if◌then◌else◌, get_or,
}
use cpa_keeper_dashboard.Prelude.Interface.{◌===◌}
use cpa_keeper_dashboard.Prelude.Json.{
  Json, num, str, arr, obj, Items, no_items, item, Members, no_members, member, ◌>>=◌, Numbers, own,
  item_at, first_truthy, first_given, string_of, number_of,
}
use cpa_keeper_dashboard.Prelude.Text.{
  Text, codes, starts_with, trim, includes_unit, split_on, split_white, split_lines, text_eq,
}
use cpa_keeper_dashboard.Session.State.{is_empty}
use cpa_keeper_dashboard.Prices.{Price}

pub record Rates (N : Type 0) : Type 0 where
  pub input_per_million : N
  pub output_per_million : N
  pub cache_read_per_million : N
  pub cache_write_per_million : N
  pub reasoning_per_million : N

-- One more price, where there is one.
abbrev pub keep :
    {N : Type 0} → Option (Price (Rates N)) → List (Price (Rates N)) → List (Price (Rates N))
keep none ps = ps
keep (some p) ps = p ∷ ps

module _ {N : Type 0} (k : Numbers N) where
  -- `Number(v.a ?? v.b ?? … ?? 0)`
  abbrev pub given_number : List (Option (Json N)) → Option N
  given_number vs = number_of k (first_given k vs (num k.zero))

  -- The five prices of an object.
  unfoldable pub object_rates : Json N → Option (Rates N)
  object_rates v = do
    input ← given_number (
        own (codes "input_per_million") v
        ∷ own (codes "input") v
        ∷ own (codes "in") v
        ∷ own (codes "prompt") v
        ∷ [])
    output ← given_number (
        own (codes "output_per_million") v
        ∷ own (codes "output") v
        ∷ own (codes "out") v
        ∷ own (codes "completion") v
        ∷ [])
    cache_read ← given_number (
        own (codes "cache_read_per_million") v
        ∷ own (codes "cache_read") v
        ∷ own (codes "cached") v
        ∷ [])
    cache_write ← given_number (
        own (codes "cache_write_per_million") v
        ∷ own (codes "cache_write") v
        ∷ own (codes "cache_creation") v
        ∷ [])
    reasoning ← given_number (
        own (codes "reasoning_per_million") v
        ∷ own (codes "reasoning") v
        ∷ own (codes "thinking") v
        ∷ [])
    some (record {
      input_per_million = input;
      output_per_million = output;
      cache_read_per_million = cache_read;
      cache_write_per_million = cache_write;
      reasoning_per_million = reasoning;
    })

  -- `Number(values[i] || 0)`
  abbrev pub item_number : Items N → ℕ → Option N
  item_number vs i = number_of k (first_truthy k (item_at vs i ∷ []) (num k.zero))

  -- The five prices of an array.
  unfoldable pub array_rates : Items N → Option (Rates N)
  array_rates vs = do
    input ← item_number vs 0
    output ← item_number vs 1
    cache_read ← item_number vs 2
    cache_write ← item_number vs 3
    reasoning ← item_number vs 4
    some (record {
      input_per_million = input;
      output_per_million = output;
      cache_read_per_million = cache_read;
      cache_write_per_million = cache_write;
      reasoning_per_million = reasoning;
    })

  -- The five prices that follow from one number.
  abbrev pub number_rates : N → Rates N
  number_rates n = record {
    input_per_million = n;
    output_per_million = k.times n k.three;
    cache_read_per_million = k.times n k.half;
    cache_write_per_million = n;
    reasoning_per_million = k.zero;
  }

  abbrev pub priced : Text → Rates N → Option (Price (Rates N))
  priced model rates = some (record { model = model; prices = rates })

  -- An element of an array of prices: `some none` where it is dropped, `none` where it throws.
  abbrev pub named_item : Text → Json N → Option (Option (Price (Rates N)))
  named_item model v =
      if is_empty model then some none else (do rates ← object_rates v; some (priced model rates))

  -- `String(v.model || v.id || v.name || '').trim()`
  abbrev pub item_model : Json N → Option Text
  item_model v = do
    model ← string_of k (
        first_truthy k (own (codes "model") v ∷ own (codes "id") v ∷ own (codes "name") v ∷ [])
          (str []))
    some (trim model)

  unfoldable pub import_item : Json N → Option (Option (Price (Rates N)))
  import_item (arr vs) = do model ← item_model (arr vs); named_item model (arr vs)
  import_item (obj ms) = do model ← item_model (obj ms); named_item model (obj ms)
  import_item _ = some none

  -- An entry of an object of prices.
  abbrev pub entry_rates : Text → Json N → Option (Option (Price (Rates N)))
  entry_rates model (num n) = some (priced model (number_rates n))
  entry_rates model (arr vs) = do rates ← array_rates vs; some (priced model rates)
  entry_rates model (obj ms) = do rates ← object_rates (obj ms); some (priced model rates)
  entry_rates model _ = some none

  unfoldable pub import_entry : Text → Json N → Option (Option (Price (Rates N)))
  import_entry name v = if is_empty (trim name) then some none else entry_rates (trim name) v

  unfoldable pub import_entries : Members N → Option (List (Price (Rates N)))
  import_entries no_members = some []
  import_entries (member name v ms) = do
    p ← import_entry name v
    ps ← import_entries ms
    some (keep p ps)

  unfoldable pub import_items : Items N → Option (List (Price (Rates N)))
  import_items no_items = some []
  import_items (item v vs) = do p ← import_item v; ps ← import_items vs; some (keep p ps)

  -- The `try` block, of what `JSON.parse` gave: `none` where the text is read line by line.
  unfoldable pub import_json : Option (Json N) → Option (List (Price (Rates N)))
  import_json (some (arr vs)) = import_items vs
  import_json (some (obj ms)) = import_entries ms
  import_json _ = none

  -- `Number(part || 0)`
  abbrev pub part_number : Text → N
  part_number [] = k.zero
  part_number (c ∷ s) = k.of_text (c ∷ s)

  abbrev pub line_parts : Text → List Text
  line_parts line =
      if includes_unit 0x09 line
      then split_on 0x09 line
      else if includes_unit b',' line
      then split_on b',' line
      else split_white line

  abbrev pub is_comment : Text → Bool
  is_comment line = starts_with (codes "#") line || starts_with (codes "//") line

  -- The heading of the column of models.
  abbrev pub is_heading : (Text → Text) → Text → Bool
  is_heading lower model =
      is_empty model || lower model === codes "model" || model === (0x6a21 ∷ 0x578b ∷ [])

  abbrev pub parts_price : List Text → Price (Rates N)
  parts_price parts = record {
    model = trim (get_or parts 0 []);
    prices = record {
      input_per_million = part_number (get_or parts 1 []);
      output_per_million = part_number (get_or parts 2 []);
      cache_read_per_million = part_number (get_or parts 3 []);
      cache_write_per_million = part_number (get_or parts 4 []);
      reasoning_per_million = part_number (get_or parts 5 []);
    };
  }

  module _ (lower : Text → Text) where
    -- One of the trimmed lines.
    unfoldable pub import_line : Text → Option (Price (Rates N))
    import_line line =
        if is_empty line
          || is_comment line
          || is_heading lower (trim (get_or (line_parts line) 0 []))
        then none
        else some (parts_price (line_parts line))

    unfoldable pub import_lines : List Text → List (Price (Rates N))
    import_lines [] = []
    import_lines (line ∷ lines) = keep (import_line (trim line)) (import_lines lines)

    abbrev pub or_lines : Text → Option (List (Price (Rates N))) → List (Price (Rates N))
    or_lines text none = import_lines (split_lines text)
    or_lines text (some ps) = ps

    abbrev pub is_json : Text → Bool
    is_json text = starts_with (codes "[") text || starts_with (codes "{") text

    -- `parseImportedPrices`; `parse` is `JSON.parse`, `none` where it throws.
    unfoldable pub parse_imported_prices : (Text → Option (Json N)) → Text → List (Price (Rates N))
    parse_imported_prices parse raw =
        let text = trim raw in
        if is_empty text
        then []
        else or_lines text (if is_json text then import_json (parse text) else none)
