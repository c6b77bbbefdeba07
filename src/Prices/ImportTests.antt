-- ===== src/Prices/ImportTests.antt =====
-- Runs of the import of prices.
use cpa_keeper_dashboard.Prelude.{
  ℕ, ◌+◌, ◌-◌, ◌*◌, ◌/◌, ◌≡◌, refl, Option, none, some, List, [], ◌∷◌, ◌==◌, if◌then◌else◌,
}
use cpa_keeper_dashboard.Prelude.Interface.{◌===◌}
use cpa_keeper_dashboard.Prelude.Json.{
  Json, null, num, str, arr, obj, no_items, item, no_members, member, Numbers, string_of, number_of,
}
use cpa_keeper_dashboard.Prelude.Text.{
  Text, codes, text_eq, trim, trim_start, trim_end, split_lines, split_on, split_white,
  drop_returns, drop_return, includes_unit,
}
use cpa_keeper_dashboard.Prices.{Price, table_prices}
use cpa_keeper_dashboard.Prices.Import.{
  Rates, import_json, import_items, import_item, import_entries, import_entry, array_rates,
  parse_imported_prices, import_lines, import_line,
}
use cpa_keeper_dashboard.Prices.Exporting.{export_json, parse_imported_prices-export_json}

abbrev decimal : ℕ → Text → ℕ
decimal n [] = n
decimal n (c ∷ t) = decimal (10 * n + (c - b'0')) t

-- Numbers that are whole halves.
abbrev halves : Numbers ℕ
halves = record {
  zero = 0;
  one = 2;
  half = 1;
  three = 6;
  times = λ a b. a * b / 2;
  is_falsy = λ n. n == 0;
  of_text = λ t. 2 * decimal 0 t;
  to_text = λ n. [];
}

abbrev same : Text → Text
same t = t

abbrev rates : (a b c d e : ℕ) → Rates ℕ
rates a b c d e = record {
  input_per_million = a;
  output_per_million = b;
  cache_read_per_million = c;
  cache_write_per_million = d;
  reasoning_per_million = e;
}

abbrev rows : List (Price (Rates ℕ))
rows =
    record { model = codes " gpt "; prices = rates 2 6 1 0 4 }
    ∷ record { model = codes " "; prices = rates 1 1 1 1 1 }
    ∷ record { model = codes "o3"; prices = rates 0 0 0 0 0 }
    ∷ []

-- Two lines, with a heading and a comment.
lines_example :
    parse_imported_prices halves same (λ t. none) (codes "model,in\r\n# x\n gpt, 1,3\no3\t2\t\t5")
    ≡ record { model = codes "gpt"; prices = rates (2 * decimal 0 (codes " 1")) 6 0 0 0 }
      ∷ record { model = codes "o3"; prices = rates 4 0 10 0 0 }
      ∷ []
unfolding parse_imported_prices trim trim_start trim_end split_lines split_on split_white
    drop_returns drop_return includes_unit import_lines import_line
lines_example = refl

-- One number, an array and a name that is left out.
entries_example :
    import_json halves (
      some (
        obj (
          member (codes "gpt") (num 2) (
            member
              (codes "o3")
              (arr (item (num 2) (item (str (codes "3")) no_items)))
              (member (codes "o4") null no_members)))))
    ≡ some (
        record { model = codes "gpt"; prices = rates 2 6 1 2 0 }
        ∷ record { model = codes "o3"; prices = rates 2 6 0 0 0 }
        ∷ [])
unfolding import_json import_entries import_entry array_rates number_of trim trim_start trim_end
entries_example = refl

-- An object that cannot be made a text ends the reading as JSON.
no_text :
    import_json halves (
      some (
        arr (
          item
            (obj
              (member (codes "name") (obj (member (codes "toString") null no_members)) no_members))
            no_items)))
    ≡ none
unfolding import_json import_items import_item string_of
no_text = refl

abbrev written : Text
written = codes "[1]"

abbrev parse : Text → Option (Json ℕ)
parse t = if t === written then some (export_json rows) else none

parse_imported_prices-export_json_example :
    parse_imported_prices halves same parse written ≡ table_prices trim rows
parse_imported_prices-export_json_example =
    parse_imported_prices-export_json halves same (λ v. written) parse rows
      (unfold trim trim_start trim_end in refl) (unfold trim trim_start trim_end in refl)
