-- ===== src/Keys/Tests.antt =====
-- Runs of the search for a management key.
use cpa_keeper_dashboard.Prelude.{
  ℕ, ◌<◌, ◌≡◌, ◌≢◌, refl, inl, inr, Bool, true, false, Bool-cases, Option, none, some, [], ◌∷◌,
  arith, if◌then◌else◌, length,
}
use cpa_keeper_dashboard.Prelude.Interface.{◌===◌}
use cpa_keeper_dashboard.Prelude.Json.{Json, num, str, arr, obj, no_items, item, no_members, member}
use cpa_keeper_dashboard.Prelude.Text.{Text, codes, text_eq, trim, trim_end, trim_start}
use cpa_keeper_dashboard.Keys.{
  find_management_key, Platform, xor_bytes, decode_obfuscated, parse_json, read_management_key,
  read_candidates, found_key,
}
use cpa_keeper_dashboard.Keys.Finding.{HoldsKey, find_management_key-HoldsKey}
use cpa_keeper_dashboard.Keys.Decoding.{parse_json-Settles, Settles}
use cpa_keeper_dashboard.Keys.Reading.{HasStored, read_management_key-HasStored}

-- {"state":{"managementKey":" k1 "}}, and an array of it.
abbrev stored : Json ℕ
stored = obj (
    member (codes "state") (obj (member (codes "managementKey") (str (codes " k1 ")) no_members))
      no_members)

find_stored : find_management_key 0 (arr (item (num 3) (item stored no_items))) ≡ codes "k1"
unfolding find_management_key trim trim_end trim_start
find_stored = refl

find_management_key-HoldsKey_example :
    (find_management_key 0 stored ≢ [] → HoldsKey stored (find_management_key 0 stored))
    × ((k : Text) → k ≢ [] → HoldsKey stored k → find_management_key 0 stored ≢ [])
find_management_key-HoldsKey_example = find_management_key-HoldsKey stored

-- `s` and `"s"` for one text s: the JSON texts that the tests parse.
abbrev plain : Text
plain = codes "k"

abbrev quoted : Text
quoted = codes "\"k\""

abbrev pick : Bool → Bool → Option (Json ℕ)
pick true b = some (str plain)
pick false true = some stored
pick false false = none

pick-shortens :
    (b b' : Bool) (s t : Text)
    → (b ≡ true → s ≡ quoted)
    → pick b b' ≡ some (str t)
    → length t < length s
pick-shortens true b' s t h e = rw (h refl) (ground arith)
pick-shortens false true s t h e = absurd (ground arith)
pick-shortens false false s t h e = absurd (ground arith)

abbrev browser : Platform ℕ
browser = record {
  atob = λ t. if t === codes "AAE=" then some (0 ∷ 1 ∷ []) else none;
  text_decode = λ bs. bs;
  key_bytes = b'k' ∷ b'j' ∷ [];
  json_parse = λ t. pick (t === quoted) (t === codes "{}");
}

decoded : decode_obfuscated browser (codes "enc::v1::AAE=") ≡ codes "kk"
unfolding decode_obfuscated xor_bytes
decoded = refl

parsed_twice : parse_json browser 4 quoted ≡ some (str plain)
unfolding parse_json
parsed_twice = refl

browser-shortens : (s t : Text) → browser.json_parse s ≡ some (str t) → length t < length s
browser-shortens s t e =
    pick-shortens (s === quoted) (s === codes "{}") s t (text_eq.beq_iff s quoted).0 e

parse_json-Settles_example :
    (v : Json ℕ) × (parse_json browser 4 quoted ≡ some v) × Settles browser quoted v
parse_json-Settles_example = parse_json-Settles browser browser-shortens 4 quoted (omega arith)

abbrev session : Text → Option (Option Text)
session c = some none

abbrev local : Text → Option (Option Text)
local c = if c === codes "managementKey" then some (some (codes "{}")) else some none

read_key : read_management_key browser session local ≡ codes "k1"
unfolding read_management_key read_candidates found_key parse_json decode_obfuscated
    find_management_key trim trim_end trim_start
read_key = refl

local-NeverThrows : (c : Text) → local c ≢ none
local-NeverThrows c e = elim (Bool-cases (c === codes "managementKey")) [
  | inl same ↦ ground arith
  | inr other ↦ ground arith
]

read_management_key-HasStored_example :
    (read_management_key browser session local ≢ []
      → HasStored browser session local (read_management_key browser session local))
    × ((k : Text)
        → k ≢ []
        → HasStored browser session local k
        → read_management_key browser session local ≢ [])
read_management_key-HasStored_example =
    read_management_key-HasStored browser session local (λ c e. ground arith) local-NeverThrows
