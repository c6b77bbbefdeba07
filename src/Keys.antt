-- ===== src/Keys.antt =====
-- The management key of the sign-in that the browser remembers (go/dashboard/app.js):
-- `readManagementKey`, `decodeObfuscated`, `parseJSON` and `findManagementKey`.
pub mod Finding
pub mod Decoding
pub mod Reading
mod Tests
use cpa_keeper_dashboard.Prelude.{
  ℕ, zero, suc, ◌+◌, ◌%◌, Bool, true, false, Option, none, some, List, [], ◌∷◌, ltb, ◌==◌,
  if◌then◌else◌, length, get_or, drop, bit_xor,
}
use cpa_keeper_dashboard.Prelude.Interface.{◌===◌}
use cpa_keeper_dashboard.Prelude.Json.{
  Json, null, bool, num, str, arr, obj, Items, no_items, item, Members, no_members, member,
  property,
}
use cpa_keeper_dashboard.Prelude.Text.{Text, codes, starts_with, trim, text_eq}

abbrev pub management_key : Text
management_key = codes "managementKey"

-- `if (found) return found;` before the rest.
abbrev pub or_else : Text → Text → Text
or_else [] rest = rest
or_else (c ∷ found) rest = c ∷ found

-- `value.managementKey.trim()` where that is a string.
abbrev pub text_of : {N : Type 0} → Option (Json N) → Text
text_of (some (str s)) = trim s
text_of _ = []

unfoldable mutual
  pub find_management_key : {N : Type 0} → ℕ → Json N → Text
  find_management_key depth null = []
  find_management_key depth (bool b) = []
  find_management_key depth (num n) = []
  find_management_key depth (str s) = if depth == 0 then trim s else []
  find_management_key depth (arr xs) =
      let found = find_in_items (suc depth) xs in if ltb 5 depth then [] else found
  find_management_key depth (obj ms) =
      let found = find_in_members (suc depth) ms in
      if ltb 5 depth then [] else or_else (text_of (property management_key ms)) found

  pub find_in_items : {N : Type 0} → ℕ → Items N → Text
  find_in_items depth no_items = []
  find_in_items depth (item v xs) = or_else (find_management_key depth v) (find_in_items depth xs)

  pub find_in_members : {N : Type 0} → ℕ → Members N → Text
  find_in_members depth no_members = []
  find_in_members depth (member n v ms) =
      or_else (find_management_key depth v) (find_in_members depth ms)

-- `encrypted.map((byte, index) => byte ^ key[index % key.length])`, from an index on.
unfoldable pub xor_bytes : List ℕ → ℕ → List ℕ → List ℕ
xor_bytes key index [] = []
xor_bytes key index (b ∷ bs) =
    bit_xor b (get_or key (index % length key) 0) ∷ xor_bytes key (index + 1) bs

abbrev pub obfuscation_prefix : Text
obfuscation_prefix = codes "enc::v1::"

-- What the browser gives: `atob`, which throws on a text that is not base64, `TextDecoder`, the
-- bytes of the key with the host and the browser's name in it, and `JSON.parse`, which may throw.
pub record Platform (N : Type 0) : Type 0 where
  pub atob : Text → Option (List ℕ)
  pub text_decode : List ℕ → Text
  pub key_bytes : List ℕ
  pub json_parse : Text → Option (Json N)

-- `if (sessionKey) return sessionKey;` before the rest; `none` where the access throws.
abbrev pub after_session : Option (Option Text) → Text → Text
after_session none rest = []
after_session (some none) rest = rest
after_session (some (some k)) rest = or_else k rest

module _ {N : Type 0} (p : Platform N) where
  -- The `try` block of `decodeObfuscated`, with its `catch`.
  abbrev pub decode_bytes : Text → Option (List ℕ) → Text
  decode_bytes value none = value
  decode_bytes value (some encrypted) = p.text_decode (xor_bytes p.key_bytes 0 encrypted)

  unfoldable pub decode_obfuscated : Text → Text
  decode_obfuscated value =
      if starts_with obfuscation_prefix value
      then decode_bytes value (p.atob (drop (length obfuscation_prefix) value))
      else value

  -- `parseJSON` where `rest` is its call of itself.
  abbrev pub parse_inner : (Text → Option (Json N)) → Text → Option (Json N) → Option (Json N)
  parse_inner rest value none = some (str value)
  parse_inner rest value (some (str parsed)) =
      let inner = rest parsed in if parsed === value then some (str parsed) else inner
  parse_inner rest value (some parsed) = some parsed

  -- `parseJSON` on fuel: no result where that is used up.
  unfoldable pub parse_json : ℕ → Text → Option (Json N)
  parse_json zero value = none
  parse_json (suc n) value = parse_inner (parse_json n) value (p.json_parse value)

  -- `parseJSON(decoded)` and `findManagementKey` of what it gives; a text is parsed at most as often
  -- as it has code units, and once more.
  abbrev pub find_in : Option (Json N) → Text
  find_in none = []
  find_in (some v) = find_management_key 0 v

  unfoldable pub found_key : Text → Text
  found_key raw =
      let decoded = decode_obfuscated raw in find_in (parse_json (length decoded + 1) decoded)

  -- One candidate, before the rest: to throw ends the search with ''.
  abbrev pub read_stored : Option (Option Text) → Text → Text
  read_stored none rest = []
  read_stored (some none) rest = rest
  read_stored (some (some [])) rest = rest
  read_stored (some (some (c ∷ raw))) rest = or_else (found_key (c ∷ raw)) rest

  -- The loop over the candidates: `read` is `localStorage.getItem`, which may throw, and gives
  -- `none` for null.
  unfoldable pub read_candidates : (Text → Option (Option Text)) → List Text → Text
  read_candidates read [] = []
  read_candidates read (k ∷ ks) = read_stored (read k) (read_candidates read ks)

  -- Its arguments are `getItem` of sessionStorage and of localStorage.
  unfoldable pub read_management_key :
      (Text → Option (Option Text)) → (Text → Option (Option Text)) → Text
  read_management_key session local =
      after_session (session (codes "usage-keeper-management-key"))
        (read_candidates local (codes "cli-proxy-auth" ∷ codes "managementKey" ∷ []))
