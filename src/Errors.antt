-- ===== src/Errors.antt =====
-- The message of a failed request (go/dashboard/app.js): `formatErrorMessage`.
pub mod Tags
mod Tests
use cpa_keeper_dashboard.Prelude.{
  ℕ, zero, suc, ◌+◌, ◌/◌, Bool, true, false, ◌&&◌, ◌||◌, not, Option, none, some, List, [], ◌∷◌,
  ◌++◌, ◌==◌, ltb, leb, if◌then◌else◌, length, drop,
}
use cpa_keeper_dashboard.Prelude.Interface.{◌===◌}
use cpa_keeper_dashboard.Prelude.Json.{
  Json, null, bool, num, str, arr, obj, Items, no_items, item, ◌>>=◌, Numbers, own, is_truthy,
  first_truthy, string_of,
}
use cpa_keeper_dashboard.Prelude.Text.{
  Text, codes, starts_with, trim, is_white, starts_white, text_eq,
}
use cpa_keeper_dashboard.Dates.{digit}
use cpa_keeper_dashboard.Markup.{unescape_html}
use cpa_keeper_dashboard.Session.State.{is_empty}

-- `String(n)`; a number has fewer digits than the fuel.
unfoldable pub decimal : ℕ → ℕ → Text → Text
decimal zero n end = end
decimal (suc fuel) n end =
    let rest = decimal fuel (n / 10) (digit n ∷ end) in if ltb n 10 then digit n ∷ end else rest

-- The message for a status without a text; 0 stands for none.
unfoldable pub status_message : ℕ → Text
status_message status =
    if status == 0 || status == 200
    then []
    else if status == 400
    then codes "参数错误 (Bad Request)"
    else if status == 401
    then codes "鉴权失败 (Unauthorized)"
    else if status == 403
    then codes "拒绝访问 (Forbidden)"
    else if status == 404
    then codes "模型不存在 (Not Found)"
    else if status == 429
    then codes "上游限流 (Rate Limit)"
    else if status == 500
    then codes "服务错误 (Internal Error)"
    else if status == 502
    then codes "网关异常 (Bad Gateway)"
    else if status == 503
    then codes "服务过载 (Service Unavailable)"
    else if status == 504
    then codes "网关超时 (Gateway Timeout)"
    else codes "HTTP " ++ decimal (suc status) status []

-- `s.includes(t)`
unfoldable pub includes : Text → Text → Bool
includes t [] = starts_with t []
includes t (c ∷ s) = starts_with t (c ∷ s) || includes t s

unfoldable pub ends_with : ℕ → Text → Bool
ends_with u [] = false
ends_with u (c ∷ []) = c == u
ends_with u (c ∷ d ∷ s) = ends_with u (d ∷ s)

-- The expression's flag `i`, on a pattern of small letters and signs.
abbrev pub small : ℕ → ℕ
small c = if leb b'A' c && leb c b'Z' then c + 32 else c

abbrev pub starts_with_any_case : Text → Text → Bool
starts_with_any_case [] s = true
starts_with_any_case (p ∷ ps) [] = false
starts_with_any_case (p ∷ ps) (c ∷ s) = p == small c && starts_with_any_case ps s

abbrev pub ends_line : ℕ → Bool
ends_line c = c == 0x0A || c == 0x0D || c == 0x2028 || c == 0x2029

abbrev pub push_found : ℕ → Option Text → Option Text
push_found c none = none
push_found c (some t) = some (c ∷ t)

-- `(.*?)` and what closes it.
unfoldable pub until : Text → Text → Option Text
until close [] = if starts_with_any_case close [] then some [] else none
until close (c ∷ s) =
    let rest = until close s in
    if starts_with_any_case close (c ∷ s)
    then some []
    else if ends_line c
    then none
    else push_found c rest

abbrev pub or_found : Option Text → Option Text → Option Text
or_found none other = other
or_found (some t) other = some t

-- The group of the first match of an expression such as `/<title>(.*?)<\/title>/i`.
unfoldable pub between : Text → Text → Text → Option Text
between opening close [] = none
between opening close (c ∷ s) =
    let here = until close (drop (length opening) (c ∷ s)) in
    let later = between opening close s in
    if starts_with_any_case opening (c ∷ s) then or_found here later else later

unfoldable pub closes : Text → Bool
closes [] = false
closes (c ∷ s) = c == b'>' || closes s

-- Behind a `<`, the rest of a match of `/<[^>]+>/`.
unfoldable pub is_tag : Text → Bool
is_tag [] = false
is_tag (c ∷ s) = not (c == b'>') && closes s

-- `s.replace(/<[^>]+>/g, ' ')`, outside of a match and, where the flag is set, within one.
unfoldable pub strip_tags : Bool → Text → Text
strip_tags within [] = []
strip_tags true (c ∷ s) =
    let out = strip_tags false s in let on = strip_tags true s in if c == b'>' then out else on
strip_tags false (c ∷ s) =
    let out = strip_tags false s in
    let on = strip_tags true s in if c == b'<' && is_tag s then b' ' ∷ on else c ∷ out

-- `s.replace(/\s+/g, ' ')`
unfoldable pub squeeze : Text → Text
squeeze [] = []
squeeze (c ∷ s) =
    let rest = squeeze s in
    if is_white c then if starts_white s then rest else b' ' ∷ rest else c ∷ rest

unfoldable pub plain_text : Text → Text
plain_text text = trim (squeeze (strip_tags false text))

abbrev pub is_html : Text → Bool
is_html text =
    includes (codes "<html") text
    || includes (codes "<!DOCTYPE") text
    || includes (codes "<title>") text

-- A group that is not empty, and else the rest.
abbrev pub group_or : Option Text → Text → Text
group_or none rest = rest
group_or (some []) rest = rest
group_or (some (c ∷ t)) rest = trim (c ∷ t)

unfoldable pub html_message : Text → Text
html_message text =
    if is_html text
    then group_or (between (codes "<title>") (codes "</title>") text)
        (group_or (between (codes "<h1>") (codes "</h1>") text) (plain_text text))
    else text

abbrev pub looks_like_json : Text → Bool
looks_like_json text =
    (starts_with (codes "{") text && ends_with b'}' text)
    || (starts_with (codes "[") text && ends_with b']' text)

abbrev pub or_html : Text → Option (Option Text) → Text
or_html text (some (some message)) = message
or_html text _ = html_message text

module _ {N : Type 0} (k : Numbers N) (stringify : Json N → Text) where
  -- `[${code}] ${message}`
  abbrev pub with_code : Json N → Json N → Option (Option Text)
  with_code code message = do
    c ← string_of k code
    m ← string_of k message
    some (some (codes "[" ++ c ++ codes "] " ++ m))

  abbrev pub as_text : Json N → Option (Option Text)
  as_text v = do t ← string_of k v; some (some t)

  -- The result is `none` where it throws, and `some none` where the code goes on.
  unfoldable pub error_message : Json N → Option (Option Text)
  error_message e =
      let code =
        first_truthy k (own (codes "code") e ∷ own (codes "type") e ∷ own (codes "status") e ∷ [])
          (str []) in
      let msg =
        first_truthy k
          (own (codes "message") e
            ∷ own (codes "msg") e
            ∷ own (codes "detail") e
            ∷ own (codes "error") e
            ∷ [])
          (str []) in
      if is_truthy k code && is_truthy k msg
      then with_code code msg
      else if is_truthy k msg
      then as_text msg
      else if is_truthy k code
      then as_text code
      else some none

  abbrev pub error_part : Option (Json N) → Option (Option Text)
  error_part (some (str [])) = some none
  error_part (some (str (c ∷ s))) = some (some (c ∷ s))
  error_part (some (arr vs)) = error_message (arr vs)
  error_part (some (obj ms)) = error_message (obj ms)
  error_part _ = some none

  -- `d.msg || JSON.stringify(d)`, as the text of it in the list.
  abbrev pub detail_text : Json N → Option Text
  detail_text null = none
  detail_text d = string_of k (first_truthy k (own (codes "msg") d ∷ []) (str (stringify d)))

  unfoldable pub join_details : Items N → Option Text
  join_details no_items = some []
  join_details (item d no_items) = detail_text d
  join_details (item d (item e ds)) = do
    first ← detail_text d
    rest ← join_details (item e ds)
    some (first ++ codes "; " ++ rest)

  abbrev pub detail_part : Option (Json N) → Option (Option Text)
  detail_part (some (str [])) = some none
  detail_part (some (str (c ∷ s))) = some (some (c ∷ s))
  detail_part (some (arr ds)) = do t ← join_details ds; some (some t)
  detail_part _ = some none

  -- A property that is returned as a text if it holds something.
  abbrev pub text_part : Option (Json N) → Option (Option Text)
  text_part none = some none
  text_part (some v) = if is_truthy k v then as_text v else some none

  abbrev pub message_part : Option (Json N) → Json N → Option (Option Text)
  message_part none code = some none
  message_part (some message) code =
      if is_truthy k message
      then if is_truthy k code then with_code code message else as_text message
      else some none

  -- The parts in turn, until one returns or throws.
  abbrev pub first_part : Option (Option Text) → Option (Option Text) → Option (Option Text)
  first_part none rest = none
  first_part (some none) rest = rest
  first_part (some (some t)) rest = some (some t)

  unfoldable pub object_message : Json N → Option (Option Text)
  object_message v = first_part (error_part (own (codes "error") v)) (
      first_part
        (message_part (own (codes "message") v)
          (first_truthy k (own (codes "code") v ∷ []) (str [])))
        (first_part (text_part (own (codes "msg") v)) (
          first_part (detail_part (own (codes "detail") v))
            (text_part (own (codes "error_description") v)))))

  unfoldable pub json_message : Option (Json N) → Option (Option Text)
  json_message (some (arr vs)) = object_message (arr vs)
  json_message (some (obj ms)) = object_message (obj ms)
  json_message _ = some none

  -- `formatErrorMessage` of `String(raw || '')` and the status; `parse` is `JSON.parse`.
  unfoldable pub format_error_message : (Text → Option (Json N)) → Text → ℕ → Text
  format_error_message parse raw status =
      let text = trim (unescape_html raw) in
      if is_empty text
      then status_message status
      else or_html text (if looks_like_json text then json_message (parse text) else none)
