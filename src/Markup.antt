-- ===== src/Markup.antt =====
-- Text that goes into the page (go/dashboard/app.js): `esc` writes a text as HTML, `unescapeHTML`
-- reads the entities of a proxied error message back.
pub mod Escaping
pub mod Templates
mod Tests
use cpa_keeper_dashboard.Prelude.{ℕ, zero, suc, ◌-◌, [], ◌∷◌, ◌++◌, ◌==◌, if◌then◌else◌, length}
use cpa_keeper_dashboard.Prelude.Text.{Text, codes, starts_with}

-- The entity of a character, or the character.
unfoldable pub esc_char : ℕ → Text
esc_char c =
    if c == b'&'
    then codes "&amp;"
    else if c == b'<'
    then codes "&lt;"
    else if c == b'>'
    then codes "&gt;"
    else if c == b'\''
    then codes "&#39;"
    else if c == b'"'
    then codes "&quot;"
    else c ∷ []

-- `value.replace(/[&<>'"]/g, …)`
unfoldable pub esc : Text → Text
unfolding esc_char
esc [] = []
esc (c ∷ s) = esc_char c ++ esc s

-- How many characters one of two patterns takes at the head of a text; 0 where neither matches.
unfoldable pub match_length : Text → Text → Text → ℕ
match_length p q s = if starts_with p s then length p else if starts_with q s then length q else 0

-- `s.replace(/p|q/g, r)` for non-empty texts p and q and a character r; the first argument counts
-- the characters of a match that are still to be passed over.
unfoldable pub replace_all : ℕ → Text → Text → ℕ → Text → Text
unfolding match_length
replace_all skip p q r [] = []
replace_all (suc skip) p q r (c ∷ s) = replace_all skip p q r s
replace_all zero p q r (c ∷ s) =
    let matched = match_length p q (c ∷ s) in
    let rest = replace_all (matched - 1) p q r s in if matched == 0 then c ∷ rest else r ∷ rest

unfoldable pub unescape_html : Text → Text
unfolding replace_all
unescape_html s =
    let s = replace_all 0 (codes "&#34;") (codes "&quot;") b'"' s in
    let s = replace_all 0 (codes "&#39;") (codes "&apos;") b'\'' s in
    let s = replace_all 0 (codes "&#47;") (codes "&#47;") b'/' s in
    let s = replace_all 0 (codes "&#92;") (codes "&#92;") b'\\' s in
    let s = replace_all 0 (codes "&lt;") (codes "&lt;") b'<' s in
    let s = replace_all 0 (codes "&gt;") (codes "&gt;") b'>' s in
    replace_all 0 (codes "&amp;") (codes "&amp;") b'&' s
