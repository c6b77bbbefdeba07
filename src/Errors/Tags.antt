-- ===== src/Errors/Tags.antt =====
-- What is left of a page of HTML has no tags.
use cpa_keeper_dashboard.Prelude.{
  ℕ, ◌≡◌, ◌≢◌, refl, Bool, true, false, ◌&&◌, ◌||◌, not, Option, none, some, [], ◌∷◌, ◌==◌, arith,
  Bool-cases, inl, inr,
}
use cpa_keeper_dashboard.Prelude.Text.{
  Text, is_white, starts_white, trim_start, cons_trimmed, trim_end, trim, codes,
}
use cpa_keeper_dashboard.Prelude.Json.{Json, Numbers}
use cpa_keeper_dashboard.Markup.{unescape_html}
use cpa_keeper_dashboard.Session.State.{is_empty}
use cpa_keeper_dashboard.Errors.{
  closes, is_tag, strip_tags, squeeze, plain_text, is_html, includes, between, group_or,
  html_message, looks_like_json, format_error_message,
}

-- Nowhere does `/<[^>]+>/` match.
abbrev pub HasNoTag : Text → Type 0
HasNoTag [] = Unit
HasNoTag (c ∷ s) = ((c == b'<' && is_tag s) ≡ false) × HasNoTag s

-- No unit of the first text closes a tag that the second does not close.
closes-strip_tags :
    (within : Bool) (s : Text) → closes (strip_tags within s) ≡ true → closes s ≡ true
unfolding closes strip_tags
closes-strip_tags true [] h = h
closes-strip_tags false [] h = h
closes-strip_tags true (c ∷ s) h = elim (Bool-cases (c == b'>')) [
  | inl ends ↦ rw ends refl
  | inr goes_on ↦ rw goes_on (closes-strip_tags true s (ground arith))
]
closes-strip_tags false (c ∷ s) h = elim (Bool-cases (c == b'<' && is_tag s)) [
  | inl tag ↦ ground (arith, closes-strip_tags true s)
  | inr other ↦ ground (arith, closes-strip_tags false s)
]

is_tag-strip_tags : (s : Text) → is_tag (strip_tags false s) ≡ true → is_tag s ≡ true
unfolding is_tag strip_tags
is_tag-strip_tags [] h = h
is_tag-strip_tags (c ∷ s) h = elim (Bool-cases (c == b'<' && is_tag s)) [
  | inl tag ↦ ground (arith, closes-strip_tags true s)
  | inr other ↦ ground (arith, closes-strip_tags false s)
]

strip_tags-HasNoTag : (within : Bool) (s : Text) → HasNoTag (strip_tags within s)
unfolding strip_tags
strip_tags-HasNoTag true [] = tt
strip_tags-HasNoTag false [] = tt
strip_tags-HasNoTag true (c ∷ s) = elim (Bool-cases (c == b'>')) [
  | inl ends ↦ rw ends (strip_tags-HasNoTag false s)
  | inr goes_on ↦ rw goes_on (strip_tags-HasNoTag true s)
]
strip_tags-HasNoTag false (c ∷ s) = elim (Bool-cases (c == b'<' && is_tag s)) [
  | inl tag ↦ rw tag (refl, strip_tags-HasNoTag true s)
  | inr other ↦ rw other (ground (arith, is_tag-strip_tags s), strip_tags-HasNoTag false s)
]

white-not_sign : (c : ℕ) → is_white c ≡ true → ((c == b'<') ≡ false) × ((c == b'>') ≡ false)
white-not_sign c h = (ground arith, ground arith)

closes-squeeze : (s : Text) → closes (squeeze s) ≡ true → closes s ≡ true
unfolding closes squeeze
closes-squeeze [] h = h
closes-squeeze (c ∷ s) h = elim (Bool-cases (is_white c)) [
  | inl white ↦ elim (Bool-cases (starts_white s)) [
    | inl more ↦ ground (arith, closes-squeeze s)
    | inr last ↦ ground (arith, closes-squeeze s)
  ]
  | inr seen ↦ ground (arith, closes-squeeze s)
]

is_tag-closes : (s : Text) → is_tag s ≡ true → closes s ≡ true
unfolding is_tag closes
is_tag-closes [] h = h
is_tag-closes (c ∷ s) h = ground arith

is_tag-squeeze : (s : Text) → is_tag (squeeze s) ≡ true → is_tag s ≡ true
unfolding squeeze is_tag
is_tag-squeeze [] h = h
is_tag-squeeze (c ∷ s) h = elim (Bool-cases (is_white c)) [
  | inl white ↦ elim (Bool-cases (starts_white s)) [
    | inl more ↦
        let (a, b) = white-not_sign c white in ground (arith, is_tag-squeeze s, is_tag-closes s)
    | inr last ↦ let (a, b) = white-not_sign c white in ground (arith, closes-squeeze s)
  ]
  | inr seen ↦ ground (arith, closes-squeeze s)
]

squeeze-HasNoTag : (s : Text) → HasNoTag s → HasNoTag (squeeze s)
unfolding squeeze
squeeze-HasNoTag [] h = h
squeeze-HasNoTag (c ∷ s) (n, h) = elim (Bool-cases (is_white c)) [
  | inl white ↦ elim (Bool-cases (starts_white s)) [
    | inl more ↦ rw white (rw more (squeeze-HasNoTag s h))
    | inr last ↦ rw white (rw last (refl, squeeze-HasNoTag s h))
  ]
  | inr seen ↦ rw seen (ground (arith, is_tag-squeeze s), squeeze-HasNoTag s h)
]

trim_start-HasNoTag : (s : Text) → HasNoTag s → HasNoTag (trim_start s)
unfolding trim_start
trim_start-HasNoTag [] h = h
trim_start-HasNoTag (c ∷ s) (n, h) = elim (Bool-cases (is_white c)) [
  | inl white ↦ rw white (trim_start-HasNoTag s h)
  | inr seen ↦ rw seen (n, h)
]

closes-cons_trimmed :
    (c : ℕ) (s : Text) → closes (cons_trimmed c s) ≡ true → (c == b'>' || closes s) ≡ true
unfolding closes
closes-cons_trimmed c [] h = ground arith
closes-cons_trimmed c (d ∷ s) h = h

closes-trim_end : (s : Text) → closes (trim_end s) ≡ true → closes s ≡ true
unfolding closes trim_end
closes-trim_end [] h = h
closes-trim_end (c ∷ s) h =
    let q = closes-cons_trimmed c (trim_end s) h in ground (arith, closes-trim_end s)

is_tag-cons_trimmed :
    (c : ℕ) (s : Text) → is_tag (cons_trimmed c s) ≡ true → (not (c == b'>') && closes s) ≡ true
unfolding is_tag closes
is_tag-cons_trimmed c [] h = ground arith
is_tag-cons_trimmed c (d ∷ s) h = h

is_tag-trim_end : (s : Text) → is_tag (trim_end s) ≡ true → is_tag s ≡ true
unfolding is_tag trim_end
is_tag-trim_end [] h = h
is_tag-trim_end (c ∷ s) h =
    let q = is_tag-cons_trimmed c (trim_end s) h in ground (arith, closes-trim_end s)

cons_trimmed-HasNoTag :
    (c : ℕ) (s : Text) → (c == b'<' && is_tag s) ≡ false → HasNoTag s → HasNoTag (cons_trimmed c s)
cons_trimmed-HasNoTag c [] n h = elim (Bool-cases (is_white c)) [
  | inl white ↦ rw white tt
  | inr seen ↦ rw seen (n, tt)
]
cons_trimmed-HasNoTag c (d ∷ s) n h = (n, h)

trim_end-HasNoTag : (s : Text) → HasNoTag s → HasNoTag (trim_end s)
unfolding trim_end
trim_end-HasNoTag [] h = h
trim_end-HasNoTag (c ∷ s) (n, h) =
    cons_trimmed-HasNoTag c (trim_end s) (ground (arith, is_tag-trim_end s)) (trim_end-HasNoTag s h)

plain_text-HasNoTag : (text : Text) → HasNoTag (plain_text text)
unfolding plain_text trim
plain_text-HasNoTag text = trim_end-HasNoTag (trim_start (squeeze (strip_tags false text))) (
    trim_start-HasNoTag (squeeze (strip_tags false text))
      (squeeze-HasNoTag (strip_tags false text) (strip_tags-HasNoTag false text)))

-- The expression does not match, or its group is empty.
abbrev pub IsUntitled : Option Text → Type 0
IsUntitled o = (c : ℕ) (t : Text) → o ≢ some (c ∷ t)

group_or-IsUntitled : (o : Option Text) (rest : Text) → IsUntitled o → group_or o rest ≡ rest
group_or-IsUntitled none rest h = refl
group_or-IsUntitled (some []) rest h = refl
group_or-IsUntitled (some (c ∷ t)) rest h = absurd (h c t refl)

html-not_empty : (text : Text) → is_html text ≡ true → is_empty text ≡ false
unfolding includes
html-not_empty [] h = absurd (ground arith)
html-not_empty (c ∷ t) h = refl

-- The message for a page of HTML that has neither a title nor a heading with a text, and does not
-- look like JSON, has no tag in it, whatever the status is: nowhere a `<`, then one or more signs
-- other than `>`, and then a `>`.
pub format_error_message-HasNoTag :
    {N : Type 0} (k : Numbers N) (stringify : Json N → Text) (parse : Text → Option (Json N))
    (raw : Text) (status : ℕ)
    → is_html (trim (unescape_html raw)) ≡ true
    → looks_like_json (trim (unescape_html raw)) ≡ false
    → IsUntitled (between (codes "<title>") (codes "</title>") (trim (unescape_html raw)))
    → IsUntitled (between (codes "<h1>") (codes "</h1>") (trim (unescape_html raw)))
    → HasNoTag (format_error_message k stringify parse raw status)
unfolding format_error_message html_message
format_error_message-HasNoTag k stringify parse raw status html json title heading =
    rw (html-not_empty _ html) (
      rw json (
        rw html (
          rw (group_or-IsUntitled _ _ title) (
            rw (group_or-IsUntitled _ _ heading)
              (plain_text-HasNoTag (trim (unescape_html raw)))))))
