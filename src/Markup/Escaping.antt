-- ===== src/Markup/Escaping.antt =====
-- What `esc` writes is inert in HTML, and `unescapeHTML` reads it back.
use cpa_keeper_dashboard.Prelude.{
  ℕ, ◌≡◌, ◌≢◌, refl, ap, ◌∙◌, [], ◌∷◌, ◌++◌, ◌==◌, if◌then◌else◌, arith, Bool, true, false,
}
use cpa_keeper_dashboard.Prelude.Text.{Text, codes}
use cpa_keeper_dashboard.Markup.{esc_char, esc, replace_all, unescape_html}

-- How a character stands in the text after some of the passes of `unescapeHTML`: whether the
-- quotes, the apostrophes, the two angles and the ampersands are still entities.
stage : Bool → Bool → Bool → Bool → ℕ → Text
stage quot apos lt gt c =
    if c == b'&'
    then codes "&amp;"
    else if c == b'<'
    then if lt then codes "&lt;" else c ∷ []
    else if c == b'>'
    then if gt then codes "&gt;" else c ∷ []
    else if c == b'\''
    then if apos then codes "&#39;" else c ∷ []
    else if c == b'"'
    then if quot then codes "&quot;" else c ∷ []
    else c ∷ []

encode : (ℕ → Text) → Text → Text
encode e [] = []
encode e (c ∷ s) = e c ++ encode e s

-- A pass that turns the codes e into the codes e' at each character does so in a text.
pass :
    (p q : Text) (r : ℕ) (e e' : ℕ → Text)
    → ((c : ℕ) (rest : Text) → replace_all 0 p q r (e c ++ rest) ≡ e' c ++ replace_all 0 p q r rest)
    → (s : Text) → replace_all 0 p q r (encode e s) ≡ encode e' s
unfolding encode
pass p q r e e' step [] = unfold replace_all in refl
pass p q r e e' step (c ∷ s) = step c (encode e s) ∙ ap (λ t. e' c ++ t) (pass p q r e e' step s)

quot_step :
    (c : ℕ) (rest : Text)
    → replace_all 0 (codes "&#34;") (codes "&quot;") b'"' (stage true true true true c ++ rest)
      ≡ stage false true true true c ++ replace_all 0 (codes "&#34;") (codes "&quot;") b'"' rest
unfolding replace_all stage
quot_step c rest = ground arith

apos_step :
    (c : ℕ) (rest : Text)
    → replace_all 0 (codes "&#39;") (codes "&apos;") b'\'' (stage false true true true c ++ rest)
      ≡ stage false false true true c ++ replace_all 0 (codes "&#39;") (codes "&apos;") b'\'' rest
unfolding replace_all stage
apos_step c rest = ground arith

slash_step :
    (c : ℕ) (rest : Text)
    → replace_all 0 (codes "&#47;") (codes "&#47;") b'/' (stage false false true true c ++ rest)
      ≡ stage false false true true c ++ replace_all 0 (codes "&#47;") (codes "&#47;") b'/' rest
unfolding replace_all stage
slash_step c rest = ground arith

backslash_step :
    (c : ℕ) (rest : Text)
    → replace_all 0 (codes "&#92;") (codes "&#92;") b'\\' (stage false false true true c ++ rest)
      ≡ stage false false true true c ++ replace_all 0 (codes "&#92;") (codes "&#92;") b'\\' rest
unfolding replace_all stage
backslash_step c rest = ground arith

lt_step :
    (c : ℕ) (rest : Text)
    → replace_all 0 (codes "&lt;") (codes "&lt;") b'<' (stage false false true true c ++ rest)
      ≡ stage false false false true c ++ replace_all 0 (codes "&lt;") (codes "&lt;") b'<' rest
unfolding replace_all stage
lt_step c rest = ground arith

gt_step :
    (c : ℕ) (rest : Text)
    → replace_all 0 (codes "&gt;") (codes "&gt;") b'>' (stage false false false true c ++ rest)
      ≡ stage false false false false c ++ replace_all 0 (codes "&gt;") (codes "&gt;") b'>' rest
unfolding replace_all stage
gt_step c rest = ground arith

amp_step :
    (c : ℕ) (rest : Text)
    → replace_all 0 (codes "&amp;") (codes "&amp;") b'&' (stage false false false false c ++ rest)
      ≡ (c ∷ []) ++ replace_all 0 (codes "&amp;") (codes "&amp;") b'&' rest
unfolding replace_all stage
amp_step c rest = ground arith

encode_plain : (s : Text) → encode (λ c. c ∷ []) s ≡ s
unfolding encode
encode_plain [] = refl
encode_plain (c ∷ s) = ap (λ t. c ∷ t) (encode_plain s)

esc-encode : (s : Text) → esc s ≡ encode (stage true true true true) s
unfolding esc encode stage
esc-encode [] = refl
esc-encode (c ∷ s) = rw (esc-encode s) refl

-- Reading back what `esc` wrote gives the text itself, whatever entities stood in it before.
pub unescape_html-esc : (s : Text) → unescape_html (esc s) ≡ s
unfolding unescape_html
unescape_html-esc s =
    rw
      (
        esc-encode,
        pass _ _ _ (stage true true true true) (stage false true true true) quot_step,
        pass _ _ _ (stage false true true true) (stage false false true true) apos_step,
        pass _ _ _ (stage false false true true) (stage false false true true) slash_step,
        pass _ _ _ (stage false false true true) (stage false false true true) backslash_step,
        pass _ _ _ (stage false false true true) (stage false false false true) lt_step,
        pass _ _ _ (stage false false false true) (stage false false false false) gt_step,
        pass _ _ _ (stage false false false false) (λ c. c ∷ []) amp_step,
      )
      (encode_plain s)

-- A character that neither opens nor closes a tag, nor ends an attribute's value.
abbrev pub IsInert : ℕ → Type 0
IsInert c = (c ≢ b'<') × (c ≢ b'>') × (c ≢ b'\'') × (c ≢ b'"')

abbrev pub AllInert : Text → Type 0
AllInert [] = Unit
AllInert (c ∷ s) = IsInert c × AllInert s

append-AllInert : (s t : Text) → AllInert s → AllInert t → AllInert (s ++ t)
append-AllInert [] t hs ht = ht
append-AllInert (c ∷ s) t hs ht = (hs.0, append-AllInert s t hs.1 ht)

esc_char-AllInert : (c : ℕ) → AllInert (esc_char c)
unfolding esc_char
esc_char-AllInert c = ground arith

-- No text that `esc` wrote can open or close a tag or end an attribute's quoted value.
pub esc-AllInert : (s : Text) → AllInert (esc s)
unfolding esc
esc-AllInert [] = tt
esc-AllInert (c ∷ s) = append-AllInert (esc_char c) (esc s) (esc_char-AllInert c) (esc-AllInert s)
