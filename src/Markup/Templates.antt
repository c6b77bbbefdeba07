-- ===== src/Markup/Templates.antt =====
-- Pieces of the page that texts of a response stand in (go/dashboard/app.js): `empty`, the chips of
-- `renderEventFilterChips`, and three cells of `renderEvents`. The icon of a chip is a parameter.
use cpa_keeper_dashboard.Prelude.{
  ℕ, ◌≡◌, refl, sym, ap, ◌∙◌, Bool, ◌||◌, List, [], ◌∷◌, ◌++◌, ◌==◌, if◌then◌else◌, arith,
}
use cpa_keeper_dashboard.Prelude.Sorting.{filter}
use cpa_keeper_dashboard.Prelude.Text.{Text, codes, is_empty}
use cpa_keeper_dashboard.Markup.{esc}
use cpa_keeper_dashboard.Markup.Escaping.{AllInert, esc-AllInert}

-- A piece is written as it is, or through `esc`.
pub data Piece : Type 0 where
  raw escaped : Text → Piece

unfoldable pub write : List Piece → Text
write [] = []
write (raw s ∷ ps) = s ++ write ps
write (escaped s ∷ ps) = esc s ++ write ps

pub data Template : Type 0 where
  empty_state : (label : Text) → Template
  filter_chip : (icon name label value : Text) → Template
  model_cell : (model upstream_label : Text) → Template
  effort_cell : (reasoning_effort : Text) → Template
  error_detail : (message : Text) → Template

-- `empty`
abbrev empty_state_pieces : Text → List Piece
empty_state_pieces label =
    raw (codes "<div class=\"empty-state\" style=\"display:grid;place-items:center\">")
    ∷ escaped label
    ∷ raw (codes "</div>")
    ∷ []

-- A chip of a filter
abbrev filter_chip_pieces : Text → Text → Text → Text → List Piece
filter_chip_pieces icon name label value =
    raw (codes "<span class=\"active-filter-chip\"><span class=\"active-filter-chip-text\">")
    ∷ escaped label
    ∷ raw (codes "：")
    ∷ escaped value
    ∷ raw (codes "</span><button type=\"button\" data-remove-event-filter=\"")
    ∷ raw name
    ∷ raw (codes "\" aria-label=\"移除")
    ∷ escaped label
    ∷ raw (codes "筛选\" title=\"移除")
    ∷ escaped label
    ∷ raw (codes "筛选\">")
    ∷ raw icon
    ∷ raw (codes "</button></span>")
    ∷ []

-- The cell of the model and its upstream
abbrev model_cell_pieces : Text → Text → List Piece
model_cell_pieces model upstream_label =
    raw (codes "<td data-label=\"模型 / 渠道\"><span class=\"cell-main\" title=\"")
    ∷ escaped model
    ∷ raw (codes "\">")
    ∷ escaped model
    ∷ raw (codes "</span><span class=\"cell-sub\" title=\"")
    ∷ escaped upstream_label
    ∷ raw (codes "\">")
    ∷ escaped upstream_label
    ∷ raw (codes "</span></td>")
    ∷ []

-- The cell of the effort
abbrev effort_cell_pieces : Text → List Piece
effort_cell_pieces effort =
    raw (codes "<td data-label=\"推理强度\" class=\"text-center\"><span class=\"cell-main\">")
    ∷ escaped (if is_empty effort then codes "--" else effort)
    ∷ raw (codes "</span></td>")
    ∷ []

-- `errorSubHtml`
abbrev error_detail_pieces : Text → List Piece
error_detail_pieces message =
    raw (codes "<span class=\"cell-sub error-detail-sub\" title=\"")
    ∷ escaped message
    ∷ raw (codes "\">")
    ∷ escaped message
    ∷ raw (codes "</span>")
    ∷ []

unfoldable pub pieces : Template → List Piece
pieces (empty_state label) = empty_state_pieces label
pieces (filter_chip icon name label value) = filter_chip_pieces icon name label value
pieces (model_cell model upstream_label) = model_cell_pieces model upstream_label
pieces (effort_cell effort) = effort_cell_pieces effort
pieces (error_detail message) = error_detail_pieces message

unfoldable pub markup : Template → Text
unfolding write pieces
markup t = write (pieces t)

-- Without the texts of the response.
abbrev pub blank : Template → Template
blank (empty_state label) = empty_state []
blank (filter_chip icon name label value) = filter_chip icon name [] []
blank (model_cell model upstream_label) = model_cell [] []
blank (effort_cell effort) = effort_cell []
blank (error_detail message) = error_detail []

-- The signs that open and close tags and end the values of attributes.
abbrev pub is_sign : ℕ → Bool
is_sign c = c == b'<' || c == b'>' || c == b'\'' || c == b'"'

filter-append : (p : ℕ → Bool) (s t : Text) → filter p (s ++ t) ≡ filter p s ++ filter p t
filter-append p [] t = refl
filter-append p (c ∷ s) t = ground (arith, filter-append p s t)

no_sign : (s : Text) → AllInert s → filter is_sign s ≡ []
no_sign [] a = refl
no_sign (c ∷ s) a = ground (arith, a.0, no_sign s a.1)

-- The pieces that are written as they are.
abbrev raw_pieces : List Piece → List Piece
raw_pieces [] = []
raw_pieces (raw s ∷ ps) = raw s ∷ raw_pieces ps
raw_pieces (escaped s ∷ ps) = raw_pieces ps

write-raw : (ps : List Piece) → filter is_sign (write ps) ≡ filter is_sign (write (raw_pieces ps))
unfolding write
write-raw [] = refl
write-raw (raw s ∷ ps) =
    filter-append is_sign s (write ps)
    ∙ ap (λ t. filter is_sign s ++ t) (write-raw ps)
    ∙ sym (filter-append is_sign s (write (raw_pieces ps)))
write-raw (escaped s ∷ ps) =
    filter-append is_sign (esc s) (write ps)
    ∙ ap (λ t. t ++ filter is_sign (write ps)) (no_sign (esc s) (esc-AllInert s))
    ∙ write-raw ps

raw_pieces-blank : (t : Template) → raw_pieces (pieces t) ≡ raw_pieces (pieces (blank t))
unfolding pieces
raw_pieces-blank (empty_state label) = refl
raw_pieces-blank (filter_chip icon name label value) = refl
raw_pieces-blank (model_cell model upstream_label) = refl
raw_pieces-blank (effort_cell effort) = refl
raw_pieces-blank (error_detail message) = refl

-- Whatever the texts of a response are, the signs that make up tags and attributes stand in these pieces
-- of the page as they do with no texts at all.
pub markup-blank : (t : Template) → filter is_sign (markup t) ≡ filter is_sign (markup (blank t))
unfolding markup
markup-blank t =
    write-raw (pieces t)
    ∙ ap (λ ps. filter is_sign (write ps)) (raw_pieces-blank t)
    ∙ sym (write-raw (pieces (blank t)))
