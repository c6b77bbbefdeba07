-- ===== src/Markup/Tests.antt =====
-- `esc` and `unescapeHTML` at inputs, and the theorems at them.
use cpa_keeper_dashboard.Prelude.{◌≡◌, refl, []}
use cpa_keeper_dashboard.Prelude.Text.{Text, codes}
use cpa_keeper_dashboard.Markup.{esc, unescape_html}
use cpa_keeper_dashboard.Markup.Escaping.{unescape_html-esc}
use cpa_keeper_dashboard.Markup.Templates.{is_sign, markup, model_cell, markup-blank}
use cpa_keeper_dashboard.Prelude.Sorting.{filter}

abbrev tag : Text
tag = codes "<a title='x'>R&amp;D</a>"

esc-tag : esc tag ≡ codes "&lt;a title=&#39;x&#39;&gt;R&amp;amp;D&lt;/a&gt;"
unfolding esc
esc-tag = refl

unescape_tag : unescape_html (codes "&#34;&#47;&apos;&amp;lt;") ≡ codes "\"/'&lt;"
unfolding unescape_html
unescape_tag = refl

unescape_html-esc_example : unescape_html (esc tag) ≡ tag
unescape_html-esc_example = unescape_html-esc tag

markup-blank_example :
    filter is_sign (markup (model_cell tag (codes "\"><b>")))
    ≡ filter is_sign (markup (model_cell [] []))
markup-blank_example = markup-blank (model_cell tag (codes "\"><b>"))
