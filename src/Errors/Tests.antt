-- ===== src/Errors/Tests.antt =====
-- Messages of failed requests.
use cpa_keeper_dashboard.Prelude.{ℕ, ◌≡◌, refl, none, some, [], ◌==◌}
use cpa_keeper_dashboard.Prelude.Json.{
  Json, null, num, str, arr, obj, no_items, item, no_members, member, Numbers, string_of,
}
use cpa_keeper_dashboard.Prelude.Text.{Text, codes, trim, trim_start, trim_end}
use cpa_keeper_dashboard.Errors.{
  decimal, status_message, includes, until, between, closes, is_tag, strip_tags, squeeze,
  plain_text, html_message, error_message, object_message, join_details,
}

abbrev naturals : Numbers ℕ
naturals = record {
  zero = 0;
  one = 1;
  half = 0;
  three = 3;
  times = λ a b. a;
  is_falsy = λ n. n == 0;
  of_text = λ t. 0;
  to_text = λ n. decimal 9 n [];
}

abbrev written : Json ℕ → Text
written v = codes "?"

teapot : status_message 418 ≡ codes "HTTP 418"
unfolding status_message decimal
teapot = refl

-- {"error":{"code":429,"message":"slow down"}}
coded :
    object_message naturals written (
      obj (
        member
          (codes "error")
          (obj (
            member
              (codes "code")
              (num 429)
              (member (codes "message") (str (codes "slow down")) no_members)))
          no_members))
    ≡ some (some (codes "[429] slow down"))
unfolding object_message error_message string_of decimal
coded = refl

-- {"detail":[{"msg":"a"},1]}, and a null in the list.
listed :
    object_message naturals written (
      obj (
        member
          (codes "detail")
          (arr (
            item (obj (member (codes "msg") (str (codes "a")) no_members)) (item (num 1) no_items)))
          no_members))
    ≡ some (some (codes "a; ?"))
unfolding object_message error_message join_details string_of
listed = refl

thrown :
    object_message naturals written
      (obj (member (codes "detail") (arr (item null no_items)) no_members))
    ≡ none
unfolding object_message error_message join_details string_of
thrown = refl

titled : html_message (codes "<html><TITLE>502 Bad Gateway </title>") ≡ codes "502 Bad Gateway"
unfolding html_message includes between until trim trim_start trim_end
titled = refl

-- The title is there, and the message empty.
blank_title : html_message (codes "<title> </title>gone") ≡ []
unfolding html_message includes between until trim trim_start trim_end
blank_title = refl

abbrev page : Text
page = codes "<html><p>Bad\n gateway</p></html>"

paged : html_message page ≡ codes "Bad gateway"
unfolding html_message includes between until plain_text strip_tags is_tag closes squeeze trim
    trim_start trim_end
paged = refl
