-- ===== src/Distributions.antt =====
-- The cards of the distributions (go/dashboard/app.js): the numbers that `distributionCard` draws as
-- a ring and a list, and in the child Hover what `bindDistributionInteractivity` does. Lengths and
-- percentages are given before they are rounded; the markup around them is left out.
pub mod Slices
pub mod Hover
pub mod Marks
mod Tests
use cpa_keeper_dashboard.Prelude.{
  ℕ, zero, suc, ◌+◌, ◌-◌, Bool, true, false, List, [], ◌∷◌, ◌++◌, if◌then◌else◌, leb, ltb, ◌==◌,
  take, get_or, ◌%◌,
}
use cpa_keeper_dashboard.Prelude.Floats.{Floats}
use cpa_keeper_dashboard.Prelude.Sorting.{filter, sort_by, sum_by}
use cpa_keeper_dashboard.Prelude.Text.{Text, codes, is_empty}

-- An item of the response; a missing name is the empty text. `other` marks the remainder's item.
pub record Item : Type 0 where
  pub name : Text
  pub requests : ℕ
  pub other : Bool

abbrev pub more_requests : Item → Item → Bool
more_requests a b = leb b.requests a.requests

unfoldable pub ranked : List Item → List Item
ranked values = sort_by more_requests (filter (λ item. ltb 0 item.requests) values)

-- `|| 1`
unfoldable pub card_total : List Item → ℕ
card_total values = let sum = sum_by (λ item. item.requests) values in if sum == 0 then 1 else sum

abbrev pub rest_of : ℕ → Item
rest_of remainder = record { name = codes "其他"; requests = remainder; other = true }

abbrev pub with_rest : ℕ → List Item → List Item
with_rest remainder top = if ltb 0 remainder then top ++ (rest_of remainder ∷ []) else top

-- `Math.max(0, total - topTotal)`
unfoldable pub remainder : List Item → ℕ
unfolding card_total
remainder values = card_total values - sum_by (λ item. item.requests) (take 5 values)

-- `chartItems`, of the ranked values
unfoldable pub chart_items : List Item → List Item
unfolding remainder
chart_items values = with_rest (remainder values) (take 5 values)

abbrev pub unless_empty : ℕ → List Item → List Item
unless_empty remainder [] = []
unless_empty remainder (x ∷ xs) = with_rest remainder (x ∷ xs)

-- The items of the list, none of which is shown where no value has a request.
unfoldable pub list_items : List Item → List Item
unfolding remainder
list_items values = unless_empty (remainder values) (take 5 values)

abbrev colors : List Text
colors =
    codes "#326ff5"
    ∷ codes "#7738ee"
    ∷ codes "#20b95a"
    ∷ codes "#ff7a12"
    ∷ codes "#059669"
    ∷ codes "#e44e3f"
    ∷ []

unfoldable pub item_color : ℕ → Item → Text
item_color index item = if item.other then codes "#9aa7b8" else get_or colors (index % 6) []

-- `item.name || '未识别'`
unfoldable pub item_name : Item → Text
item_name item = if is_empty item.name then codes "未识别" else item.name

pub record Segment (F : Type 0) : Type 0 where
  pub index : ℕ
  pub item : Item
  pub percentage : F
  pub length : F
  pub offset : F

module _ {F : Type 0} ⦃f : Floats F⦄ where
  -- `Number(item.requests || 0) / total * whole`
  abbrev share : ℕ → F → Item → F
  share total whole item = f.mul (f.div (f.literal item.requests 1) (f.literal total 1)) whole

  -- The segments from an index and an offset on; the last one closes the ring.
  unfoldable pub segments_from :
      (circumference : F) (total index : ℕ) → F → List Item → List (Segment F)
  segments_from circumference total index offset [] = []
  segments_from circumference total index offset (item ∷ []) =
      record {
        index = index;
        item = item;
        percentage = share total (f.literal 100 1) item;
        length = f.max (f.literal 0 1) (f.sub circumference offset);
        offset = offset;
      }
      ∷ []
  segments_from circumference total index offset (item ∷ next ∷ items) =
      let length = share total circumference item in
      record {
        index = index;
        item = item;
        percentage = share total (f.literal 100 1) item;
        length = length;
        offset = offset;
      }
      ∷ segments_from circumference total (suc index) (f.add offset length) (next ∷ items)

  -- The segments of the ring, of the values of the response.
  unfoldable pub distribution_segments : F → List Item → List (Segment F)
  unfolding ranked card_total chart_items segments_from
  distribution_segments circumference values =
      segments_from circumference (card_total (ranked values)) 0 (f.literal 0 1)
        (chart_items (ranked values))

unfoldable pub distribution_list : List Item → List Item
unfolding ranked list_items
distribution_list values = list_items (ranked values)
