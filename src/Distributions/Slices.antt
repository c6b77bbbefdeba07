-- ===== src/Distributions/Slices.antt =====
-- What the ring of a distribution shows (`distributionCard`).
use cpa_keeper_dashboard.Prelude.{
  ℕ, suc, ◌+◌, ◌-◌, ◌≤◌, ◌≡◌, refl, sym, ap, ◌∙◌, List, [], ◌∷◌, map, max, ltb, take, length, arith,
  length-take, length-append, length-map, ◌<◌,
}
use cpa_keeper_dashboard.Prelude.Floats.{Floats}
use cpa_keeper_dashboard.Prelude.Sorting.{
  All, sum_by, filter, sum_by-append, sum_by-filter_positive, sum_by-sort_by, All-sort_by,
  All-filter, sum_by-take-drop,
}
use cpa_keeper_dashboard.Distributions.{
  Item, more_requests, ranked, card_total, rest_of, remainder, chart_items, segments_from,
  distribution_segments, distribution_list, list_items,
}

abbrev pub requests_of : Item → ℕ
requests_of item = item.requests

sum_by-ranked :
    (values : List Item) → sum_by requests_of (ranked values) ≡ sum_by requests_of values
unfolding ranked
sum_by-ranked values =
    sum_by-sort_by more_requests requests_of (filter (λ item. ltb 0 item.requests) values)
    ∙ sum_by-filter_positive requests_of values

-- The items that the ring shows, as the segments carry them.
items_of-segments_from :
    {F : Type 0} ⦃f : Floats F⦄ (c : F) (total index : ℕ) (offset : F) (items : List Item)
    → map (λ s. s.item) (segments_from c total index offset items) ≡ items
unfolding segments_from
items_of-segments_from c total index offset [] = refl
items_of-segments_from c total index offset (x ∷ []) = refl
items_of-segments_from c total index offset (x ∷ y ∷ r) =
    ap (λ l. x ∷ l) (items_of-segments_from c total (suc index) _ (y ∷ r))

sum_by-chart_items :
    (values : List Item) → sum_by requests_of (chart_items values) ≡ card_total values
unfolding chart_items remainder card_total
sum_by-chart_items values = ground (
  arith,
  sum_by-append requests_of (take 5 values)
      (rest_of (card_total values - sum_by requests_of (take 5 values)) ∷ []),
  sum_by-take-drop requests_of 5 values,
)

sum_by-list_items :
    (values : List Item)
    → All (λ item. 0 < item.requests) values
    → sum_by requests_of (list_items values) ≡ sum_by requests_of values
unfolding list_items remainder card_total
sum_by-list_items [] positive = refl
sum_by-list_items (x ∷ xs) positive = ground (
  arith,
  sum_by-append requests_of (take 5 (x ∷ xs))
      (rest_of (card_total (x ∷ xs) - sum_by requests_of (take 5 (x ∷ xs))) ∷ []),
  sum_by-take-drop requests_of 5 (x ∷ xs),
)

ranked-positive : (values : List Item) → All (λ item. 0 < item.requests) (ranked values)
unfolding ranked
ranked-positive values =
    All-sort_by more_requests _ _ (All-filter _ _ values (λ item h. ground arith))

length-chart_items : (values : List Item) → length (chart_items values) ≤ 6
unfolding chart_items remainder
length-chart_items values = ground (
  arith,
  length-append (take 5 values)
      (rest_of (card_total values - sum_by requests_of (take 5 values)) ∷ []),
  length-take 5 values,
)

sum_by-map :
    {A : Type 0} {B : Type 0} (f : B → ℕ) (g : A → B) (xs : List A)
    → sum_by f (map g xs) ≡ sum_by (λ x. f (g x)) xs
sum_by-map f g [] = refl
sum_by-map f g (x ∷ xs) = ap (λ n. f (g x) + n) (sum_by-map f g xs)

card_total-ranked : (values : List Item) → card_total (ranked values) ≡ card_total values
unfolding card_total
card_total-ranked values = rw (sum_by-ranked values) refl

card_total-max : (values : List Item) → card_total values ≡ max 1 (sum_by requests_of values)
unfolding card_total
card_total-max values = ground arith

-- The segments of a ring, at most six, together stand for all the requests of the values, whatever
-- is left out of the list, and so do the rows beside the ring; where no value has a request there are
-- no requests in the rows, but the ring is drawn as for one request.
pub distribution_segments-requests :
    {F : Type 0} ⦃f : Floats F⦄ (circumference : F) (values : List Item)
    → (sum_by (λ s. requests_of s.item) (distribution_segments circumference values)
        ≡ max 1 (sum_by requests_of values))
      × (sum_by requests_of (distribution_list values) ≡ sum_by requests_of values)
      × (length (distribution_segments circumference values) ≤ 6)
unfolding distribution_segments distribution_list card_total
distribution_segments-requests {F} ⦃f⦄ circumference values =
    let shown =
      segments_from circumference (card_total (ranked values)) 0 (f.literal 0 1)
        (chart_items (ranked values)) in
    let items : map (λ s. s.item) shown ≡ chart_items (ranked values) =
      items_of-segments_from circumference (card_total (ranked values)) 0 _
        (chart_items (ranked values)) in
    (
      sym (sum_by-map requests_of (λ s. s.item) shown)
          ∙ ap (sum_by requests_of) items
          ∙ sum_by-chart_items (ranked values)
          ∙ card_total-ranked values
          ∙ card_total-max values,
      sum_by-list_items (ranked values) (ranked-positive values) ∙ sum_by-ranked values,
      omega (
        arith,
        ap length items,
        length-map shown (λ s. s.item),
        length-chart_items (ranked values),
      ),
    )
