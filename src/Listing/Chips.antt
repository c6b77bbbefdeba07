-- ===== src/Listing/Chips.antt =====
-- The chips of the filters that are set (go/dashboard/app.js, `renderEventFilterChips`).
use cpa_keeper_dashboard.Prelude.{
  ◌≡◌, refl, sym, ap, ◌∙◌, Bool, true, false, ◌||◌, not, Option, none, some, List, [], ◌∷◌,
  if◌then◌else◌, arith, Bool-cases, inl, inr,
}
use cpa_keeper_dashboard.Prelude.Interface.{◌===◌}
use cpa_keeper_dashboard.Prelude.OrdMap.{OrdMap, get, delete, get-delete, delete_absent}
use cpa_keeper_dashboard.Prelude.Sorting.{filter, All}
use cpa_keeper_dashboard.Prelude.Text.{Text, codes, text_eq}
use cpa_keeper_dashboard.Session.State.{is_empty}
use cpa_keeper_dashboard.Listing.{Listing, remove_filter, load_events, has_key}

pub record Chip : Type 0 where
  pub name : Text
  pub label : Text
  pub value : Text

abbrev chip_names : List (Text × Text)
chip_names =
    (codes "q", codes "搜索")
    ∷ (codes "provider", codes "Provider")
    ∷ (codes "model", codes "模型")
    ∷ (codes "status", codes "状态")
    ∷ (codes "upstream", codes "上游筛选")
    ∷ []

-- `statusLabels[value] || value`
abbrev status_label : Text → Text
status_label value =
    if value === codes "success"
    then codes "成功"
    else if value === codes "failure"
    then codes "失败"
    else value

-- The text of the selected option, where its value is that of the filter.
abbrev option_text : Option (Text × Text) → Text → Text
option_text none value = value
option_text (some (v, text)) value = if v === value then text else value

-- `selected` gives the value and the text of the option that the form's field has selected.
unfoldable pub display_value : (selected : Text → Option (Text × Text)) → (name value : Text) → Text
display_value selected name value =
    if name === codes "upstream"
    then codes "已选"
    else if name === codes "status"
    then status_label value
    else if name === codes "provider" || name === codes "model"
    then option_text (selected name) value
    else value

abbrev pub is_other : Text → Chip → Bool
is_other name chip = not (name === chip.name)

get-delete_eq :
    (name k : Text) (m : OrdMap Text Text) (b : Bool)
    → (name === k) ≡ b
    → get k (delete name m) ≡ (if b then none else get k m)
get-delete_eq name k m b e = get-delete name k m ∙ ap (λ (c : Bool). if c then none else get k m) e

module _ (selected : Text → Option (Text × Text)) where
  abbrev add_chip : Text × Text → Option Text → List Chip → List Chip
  add_chip n none rest = rest
  add_chip n (some value) rest =
      if is_empty value
      then rest
      else record { name = n.0; label = n.1; value = display_value selected n.0 value } ∷ rest

  unfoldable pub chips_of : List (Text × Text) → OrdMap Text Text → List Chip
  unfolding display_value
  chips_of [] filters = []
  chips_of (n ∷ ns) filters = add_chip n (get n.0 filters) (chips_of ns filters)

  unfoldable pub event_filter_chips : OrdMap Text Text → List Chip
  unfolding chips_of
  event_filter_chips filters = chips_of chip_names filters

  add_chip-kept :
      (name : Text) (n : Text × Text) (o : Option Text) (rest : List Chip)
      → (name === n.0) ≡ false
      → filter (is_other name) (add_chip n o rest) ≡ add_chip n o (filter (is_other name) rest)
  add_chip-kept name n none rest h = refl
  add_chip-kept name n (some value) rest h = ground arith

  add_chip-removed :
      (name : Text) (n : Text × Text) (o : Option Text) (rest : List Chip)
      → (name === n.0) ≡ true
      → filter (is_other name) (add_chip n o rest) ≡ filter (is_other name) rest
  add_chip-removed name n none rest h = refl
  add_chip-removed name n (some value) rest h = ground arith

  chips_of-delete :
      (name : Text) (ns : List (Text × Text)) (filters : OrdMap Text Text)
      → chips_of ns (delete name filters) ≡ filter (is_other name) (chips_of ns filters)
  unfolding chips_of
  chips_of-delete name [] filters = refl
  chips_of-delete name (n ∷ ns) filters = elim (Bool-cases (name === n.0)) [
    | inl same ↦
        ap (λ o. add_chip n o (chips_of ns (delete name filters)))
          (get-delete_eq name n.0 filters true same)
        ∙ chips_of-delete name ns filters
        ∙ sym (add_chip-removed name n (get n.0 filters) (chips_of ns filters) same)
    | inr other ↦
        ap (λ o. add_chip n o (chips_of ns (delete name filters)))
          (get-delete_eq name n.0 filters false other)
        ∙ ap (add_chip n (get n.0 filters)) (chips_of-delete name ns filters)
        ∙ sym (add_chip-kept name n (get n.0 filters) (chips_of ns filters) other)
  ]

  -- No chip is for a filter without a name.
  chips_of-named :
      (ns : List (Text × Text)) (filters : OrdMap Text Text)
      → All (λ n. ([] === n.0) ≡ false) ns
      → filter (is_other []) (chips_of ns filters) ≡ chips_of ns filters
  unfolding chips_of
  chips_of-named [] filters a = refl
  chips_of-named (n ∷ ns) filters a =
      add_chip-kept [] n (get n.0 filters) (chips_of ns filters) a.0
      ∙ ap (add_chip n (get n.0 filters)) (chips_of-named ns filters a.1)

  absent_lem :
      (name : Text) (filters : OrdMap Text Text)
      → (is_empty name || not (has_key (get name filters))) ≡ true
      → event_filter_chips filters ≡ filter (is_other name) (event_filter_chips filters)
  unfolding event_filter_chips has_key
  absent_lem [] filters h =
      sym (chips_of-named chip_names filters (refl, (refl, (refl, (refl, (refl, tt))))))
  absent_lem (c ∷ name) filters h =
      let absent : get (c ∷ name) filters ≡ none = ground arith in
      ap (chips_of chip_names) (sym (delete_absent (c ∷ name) filters absent))
      ∙ chips_of-delete (c ∷ name) chip_names filters

  -- With what the form's fields have selected left as it is.
  remove_filter-chips_same :
      {D : Type 0} (name : Text) (s : Listing D)
      → event_filter_chips (remove_filter name s).event_filters
        ≡ filter (is_other name) (event_filter_chips s.event_filters)
  unfolding remove_filter load_events event_filter_chips
  remove_filter-chips_same name s =
      elim (Bool-cases (is_empty name || not (has_key (get name s.event_filters)))) [
        | inl absent ↦ rw absent (absent_lem name s.event_filters absent)
        | inr held ↦ rw held (chips_of-delete name chip_names s.event_filters)
      ]

module _ (selected selected' : Text → Option (Text × Text)) where
  -- Two selections that differ at most in the field of one name.
  abbrev pub AgreeBut : Text → Type 0
  AgreeBut name = (n : Text) → (name === n) ≡ false → selected' n ≡ selected n

  add_chip-agree :
      (name : Text) (n : Text × Text) (o : Option Text) (rest : List Chip)
      → AgreeBut name
      → (name === n.0) ≡ false
      → add_chip selected' n o rest ≡ add_chip selected n o rest
  unfolding display_value
  add_chip-agree name n none rest a h = refl
  add_chip-agree name n (some value) rest a h = rw (a n.0 h) refl

  chips_of-agree :
      (name : Text) (ns : List (Text × Text)) (filters : OrdMap Text Text)
      → AgreeBut name
      → filter (is_other name) (chips_of selected' ns filters)
        ≡ filter (is_other name) (chips_of selected ns filters)
  unfolding chips_of
  chips_of-agree name [] filters a = refl
  chips_of-agree name (n ∷ ns) filters a = elim (Bool-cases (name === n.0)) [
    | inl same ↦
        add_chip-removed selected' name n (get n.0 filters) (chips_of selected' ns filters) same
        ∙ chips_of-agree name ns filters a
        ∙ sym
            (add_chip-removed selected name n (get n.0 filters) (chips_of selected ns filters) same)
    | inr other ↦
        add_chip-kept selected' name n (get n.0 filters) (chips_of selected' ns filters) other
        ∙ add_chip-agree name n (get n.0 filters)
            (filter (is_other name) (chips_of selected' ns filters)) a other
        ∙ ap (add_chip selected n (get n.0 filters)) (chips_of-agree name ns filters a)
        ∙ sym (add_chip-kept selected name n (get n.0 filters) (chips_of selected ns filters) other)
  ]

  -- A click on a chip's button, which gives the name of a filter, leaves exactly the chips of the other
  -- filters, in their order, and each with the text that the selection of the form at the click gives
  -- it; the click itself may change what is selected in the field of the removed filter, and in no
  -- other.
  pub remove_filter-chips :
      {D : Type 0} (name : Text) (s : Listing D)
      → AgreeBut name
      → event_filter_chips selected' (remove_filter name s).event_filters
        ≡ filter (is_other name) (event_filter_chips selected s.event_filters)
  remove_filter-chips name s a =
      remove_filter-chips_same selected' name s
      ∙ (unfold event_filter_chips in chips_of-agree name chip_names s.event_filters a)
