-- ===== src/Prices/Picking.antt =====
-- A model that is chosen in the picker, and the other rows.
use cpa_keeper_dashboard.Prelude.{
  ℕ, zero, suc, ◌≡◌, ◌≢◌, refl, sym, false, ◌&&◌, not, some, List, [], ◌∷◌, ◌==◌, get_elem?, arith,
  Bool-cases, inl, inr,
}
use cpa_keeper_dashboard.Prelude.Interface.{◌===◌}
use cpa_keeper_dashboard.Prelude.Text.{Text, trim, text_eq}
use cpa_keeper_dashboard.Session.State.{is_empty}
use cpa_keeper_dashboard.Prices.Picker.{
  Row, Requested, selectable, Picker, has_text, configured_elsewhere, model_of, kind_of,
  picker_buttons, is_row, close_picker, click_picker, apply_model, select_model,
}

kind-selectable :
    (lower : Text → Text) (model : Text) (elsewhere : List Text) (name : Text)
    → kind_of lower model elsewhere name ≡ selectable
    → has_text lower (lower name) elsewhere ≡ false
kind-selectable lower model elsewhere name e =
    elim (Bool-cases (not (is_empty model) && lower name === lower model)) [
      | inl own ↦ absurd (ground arith)
      | inr other ↦ elim (Bool-cases (has_text lower (lower name) elsewhere)) [
        | inl taken ↦ absurd (ground arith)
        | inr free ↦ free
      ]
    ]

-- A button that is not of the row's own model and not disabled has a name that no other row has.
selectable-new :
    (lower : Text → Text) (model : Text) (elsewhere : List Text) (rs : List Requested) (i : ℕ)
    (name : Text)
    → get_elem? (picker_buttons lower model elsewhere rs) i ≡ some (selectable, name)
    → has_text lower (lower name) elsewhere ≡ false
unfolding picker_buttons
selectable-new lower model elsewhere [] i name e = absurd (ground arith)
selectable-new lower model elsewhere (r ∷ rs) zero name e =
    let q : r.name ≡ name = ground arith in
    let free : kind_of lower model elsewhere r.name ≡ selectable = ground arith in
    rw (sym q) (kind-selectable lower model elsewhere r.name free)
selectable-new lower model elsewhere (r ∷ rs) (suc i) name e =
    selectable-new lower model elsewhere rs i name e

module _ (lower : Text → Text) {D : Type 0} where
  -- The row has the model, and each other row that has one has another, in whatever case.
  abbrev pub AllApart : ℕ → Text → List (Row D) → Type 0
  AllApart id name [] = Unit
  AllApart id name (r ∷ rs) =
      (r.id ≡ id → r.model ≡ name)
      × (r.id ≢ id → is_empty (trim r.model) ≡ false → lower (trim r.model) ≢ lower name)
      × AllApart id name rs

  apart-row :
      (id : ℕ) (name : Text) (rs : List (Row D))
      → has_text lower (lower name) (configured_elsewhere lower id rs) ≡ false
      → AllApart id name (apply_model lower id name rs)
  unfolding apply_model has_text configured_elsewhere
  apart-row id name [] h = tt
  apart-row id name (r ∷ rs) h = elim (Bool-cases (r.id == id)) [
    | inl same ↦
        let e : r.id ≡ id = ground arith in
        rw same (λ _. refl, λ n. absurd (n e), apart-row id name rs (ground arith))
    | inr other ↦ elim (Bool-cases (is_empty (trim r.model))) [
      | inl none_there ↦ rw other (
        λ e. absurd (ground arith),
        λ n v. absurd (ground arith),
        apart-row id name rs (ground arith),
      )
      | inr there ↦
          let k : (lower (trim r.model) === lower name) ≡ false = ground arith in
          rw other (
            λ e. absurd (ground arith),
            λ n v q.
                let w = (text_eq.beq_iff (lower (trim r.model)) (lower name)).1 q in
                absurd (ground arith),
            apart-row id name rs (ground arith),
          )
    ]
  ]

  -- Where the picker is opened for a row, and then a button is clicked that is neither of the row's
  -- own model nor disabled, the row has the button's model, and no other row that has a model has
  -- this one, in whatever case it is written.
  pub select_model-AllApart :
      (requested : List Requested) (id i : ℕ) (name : Text) (s : Picker D)
      → (is_row lower s.row id && s.is_open) ≡ false
      → get_elem? (click_picker lower requested id s).buttons i ≡ some (selectable, name)
      → AllApart id name (select_model lower i (click_picker lower requested id s)).rows
  unfolding click_picker select_model close_picker
  select_model-AllApart requested id i name s shut button =
      let here = rw shut at button in
      let new =
        selectable-new lower (model_of lower id s.rows) (configured_elsewhere lower id s.rows)
          requested i name here in
      rw shut (rw here (apart-row id name s.rows new))
