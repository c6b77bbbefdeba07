-- ===== src/Prices/Picker.antt =====
-- The rows of the table of prices as its buttons change them, and the picker of models
-- (go/dashboard/app.js): the clicks in `bindSettings`, `getRequestedModelsList`, `applyModelToRow`
-- and `applyPriceFilter`. A row is known by a number.
use cpa_keeper_dashboard.Prelude.{
  ℕ, ◌+◌, Bool, true, false, ◌&&◌, ◌||◌, not, Option, none, some, List, [], ◌∷◌, ◌++◌, ◌==◌, leb,
  if◌then◌else◌, get_elem?,
}
use cpa_keeper_dashboard.Prelude.Interface.{◌===◌}
use cpa_keeper_dashboard.Prelude.OrdMap.{OrdMap, get, put}
use cpa_keeper_dashboard.Prelude.Text.{Text, codes, trim, text_eq}
use cpa_keeper_dashboard.Errors.{includes}
use cpa_keeper_dashboard.Session.State.{is_empty}

pub record Row (D : Type 0) : Type 0 where
  pub id : ℕ
  pub model : Text
  pub prices : D

pub record Requested : Type 0 where
  pub name : Text
  pub requests : ℕ

-- A button of the picker: of the row's own model, of one that another row has, or of another one.
pub data Kind : Type 0 where
  current configured selectable : Kind

pub record Picker (D : Type 0) : Type 0 where
  pub rows : List (Row D)
  pub next_id : ℕ
  pub is_open : Bool
  pub row : Option ℕ
  pub buttons : List (Kind × Text)

abbrev pub copy_name : Text → Text
copy_name [] = []
copy_name (c ∷ model) = (c ∷ model) ++ codes "-copy"

module _ (lower : Text → Text) where
  -- `knownRequestedModels`; the name 未识别 stands for none.
  unfoldable pub put_known : List Requested → OrdMap Text Requested → OrdMap Text Requested
  put_known [] m = m
  put_known (r ∷ rs) m = put_known rs (
      if is_empty r.name || r.name === (0x672a ∷ 0x8bc6 ∷ 0x522b ∷ [])
      then m
      else put (lower r.name) r m)

  abbrev pub put_new :
      Option Requested → Text → Requested → OrdMap Text Requested → OrdMap Text Requested
  put_new (some old) key r m = m
  put_new none key r m = put key r m

  -- The names that a table shows, in its order, if they are new.
  unfoldable pub put_shown : List Requested → OrdMap Text Requested → OrdMap Text Requested
  put_shown [] m = m
  put_shown (r ∷ rs) m =
      let name = trim r.name in
      let key = lower name in
      put_shown rs (
        if is_empty name
        then m
        else put_new (get key m) key (record { name = name; requests = r.requests }) m)

  -- `sort((a, b) => b.requests - a.requests)`
  unfoldable pub insert_requested : Requested → List Requested → List Requested
  insert_requested r [] = r ∷ []
  insert_requested r (x ∷ xs) =
      let rest = insert_requested r xs in if leb x.requests r.requests then r ∷ x ∷ xs else x ∷ rest

  unfoldable pub sort_values : OrdMap Text Requested → List Requested
  sort_values [] = []
  sort_values ((key, r) ∷ m) = insert_requested r (sort_values m)

  -- The names in the table of events count one request each.
  unfoldable pub once : List Text → List Requested
  once [] = []
  once (name ∷ names) = record { name = name; requests = 1 } ∷ once names

  unfoldable pub requested_models :
      (known models : List Requested) → (events : List Text) → List Requested
  requested_models known models events =
      sort_values (put_shown (once events) (put_shown models (put_known known [])))

  unfoldable pub has_text : Text → List Text → Bool
  has_text t [] = false
  has_text t (u ∷ us) = u === t || has_text t us

  -- `configuredElsewhere`
  unfoldable pub configured_elsewhere : {D : Type 0} → ℕ → List (Row D) → List Text
  configured_elsewhere id [] = []
  configured_elsewhere id (r ∷ rs) =
      let rest = configured_elsewhere id rs in
      if r.id == id || is_empty (trim r.model) then rest else lower (trim r.model) ∷ rest

  unfoldable pub model_of : {D : Type 0} → ℕ → List (Row D) → Text
  model_of id [] = []
  model_of id (r ∷ rs) = let rest = model_of id rs in if r.id == id then trim r.model else rest

  abbrev pub kind_of : Text → List Text → Text → Kind
  kind_of model elsewhere name =
      if not (is_empty model) && lower name === lower model
      then current
      else if has_text (lower name) elsewhere
      then configured
      else selectable

  unfoldable pub picker_buttons : Text → List Text → List Requested → List (Kind × Text)
  picker_buttons model elsewhere [] = []
  picker_buttons model elsewhere (r ∷ rs) =
      (kind_of model elsewhere r.name, r.name) ∷ picker_buttons model elsewhere rs

  abbrev pub is_row : Option ℕ → ℕ → Bool
  is_row none id = false
  is_row (some i) id = i == id

  module _ {D : Type 0} where
    unfoldable pub close_picker : Picker D → Picker D
    close_picker s = record s { is_open = false; row = none }

    -- A click on a row's button that opens the picker.
    unfoldable pub click_picker : List Requested → ℕ → Picker D → Picker D
    click_picker requested id s =
        if is_row s.row id && s.is_open then close_picker s else record s {
          row = some id;
          buttons = picker_buttons (model_of id s.rows) (configured_elsewhere id s.rows) requested;
          is_open = true;
        }

    unfoldable pub apply_model : ℕ → Text → List (Row D) → List (Row D)
    apply_model id name [] = []
    apply_model id name (r ∷ rs) =
        (if r.id == id then record r { model = name } else r) ∷ apply_model id name rs

    abbrev pub select : Option ℕ → Option (Kind × Text) → Picker D → Picker D
    select none button s = s
    select (some id) none s = s
    select (some id) (some (configured, name)) s = s
    select (some id) (some (kind, name)) s =
        close_picker (record s { rows = apply_model id name s.rows })

    -- A click on a button of the picker; those of configured models are disabled.
    unfoldable pub select_model : ℕ → Picker D → Picker D
    select_model i s = select s.row (get_elem? s.buttons i) s

    unfoldable pub remove_row : ℕ → List (Row D) → List (Row D)
    remove_row id [] = []
    remove_row id (r ∷ rs) = let rest = remove_row id rs in if r.id == id then rest else r ∷ rest

    unfoldable pub find_row : ℕ → List (Row D) → Option (Row D)
    find_row id [] = none
    find_row id (r ∷ rs) = if r.id == id then some r else find_row id rs

    abbrev pub append_copy : Option (Row D) → Picker D → Picker D
    append_copy none s = s
    append_copy (some r) s = record s {
      rows =
          s.rows ++ (record { id = s.next_id; model = copy_name r.model; prices = r.prices } ∷ []);
      next_id = s.next_id + 1;
    }

    unfoldable pub clone_row : ℕ → Picker D → Picker D
    clone_row id s = append_copy (find_row id s.rows) s

    -- `applyPriceFilter`: whether each row is hidden.
    unfoldable pub hidden_rows : Text → List (Row D) → List Bool
    hidden_rows query [] = []
    hidden_rows query (r ∷ rs) =
        let q = lower (trim query) in
        (not (is_empty q) && not (includes q (lower r.model))) ∷ hidden_rows query rs
