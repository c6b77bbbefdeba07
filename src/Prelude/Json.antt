-- ===== src/Prelude/Json.antt =====
-- The values that `JSON.parse` gives. `N` is the type of the numbers; the properties of an object
-- stand in the order of `Object.values`, each name once.
use cpa_keeper_dashboard.Prelude.{
  ℕ, zero, suc, Bool, true, false, not, Option, none, some, List, [], ◌∷◌, ◌++◌, if◌then◌else◌,
}
use cpa_keeper_dashboard.Prelude.Interface.{◌===◌}
use cpa_keeper_dashboard.Prelude.Text.{Text, codes, text_eq}

mutual
  pub data Json (N : Type 0) : Type 0 where
    null : Json N
    bool : Bool → Json N
    num : N → Json N
    str : Text → Json N
    arr : Items N → Json N
    obj : Members N → Json N

  pub data Items (N : Type 0) : Type 0 where
    no_items : Items N
    item : Json N → Items N → Items N

  pub data Members (N : Type 0) : Type 0 where
    no_members : Members N
    member : Text → Json N → Members N → Members N

module _ {N : Type 0} where
  -- `value[name]`, `none` for undefined.
  abbrev pub property : Text → Members N → Option (Json N)
  property name no_members = none
  property name (member n v ms) = if n === name then some v else property name ms

-- What can throw, as an Option.
infixl 5 ◌>>=◌
abbrev pub ◌>>=◌ {ℓ κ} : {A : Type ℓ} {B : Type κ} → Option A → (A → Option B) → Option B
none >>= f = none
some a >>= f = f a

-- JavaScript's numbers, as far as the program computes with those that JSON brings.
pub record Numbers (N : Type 0) : Type 0 where
  pub zero : N
  pub one : N
  pub half : N
  pub three : N
  pub times : N → N → N
  pub is_falsy : N → Bool  -- 0 and NaN
  pub of_text : Text → N  -- `Number(text)`
  pub to_text : N → Text  -- `String(number)`

module _ {N : Type 0} where
  -- `value.name` for a name that only objects have.
  abbrev pub own : Text → Json N → Option (Json N)
  own name (obj ms) = property name ms
  own name _ = none

  -- `values[i]`
  abbrev pub item_at : Items N → ℕ → Option (Json N)
  item_at no_items i = none
  item_at (item v vs) zero = some v
  item_at (item v vs) (suc i) = item_at vs i

module _ {N : Type 0} (k : Numbers N) where
  abbrev pub is_truthy : Json N → Bool
  is_truthy null = false
  is_truthy (bool b) = b
  is_truthy (num n) = not (k.is_falsy n)
  is_truthy (str []) = false
  is_truthy (str (c ∷ s)) = true
  is_truthy (arr vs) = true
  is_truthy (obj ms) = true

  -- `a || b || … || last`
  abbrev pub first_truthy : List (Option (Json N)) → Json N → Json N
  first_truthy [] last = last
  first_truthy (none ∷ vs) last = first_truthy vs last
  first_truthy (some v ∷ vs) last = if is_truthy v then v else first_truthy vs last

  -- `a ?? b ?? … ?? last`
  abbrev pub first_given : List (Option (Json N)) → Json N → Json N
  first_given [] last = last
  first_given (none ∷ vs) last = first_given vs last
  first_given (some null ∷ vs) last = first_given vs last
  first_given (some v ∷ vs) last = v

  -- An element of an array in the text of the array.
  abbrev pub or_blank : Json N → Option Text → Option Text
  or_blank null t = some []
  or_blank v t = t

  -- An object that has a property of this name cannot be made a text: it is no function.
  abbrev pub object_text : Option (Json N) → Option Text
  object_text none = some (codes "[object Object]")
  object_text (some v) = none

  unfoldable mutual
    -- `String(value)`, `none` where it throws.
    pub string_of : Json N → Option Text
    string_of null = some (codes "null")
    string_of (bool true) = some (codes "true")
    string_of (bool false) = some (codes "false")
    string_of (num n) = some (k.to_text n)
    string_of (str s) = some s
    string_of (arr vs) = join_items vs
    string_of (obj ms) = object_text (property (codes "toString") ms)

    pub join_items : Items N → Option Text
    join_items no_items = some []
    join_items (item v vs) = do
      first ← or_blank v (string_of v)
      rest ← join_rest vs
      some (first ++ rest)

    pub join_rest : Items N → Option Text
    join_rest no_items = some []
    join_rest (item v vs) = do
      first ← or_blank v (string_of v)
      rest ← join_rest vs
      some (b',' ∷ first ++ rest)

  -- `Number(value)`
  unfoldable pub number_of : Json N → Option N
  number_of null = some k.zero
  number_of (bool true) = some k.one
  number_of (bool false) = some k.zero
  number_of (num n) = some n
  number_of (str s) = some (k.of_text s)
  number_of (arr vs) = do t ← join_items vs; some (k.of_text t)
  number_of (obj ms) = do t ← object_text (property (codes "toString") ms); some (k.of_text t)
