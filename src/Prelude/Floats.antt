-- ===== src/Prelude/Floats.antt =====
-- All that the program does with doubles outside JSON: literals, arithmetic, comparisons, `Math.min`
-- and `Math.max`. No law of rounding is used; the order is total only away from NaN, the value that
-- is not `<=` itself.
use cpa_keeper_dashboard.Prelude.{
  ℕ, ◌+◌, ◌-◌, ◌*◌, ◌/◌, ◌≡◌, refl, Bool, true, false, Option, none, some, arith, leb, ltb, min,
  max, if◌then◌else◌,
}

pub record Floats (F : Type 0) : Type 0 where
  pub literal : ℕ → ℕ → F  -- the double nearest to a fraction
  pub add : F → F → F
  pub sub : F → F → F
  pub mul : F → F → F
  pub div : F → F → F
  pub le : F → F → Bool
  pub lt : F → F → Bool
  pub min : F → F → F  -- `Math.min`
  pub max : F → F → F  -- `Math.max`
  pub abs : F → F  -- `Math.abs`
  pub log10 : F → F
  pub is_falsy : F → Bool  -- 0 and NaN

infix 4 ◌≼◌
abbrev pub ◌≼◌ : {F : Type 0} ⦃f : Floats F⦄ → F → F → Type 0
◌≼◌ ⦃f⦄ x y = f.le x y ≡ true

-- Not NaN.
abbrev pub IsNumber : {F : Type 0} ⦃f : Floats F⦄ → F → Type 0
IsNumber x = x ≼ x

pub record IsOrdered (F : Type 0) ⦃f : Floats F⦄ : Type 0 where
  pub literal-IsNumber : (n d : ℕ) → IsNumber (f.literal n d)
  pub zero_le_one : f.literal 0 1 ≼ f.literal 1 1
  pub max-IsNumber : (x y : F) → IsNumber x → IsNumber y → IsNumber (f.max x y)
  pub min-IsNumber : (x y : F) → IsNumber x → IsNumber y → IsNumber (f.min x y)
  pub max_le : (x y z : F) → x ≼ z → y ≼ z → f.max x y ≼ z
  pub le_max : (x y : F) → IsNumber x → IsNumber y → x ≼ f.max x y
  pub min_le : (x y : F) → IsNumber x → IsNumber y → f.min x y ≼ x
  pub le_min : (z x y : F) → z ≼ x → z ≼ y → z ≼ f.min x y

-- That the order is linear on what is not NaN.
pub record IsLinear (F : Type 0) ⦃f : Floats F⦄ : Type 0 where
  pub le_trans : (x y z : F) → x ≼ y → y ≼ z → x ≼ z
  pub le_of_lt : (x y : F) → f.lt x y ≡ true → x ≼ y
  pub le_of_not_lt : (x y : F) → IsNumber x → IsNumber y → f.lt x y ≡ false → y ≼ x

-- The laws can be met: whole tenths, with `none` for NaN.
abbrev pub Tenths : Type 0
Tenths = Option ℕ

abbrev pub on_tenths : {A : Type 0} → A → (ℕ → ℕ → A) → Tenths → Tenths → A
on_tenths nan g (some a) (some b) = g a b
on_tenths nan g _ _ = nan

instance abbrev pub tenths : Floats Tenths
tenths = record {
  literal = λ n d. some (10 * n / d);
  add = on_tenths none (λ a b. some (a + b));
  sub = on_tenths none (λ a b. some (a - b));
  mul = on_tenths none (λ a b. some (a * b / 10));
  div = on_tenths none (λ a b. if ltb 0 b then some (10 * a / b) else none);
  le = on_tenths false leb;
  lt = on_tenths false ltb;
  min = on_tenths none (λ a b. some (min a b));
  max = on_tenths none (λ a b. some (max a b));
  abs = λ a. a;
  log10 = λ a. some 0;
  is_falsy = λ a. false;
}

instance pub Tenths-IsOrdered : IsOrdered Tenths
Tenths-IsOrdered = record {
  literal-IsNumber = λ n d. ground arith;
  zero_le_one = refl;
  max-IsNumber = max_number;
  min-IsNumber = min_number;
  max_le = max_le_both;
  le_max = le_max_left;
  min_le = min_le_left;
  le_min = le_min_both;
}
  where
    max_number : (x y : Tenths) → IsNumber x → IsNumber y → IsNumber (tenths.max x y)
    max_number = ground arith

    min_number : (x y : Tenths) → IsNumber x → IsNumber y → IsNumber (tenths.min x y)
    min_number = ground arith

    max_le_both : (x y z : Tenths) → x ≼ z → y ≼ z → tenths.max x y ≼ z
    max_le_both = ground arith

    le_max_left : (x y : Tenths) → IsNumber x → IsNumber y → x ≼ tenths.max x y
    le_max_left = ground arith

    min_le_left : (x y : Tenths) → IsNumber x → IsNumber y → tenths.min x y ≼ x
    min_le_left = ground arith

    le_min_both : (z x y : Tenths) → z ≼ x → z ≼ y → z ≼ tenths.min x y
    le_min_both = ground arith

instance pub Tenths-IsLinear : IsLinear Tenths
Tenths-IsLinear = record { le_trans = trans; le_of_lt = of_lt; le_of_not_lt = of_not_lt }
  where
    trans : (x y z : Tenths) → x ≼ y → y ≼ z → x ≼ z
    trans = ground arith

    of_lt : (x y : Tenths) → tenths.lt x y ≡ true → x ≼ y
    of_lt = ground arith

    of_not_lt : (x y : Tenths) → IsNumber x → IsNumber y → tenths.lt x y ≡ false → y ≼ x
    of_not_lt = ground arith
