-- ===== src/Prelude/Interface.antt =====
-- Equality tests as an interface: JavaScript's `===` on numbers and texts, and the keys of maps.
use mathlib.Core.Logic.{◌↔◌}
use cpa_keeper_dashboard.Prelude.{
  ℕ, ◌≡◌, refl, Bool, true, false, ◌&&◌, List, [], ◌∷◌, arith, ==_iff, ◌==◌ as nat_beq,
}

pub record Eq {ℓ} (A : Type ℓ) : Type ℓ where
  pub beq : A → A → Bool
  pub beq_iff : (a b : A) → (beq a b ≡ true) ↔ (a ≡ b)

infix 50 ◌===◌
abbrev pub ◌===◌ {ℓ} : {A : Type ℓ} ⦃e : Eq A⦄ → A → A → Bool
◌===◌ ⦃e⦄ = e.beq

instance abbrev pub nat_eq : Eq ℕ
nat_eq = record { beq = nat_beq; beq_iff = ==_iff }

abbrev pub list_beq {ℓ} : {A : Type ℓ} ⦃e : Eq A⦄ → List A → List A → Bool
list_beq [] [] = true
list_beq [] (y ∷ ys) = false
list_beq (x ∷ xs) [] = false
list_beq ⦃e⦄ (x ∷ xs) (y ∷ ys) = e.beq x y && list_beq xs ys

pub list_beq_sound {ℓ} : {A : Type ℓ} ⦃e : Eq A⦄ (xs ys : List A) → list_beq xs ys ≡ true → xs ≡ ys
list_beq_sound [] [] h = refl
list_beq_sound [] (y ∷ ys) h = ground arith
list_beq_sound (x ∷ xs) [] h = ground arith
list_beq_sound ⦃e⦄ (x ∷ xs) (y ∷ ys) h = ground (arith, e.beq_iff x y, list_beq_sound xs ys)

pub list_beq_refl {ℓ} : {A : Type ℓ} ⦃e : Eq A⦄ (xs : List A) → list_beq xs xs ≡ true
list_beq_refl [] = refl
list_beq_refl ⦃e⦄ (x ∷ xs) = ground (arith, e.beq_iff x x, list_beq_refl xs)

pub list_beq_iff {ℓ} :
    {A : Type ℓ} ⦃e : Eq A⦄ (xs ys : List A) → (list_beq xs ys ≡ true) ↔ (xs ≡ ys)
list_beq_iff xs ys = (list_beq_sound xs ys, λ p. rw p (list_beq_refl ys))

instance abbrev pub list_eq {ℓ} : {A : Type ℓ} ⦃e : Eq A⦄ → Eq (List A)
list_eq = record { beq = list_beq; beq_iff = list_beq_iff }

pub beq_refl {ℓ} : {A : Type ℓ} ⦃e : Eq A⦄ (a : A) → (a === a) ≡ true
beq_refl ⦃e⦄ a = (e.beq_iff a a).1 refl
