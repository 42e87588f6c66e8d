-- ===== src/Prelude/Equality.antt =====
-- `PartialEq`: a Boolean equality that decides `≡`, as an instance; sequences have one if their
-- elements do.
use Prim.Native.Nat.{ℕ}
use mathlib.Core.Path.{◌≡◌, refl}
use mathlib.Core.Logic.{◌↔◌}
use mathlib.Core.Bool.{Bool, true, false, ◌&&◌}
use mathlib.Core.List.{List, [], ◌∷◌}
use mathlib.Core.Option.{Option, none, some}
use native.Mathlib.Omega.{arith}
use raemote_server.Prelude.Tests.{nat_eq, nat_eq_iff}

-- `eq` is the method of the trait, and `eq_iff_path` what its implementations in the source satisfy.
pub record Eq {κ} (Key : Type κ) : Type κ where
  pub eq : Key → Key → Bool
  pub eq_iff_path : (k j : Key) → (eq k j ≡ true) ↔ (k ≡ j)

infix 50 ◌==◌
abbrev pub ◌==◌ {κ} : {Key : Type κ} ⦃keys : Eq Key⦄ → Key → Key → Bool
◌==◌ ⦃keys⦄ k j = keys.eq k j

module _ {κ} {Key : Type κ} ⦃keys : Eq Key⦄ where
  pub eq_iff : (k j : Key) → ((k == j) ≡ true) ↔ (k ≡ j)
  eq_iff k j = keys.eq_iff_path k j

  pub eq_self : (k : Key) → (k == k) ≡ true
  eq_self k = (keys.eq_iff_path k k).1 refl

instance abbrev pub nat_instance : Eq ℕ
nat_instance = record { eq = nat_eq; eq_iff_path = nat_eq_iff }

module _ {ℓ} {A : Type ℓ} ⦃e : Eq A⦄ where
  abbrev pub list_eq : List A → List A → Bool
  list_eq [] [] = true
  list_eq [] (y ∷ ys) = false
  list_eq (x ∷ xs) [] = false
  list_eq (x ∷ xs) (y ∷ ys) = x == y && list_eq xs ys

  pub list_eq_iff : (xs ys : List A) → (list_eq xs ys ≡ true) ↔ (xs ≡ ys)
  list_eq_iff [] [] = ground arith
  list_eq_iff [] (y ∷ ys) = ground arith
  list_eq_iff (x ∷ xs) [] = ground arith
  list_eq_iff (x ∷ xs) (y ∷ ys) = ground (arith, e.eq_iff_path x y, list_eq_iff xs ys)

  abbrev pub option_eq : Option A → Option A → Bool
  option_eq none none = true
  option_eq none (some y) = false
  option_eq (some x) none = false
  option_eq (some x) (some y) = x == y

  pub option_eq_iff : (a b : Option A) → (option_eq a b ≡ true) ↔ (a ≡ b)
  option_eq_iff none none = ground arith
  option_eq_iff none (some y) = ground arith
  option_eq_iff (some x) none = ground arith
  option_eq_iff (some x) (some y) = ground (arith, e.eq_iff_path x y)

instance abbrev pub list_instance {ℓ} : {A : Type ℓ} ⦃e : Eq A⦄ → Eq (List A)
list_instance ⦃e⦄ = record { eq = list_eq; eq_iff_path = list_eq_iff }

instance abbrev pub option_instance {ℓ} : {A : Type ℓ} ⦃e : Eq A⦄ → Eq (Option A)
option_instance ⦃e⦄ = record { eq = option_eq; eq_iff_path = option_eq_iff }

pub some-injective : {A : Type 0} {a b : A} → some a ≡ some b → a ≡ b
some-injective h = ground arith

pub some-pair :
    {A B : Type 0} {r : A × B} {a : A} {b : B} → some r ≡ some (a, b) → (r.0 ≡ a) × (r.1 ≡ b)
some-pair h = ground arith
