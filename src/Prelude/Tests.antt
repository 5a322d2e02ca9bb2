-- ===== src/Prelude/Tests.antt =====
-- Boolean tests on the native numbers, the conditional, and the interface of `==` on dictionary
-- keys.
use Prim.Native.Nat.{ℕ, ◌≤◌, ◌<◌, compare, Ordering}
use mathlib.Core.Path.{◌≡◌, refl}
use mathlib.Core.Logic.{◌↔◌, ◌⊎◌, inl, inr}
use mathlib.Core.Bool.{Bool, true, false, ◌&&◌}
use mathlib.Core.Option.{Option, none, some}
use mathlib.Core.List.{List, [], ◌∷◌}
use native.Mathlib.Omega.{arith}

abbrev pub ltb : ℕ → ℕ → Bool
ltb a b = elim (compare a b) [ Ordering.lt ↦ true | _ ↦ false ]

abbrev pub leb : ℕ → ℕ → Bool
leb a b = elim (compare a b) [ Ordering.gt ↦ false | _ ↦ true ]

infix 50 ◌==◌
abbrev pub ◌==◌ : ℕ → ℕ → Bool
a == b = elim (compare a b) [ Ordering.eq ↦ true | _ ↦ false ]

infix 1 if◌then◌else◌
abbrev pub if◌then◌else◌ {ℓ} : {A : Type ℓ} → Bool → A → A → A
if true then x else y = x
if false then x else y = y

pub ltb→lt : (a b : ℕ) → ltb a b ≡ true → a < b
ltb→lt a b h = ground arith

pub leb→le : (a b : ℕ) → leb a b ≡ true → a ≤ b
leb→le a b h = ground arith

pub leb_false→lt : (a b : ℕ) → leb a b ≡ false → b < a
leb_false→lt a b h = ground arith

pub ==_iff : (a b : ℕ) → ((a == b) ≡ true) ↔ (a ≡ b)
==_iff a b = ground arith

-- To split on a computed value and keep the equation.
pub Bool-cases : (b : Bool) → (b ≡ true) ⊎ (b ≡ false)
Bool-cases true = inl refl
Bool-cases false = inr refl

pub Option-cases {ℓ} : {A : Type ℓ} (o : Option A) → (o ≡ none) ⊎ ((a : A) × (o ≡ some a))
Option-cases none = inl refl
Option-cases (some a) = inr (a, refl)

abbrev pub is_some {ℓ} : {A : Type ℓ} → Option A → Bool
is_some none = false
is_some (some a) = true

-- Python's `==` on the keys of a dictionary.
pub record Eq {ℓ} (K : Type ℓ) : Type ℓ where
  pub same : K → K → Bool
  pub same_iff : (a b : K) → (same a b ≡ true) ↔ (a ≡ b)

instance abbrev pub nat_eq : Eq ℕ
nat_eq = record { same = ◌==◌; same_iff = ==_iff }

module _ {ℓ κ} {A : Type ℓ} {B : Type κ} ⦃a : Eq A⦄ ⦃b : Eq B⦄ where
  abbrev same_pair : A × B → A × B → Bool
  same_pair p q = a.same p.0 q.0 && b.same p.1 q.1

  pub same_pair_iff : (p q : A × B) → (same_pair p q ≡ true) ↔ (p ≡ q)
  same_pair_iff p q = ground (arith, a.same_iff p.0 q.0, b.same_iff p.1 q.1)

  instance abbrev pub pair_eq : Eq (A × B)
  pair_eq = record { same = same_pair; same_iff = same_pair_iff }

module _ {ℓ} {A : Type ℓ} ⦃a : Eq A⦄ where
  unfoldable pub same_list : List A → List A → Bool
  same_list [] [] = true
  same_list (x ∷ xs) (y ∷ ys) = a.same x y && same_list xs ys
  same_list xs ys = false

  pub same_list_iff : (xs ys : List A) → (same_list xs ys ≡ true) ↔ (xs ≡ ys)
  unfolding same_list
  same_list_iff [] [] = ground arith
  same_list_iff (x ∷ xs) [] = ground arith
  same_list_iff [] (y ∷ ys) = ground arith
  same_list_iff (x ∷ xs) (y ∷ ys) = ground (arith, a.same_iff x y, same_list_iff xs ys)

  instance abbrev pub list_eq : Eq (List A)
  list_eq = record { same = same_list; same_iff = same_list_iff }
