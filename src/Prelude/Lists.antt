-- ===== src/Prelude/Lists.antt =====
-- Lists measured, indexed and counted by native numbers, under the library's names.
use Prim.Native.Nat.{ℕ, zero, suc, ◌+◌, ◌-◌, min}
use mathlib.Core.Path.{◌≡◌, refl}
use mathlib.Core.Bool.{Bool, true, false, ◌||◌}
use mathlib.Core.List.{List, [], ◌∷◌, ◌++◌, reverse, reverse-cons}
use native.Mathlib.Omega.{arith}
use quail.Prelude.Tests.{◌==◌, if◌then◌else◌}

module _ {ℓ} {A : Type ℓ} where
  abbrev pub length : List A → ℕ
  length [] = 0
  length (x ∷ xs) = suc (length xs)

  abbrev pub take : ℕ → List A → List A
  take zero xs = []
  take (suc n) [] = []
  take (suc n) (x ∷ xs) = x ∷ take n xs

  abbrev pub drop : ℕ → List A → List A
  drop zero xs = xs
  drop (suc n) [] = []
  drop (suc n) (x ∷ xs) = drop n xs

  pub length-append : (xs ys : List A) → length (xs ++ ys) ≡ length xs + length ys
  length-append [] ys = omega arith
  length-append (x ∷ xs) ys = omega (arith, length-append xs ys)

  pub take-append-drop : (n : ℕ) (xs : List A) → take n xs ++ drop n xs ≡ xs
  take-append-drop zero xs = refl
  take-append-drop (suc n) [] = refl
  take-append-drop (suc n) (x ∷ xs) = rw (take-append-drop n xs)

  pub length-take : (n : ℕ) (xs : List A) → length (take n xs) ≡ min n (length xs)
  length-take zero xs = omega arith
  length-take (suc n) [] = omega arith
  length-take (suc n) (x ∷ xs) = omega (arith, length-take n xs)

  pub length-drop : (n : ℕ) (xs : List A) → length (drop n xs) ≡ length xs - n
  length-drop zero xs = omega arith
  length-drop (suc n) [] = omega arith
  length-drop (suc n) (x ∷ xs) = omega (arith, length-drop n xs)

  -- `[x for x in xs if keep(x)]`
  abbrev pub keep_if : (A → Bool) → List A → List A
  keep_if f [] = []
  keep_if f (x ∷ xs) = let rest = keep_if f xs in if f x then x ∷ rest else rest

-- The number of times that a page or a slot stands in a list.
abbrev pub count : ℕ → List ℕ → ℕ
count p [] = 0
count p (x ∷ xs) = (if x == p then 1 else 0) + count p xs

-- `p in xs`
abbrev pub member : ℕ → List ℕ → Bool
member p [] = false
member p (x ∷ xs) = (x == p) || member p xs

pub count-append : (p : ℕ) (xs ys : List ℕ) → count p (xs ++ ys) ≡ count p xs + count p ys
count-append p [] ys = omega arith
count-append p (x ∷ xs) ys = omega (arith, count-append p xs ys)

pub count-reverse : (p : ℕ) (xs : List ℕ) → count p (reverse xs) ≡ count p xs
count-reverse p [] = refl
count-reverse p (x ∷ xs) =
    rw (reverse-cons x xs) (omega (arith, count-append p (reverse xs) (x ∷ []), count-reverse p xs))

pub count-take-drop :
    (p n : ℕ) (xs : List ℕ) → count p (take n xs) + count p (drop n xs) ≡ count p xs
count-take-drop p zero xs = omega arith
count-take-drop p (suc n) [] = omega arith
count-take-drop p (suc n) (x ∷ xs) = omega (arith, count-take-drop p n xs)

pub member-count : (p : ℕ) (xs : List ℕ) → member p xs ≡ (if count p xs == 0 then false else true)
member-count p [] = refl
member-count p (x ∷ xs) = ground (arith, member-count p xs)

pub count-keep_if :
    (p : ℕ) (f : ℕ → Bool) (xs : List ℕ) → count p (keep_if f xs) ≡ (if f p then count p xs else 0)
count-keep_if p f [] = ground arith
count-keep_if p f (x ∷ xs) = ground (arith, count-keep_if p f xs)
