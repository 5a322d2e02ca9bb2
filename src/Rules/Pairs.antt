-- ===== src/Rules/Pairs.antt =====
-- quail/logical/nodes: a test of the rows of a join's side is a test of its pairs.
use quail.Prelude.{
  ℕ, ◌≡◌, inl, inr, refl, sym, ap, ◌∙◌, Bool, true, false, List, [], ◌∷◌, ◌++◌, if◌then◌else◌,
  arith, keep_if, map, Bool-cases,
}
use quail.Rules.Meaning.{Row, merged, pairs}

pub keep_if_comm :
    {A : Type 0} (f g : A → Bool) (xs : List A)
    → keep_if f (keep_if g xs) ≡ keep_if g (keep_if f xs)
keep_if_comm f g [] = refl
keep_if_comm f g (x ∷ xs) = ground (arith, keep_if_comm f g xs)

pub keep_if-map :
    {A B : Type 0} (f : B → Bool) (g : A → Bool) (h : A → B) (xs : List A)
    → ((x : A) → f (h x) ≡ g x)
    → map h (keep_if g xs) ≡ keep_if f (map h xs)
keep_if-map f g h [] same = refl
keep_if-map f g h (x ∷ xs) same = ground (arith, same x, keep_if-map f g h xs same)

keep_if-append :
    {A : Type 0} (f : A → Bool) (xs ys : List A)
    → keep_if f (xs ++ ys) ≡ keep_if f xs ++ keep_if f ys
keep_if-append f [] ys = refl
keep_if-append f (x ∷ xs) ys = ground (arith, keep_if-append f xs ys)

module _ {D L : Type 0} (f : Row D L → Bool) (left : List ℕ) where
  kept_pairs :
      (x : Row D L) (ys : List (Row D L))
      → ((y : Row D L) → f (merged left x y) ≡ f x)
      → keep_if f (map (merged left x) ys) ≡ (if f x then map (merged left x) ys else [])
  kept_pairs x [] same = ground arith
  kept_pairs x (y ∷ ys) same = ground (arith, same y, kept_pairs x ys same)

  cons_if :
      (xs : List (Row D L)) (x : Row D L) (b : Bool)
      → f x ≡ b
      → keep_if f (x ∷ xs) ≡ (if b then x ∷ keep_if f xs else keep_if f xs)
  cons_if xs x b h = ground (arith, h)

  -- A test of the left rows, or of the right rows, before the pairs are made.
  pub pairs-left :
      (xs ys : List (Row D L))
      → ((x y : Row D L) → f (merged left x y) ≡ f x)
      → pairs left (keep_if f xs) ys ≡ keep_if f (pairs left xs ys)
  pairs-left [] ys same = refl
  pairs-left (x ∷ xs) ys same =
      let split = keep_if-append f (map (merged left x) ys) (pairs left xs ys) in
      let first = kept_pairs x ys (same x) in
      let rest = pairs-left xs ys same in
      let whole = split ∙ ap (λ zs. zs ++ keep_if f (pairs left xs ys)) first in
      elim (Bool-cases (f x)) [
        | inl kept ↦
            ap (λ zs. pairs left zs ys) (cons_if xs x true kept)
            ∙ ap (λ zs. map (merged left x) ys ++ zs) rest
            ∙ sym (
                whole
                ∙ ap
                    (λ b.
                      (if b then map (merged left x) ys else []) ++ keep_if f (pairs left xs ys))
                    kept)
        | inr dropped ↦
            ap (λ zs. pairs left zs ys) (cons_if xs x false dropped)
            ∙ rest
            ∙ sym (
                whole
                ∙ ap
                    (λ b.
                      (if b then map (merged left x) ys else []) ++ keep_if f (pairs left xs ys))
                    dropped)
      ]

  pub pairs-right :
      (xs ys : List (Row D L))
      → ((x y : Row D L) → f (merged left x y) ≡ f y)
      → pairs left xs (keep_if f ys) ≡ keep_if f (pairs left xs ys)
  pairs-right [] ys same = refl
  pairs-right (x ∷ xs) ys same =
      ap (λ zs. zs ++ pairs left xs (keep_if f ys)) (keep_if-map f f (merged left x) ys (same x))
      ∙ ap (λ zs. keep_if f (map (merged left x) ys) ++ zs) (pairs-right xs ys same)
      ∙ sym (keep_if-append f (map (merged left x) ys) (pairs left xs ys))
