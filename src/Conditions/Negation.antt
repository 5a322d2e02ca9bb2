-- ===== src/Conditions/Negation.antt =====
-- quail/logical/expressions.py: `negate` gives the opposite truth value on every row.
use quail.Prelude.{◌≡◌, refl, sym, ap, ◌∙◌, Bool, true, false, not, none, some, List, [], ◌∷◌}
use quail.Conditions.Syntax.{
  is_null, is_not_null, other, Condition, test, not_of, and_of, or_of, Conditions, nil, cons,
  negate, negate_each,
}
use quail.Conditions.Kleene.{
  Truth, invert, and_kleene, or_kleene, reduce, and_all, or_all, evaluate, evaluate_each,
}

pub invert-invert : (x : Truth) → invert (invert x) ≡ x
unfolding invert
invert-invert none = refl
invert-invert (some true) = refl
invert-invert (some false) = refl

pub invert-and_kleene : (x y : Truth) → invert (and_kleene x y) ≡ or_kleene (invert x) (invert y)
unfolding invert and_kleene or_kleene
invert-and_kleene (some true) y = refl
invert-and_kleene (some false) y = refl
invert-and_kleene none (some true) = refl
invert-and_kleene none (some false) = refl
invert-and_kleene none none = refl

pub invert-or_kleene : (x y : Truth) → invert (or_kleene x y) ≡ and_kleene (invert x) (invert y)
unfolding invert and_kleene or_kleene
invert-or_kleene (some true) y = refl
invert-or_kleene (some false) y = refl
invert-or_kleene none (some true) = refl
invert-or_kleene none (some false) = refl
invert-or_kleene none none = refl

pub and_assoc : (x y z : Truth) → and_kleene (and_kleene x y) z ≡ and_kleene x (and_kleene y z)
unfolding and_kleene
and_assoc (some true) y z = refl
and_assoc (some false) y z = refl
and_assoc none (some true) z = refl
and_assoc none (some false) z = refl
and_assoc none none (some true) = refl
and_assoc none none (some false) = refl
and_assoc none none none = refl

pub or_assoc : (x y z : Truth) → or_kleene (or_kleene x y) z ≡ or_kleene x (or_kleene y z)
unfolding or_kleene
or_assoc (some true) y z = refl
or_assoc (some false) y z = refl
or_assoc none (some true) z = refl
or_assoc none (some false) z = refl
or_assoc none none (some true) = refl
or_assoc none none (some false) = refl
or_assoc none none none = refl

-- A fold that starts with the unit is the recursion from the right.
pub reduce-and :
    (x : Truth) (masks : List Truth) → reduce and_kleene x masks ≡ and_kleene x (and_all masks)
unfolding reduce and_all and_kleene
reduce-and none [] = refl
reduce-and (some true) [] = refl
reduce-and (some false) [] = refl
reduce-and x (y ∷ ys) =
    reduce-and (and_kleene x y) ys
    ∙ (and_assoc x y (and_all ys) ∙ ap (and_kleene x) (sym (reduce-and y ys)))

pub reduce-or :
    (x : Truth) (masks : List Truth) → reduce or_kleene x masks ≡ or_kleene x (or_all masks)
unfolding reduce or_all or_kleene
reduce-or none [] = refl
reduce-or (some true) [] = refl
reduce-or (some false) [] = refl
reduce-or x (y ∷ ys) =
    reduce-or (or_kleene x y) ys
    ∙ (or_assoc x y (or_all ys) ∙ ap (or_kleene x) (sym (reduce-or y ys)))

pub and_all_cons : (x : Truth) (xs : List Truth) → and_all (x ∷ xs) ≡ and_kleene x (and_all xs)
unfolding and_all
and_all_cons x xs = reduce-and x xs

pub or_all_cons : (x : Truth) (xs : List Truth) → or_all (x ∷ xs) ≡ or_kleene x (or_all xs)
unfolding or_all
or_all_cons x xs = reduce-or x xs

module _ {E V : Type 0} (has_null : E → Bool) (compare : E → V → Truth) where
  not-not : (b : Bool) → not (not b) ≡ b
  not-not true = refl
  not-not false = refl

  mutual
    unfolding evaluate negate invert and_all or_all

    opposite :
        (c : Condition E V)
        → evaluate has_null compare (negate c) ≡ invert (evaluate has_null compare c)
    opposite (test e is_null) = refl
    opposite (test e is_not_null) = ap some (sym (not-not (has_null e)))
    opposite (test e (other v)) = refl
    opposite (not_of c) = sym (invert-invert (evaluate has_null compare c))
    opposite (and_of cs) = negate_each-or_all cs
    opposite (or_of cs) = negate_each-and_all cs

    negate_each-or_all :
        (cs : Conditions E V)
        → or_all (evaluate_each has_null compare (negate_each cs))
          ≡ invert (and_all (evaluate_each has_null compare cs))
    negate_each-or_all nil = refl
    negate_each-or_all (cons c cs) =
        rw (or_all_cons, and_all_cons, invert-and_kleene, opposite c, negate_each-or_all cs)

    negate_each-and_all :
        (cs : Conditions E V)
        → and_all (evaluate_each has_null compare (negate_each cs))
          ≡ invert (or_all (evaluate_each has_null compare cs))
    negate_each-and_all nil = refl
    negate_each-and_all (cons c cs) =
        rw (or_all_cons, and_all_cons, invert-or_kleene, opposite c, negate_each-and_all cs)

  -- On every row, `negate` gives a condition whose truth value is the opposite one: true for
  -- false, false for true, and null for null.
  pub negate-evaluate :
      (c : Condition E V)
      → evaluate has_null compare (negate c) ≡ invert (evaluate has_null compare c)
  negate-evaluate c = opposite c
