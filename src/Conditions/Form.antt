-- ===== src/Conditions/Form.antt =====
-- quail/logical/expressions.py: the structural normal form is one.
use quail.Prelude.{◌≡◌, refl, true}
use quail.Conditions.Syntax.{
  Condition, test, not_of, and_of, or_of, Conditions, nil, cons, append, and_operands, or_operands,
  flatten_and, flatten_or,
}
use quail.Conditions.Normal.{
  normal_form, normal_forms, is_and, is_or, is_normal, are_conjuncts, are_disjuncts, conjunct,
  from_conjunct, negate-IsNormal,
}

module _ {E V : Type 0} where
  append-conjuncts :
      (xs ys : Conditions E V)
      → are_conjuncts xs ≡ true
      → are_conjuncts ys ≡ true
      → are_conjuncts (append xs ys) ≡ true
  unfolding append are_conjuncts
  append-conjuncts nil ys p q = q
  append-conjuncts (cons x xs) ys p q =
      let (a, (b, r)) = conjunct (is_and x) (is_normal x) (are_conjuncts xs) p in
      from_conjunct (is_and x) (is_normal x) (are_conjuncts (append xs ys)) a b
        (append-conjuncts xs ys r q)

  append-disjuncts :
      (xs ys : Conditions E V)
      → are_disjuncts xs ≡ true
      → are_disjuncts ys ≡ true
      → are_disjuncts (append xs ys) ≡ true
  unfolding append are_disjuncts
  append-disjuncts nil ys p q = q
  append-disjuncts (cons x xs) ys p q =
      let (a, (b, r)) = conjunct (is_or x) (is_normal x) (are_disjuncts xs) p in
      from_conjunct (is_or x) (is_normal x) (are_disjuncts (append xs ys)) a b
        (append-disjuncts xs ys r q)

  and_operands-conjuncts :
      (c : Condition E V) → is_normal c ≡ true → are_conjuncts (and_operands c) ≡ true
  unfolding are_conjuncts is_and is_normal
  and_operands-conjuncts (test e c) n = refl
  and_operands-conjuncts (not_of c) n = rw n
  and_operands-conjuncts (and_of cs) n = n
  and_operands-conjuncts (or_of cs) n = rw n

  or_operands-disjuncts :
      (c : Condition E V) → is_normal c ≡ true → are_disjuncts (or_operands c) ≡ true
  unfolding are_disjuncts is_or is_normal
  or_operands-disjuncts (test e c) n = refl
  or_operands-disjuncts (not_of c) n = rw n
  or_operands-disjuncts (and_of cs) n = rw n
  or_operands-disjuncts (or_of cs) n = n

  mutual
    unfolding normal_form flatten_and flatten_or is_normal

    -- The structural normal form has NOT on plain tests only, and AND and OR flat.
    pub normal_form-IsNormal : (c : Condition E V) → is_normal (normal_form c) ≡ true
    normal_form-IsNormal (test e c) = refl
    normal_form-IsNormal (not_of c) = negate-IsNormal (normal_form c) (normal_form-IsNormal c)
    normal_form-IsNormal (and_of cs) = normal_forms-conjuncts cs
    normal_form-IsNormal (or_of cs) = normal_forms-disjuncts cs

    normal_forms-conjuncts :
        (cs : Conditions E V) → are_conjuncts (flatten_and (normal_forms cs)) ≡ true
    normal_forms-conjuncts nil = refl
    normal_forms-conjuncts (cons c cs) =
        append-conjuncts (and_operands (normal_form c)) (flatten_and (normal_forms cs))
          (and_operands-conjuncts (normal_form c) (normal_form-IsNormal c))
          (normal_forms-conjuncts cs)

    normal_forms-disjuncts :
        (cs : Conditions E V) → are_disjuncts (flatten_or (normal_forms cs)) ≡ true
    normal_forms-disjuncts nil = refl
    normal_forms-disjuncts (cons c cs) =
        append-disjuncts (or_operands (normal_form c)) (flatten_or (normal_forms cs))
          (or_operands-disjuncts (normal_form c) (normal_form-IsNormal c))
          (normal_forms-disjuncts cs)
