-- ===== src/Conditions/Meaning.antt =====
-- quail/logical/expressions.py: what `normalize` and `conjuncts` keep of a condition's meaning.
use quail.Prelude.{ℕ, ◌<◌, ◌≡◌, refl, sym, ap, ◌∙◌, Bool, true, false, none, some, List, [], ◌∷◌}
use quail.Conditions.Syntax.{
  Condition, test, not_of, and_of, or_of, Conditions, nil, cons, append, and_operands, or_operands,
  flatten_and, flatten_or, normalize, conjuncts,
}
use quail.Conditions.Kleene.{
  Truth, invert, and_kleene, or_kleene, reduce, and_all, or_all, evaluate, evaluate_each,
}
use quail.Conditions.Negation.{and_assoc, or_assoc, and_all_cons, or_all_cons, negate-evaluate}
use quail.Conditions.Normal.{normal_form, normal_forms, is_normal, depth}
use quail.Conditions.Form.{normal_form-IsNormal}
use quail.Conditions.Fuel.{normalize_total}

and_unit : (x : Truth) → and_kleene x (some true) ≡ x
unfolding and_kleene
and_unit none = refl
and_unit (some true) = refl
and_unit (some false) = refl

or_unit : (x : Truth) → or_kleene x (some false) ≡ x
unfolding or_kleene
or_unit none = refl
or_unit (some true) = refl
or_unit (some false) = refl

module _ {E V : Type 0} (has_null : E → Bool) (compare : E → V → Truth) where
  abbrev value : Condition E V → Truth
  value = evaluate has_null compare

  abbrev values : Conditions E V → List Truth
  values = evaluate_each has_null compare

  and_all-append :
      (xs ys : Conditions E V)
      → and_all (values (append xs ys)) ≡ and_kleene (and_all (values xs)) (and_all (values ys))
  unfolding append evaluate and_all and_kleene
  and_all-append nil ys = refl
  and_all-append (cons x xs) ys =
      and_all_cons (value x) (values (append xs ys))
      ∙ (ap (and_kleene (value x)) (and_all-append xs ys)
          ∙ (sym (and_assoc (value x) (and_all (values xs)) (and_all (values ys)))
              ∙ ap (λ t. and_kleene t (and_all (values ys)))
                  (sym (and_all_cons (value x) (values xs)))))

  or_all-append :
      (xs ys : Conditions E V)
      → or_all (values (append xs ys)) ≡ or_kleene (or_all (values xs)) (or_all (values ys))
  unfolding append evaluate or_all or_kleene
  or_all-append nil ys = refl
  or_all-append (cons x xs) ys =
      or_all_cons (value x) (values (append xs ys))
      ∙ (ap (or_kleene (value x)) (or_all-append xs ys)
          ∙ (sym (or_assoc (value x) (or_all (values xs)) (or_all (values ys)))
              ∙ ap (λ t. or_kleene t (or_all (values ys)))
                  (sym (or_all_cons (value x) (values xs)))))

  and_all_one : (x : Truth) → and_all (x ∷ []) ≡ x
  unfolding and_all reduce
  and_all_one x = refl

  or_all_one : (x : Truth) → or_all (x ∷ []) ≡ x
  unfolding or_all reduce
  or_all_one x = refl

  -- The Kleene AND of what `conjuncts` gives has the condition's truth value on every row.
  pub conjuncts-evaluate :
      (c : Condition E V)
      → and_all (evaluate_each has_null compare (conjuncts c)) ≡ evaluate has_null compare c
  unfolding evaluate
  conjuncts-evaluate (test e c) = and_all_one (value (test e c))
  conjuncts-evaluate (not_of c) = and_all_one (value (not_of c))
  conjuncts-evaluate (and_of cs) = refl
  conjuncts-evaluate (or_of cs) = and_all_one (value (or_of cs))

  disjuncts-evaluate : (c : Condition E V) → or_all (values (or_operands c)) ≡ value c
  unfolding evaluate
  disjuncts-evaluate (test e c) = or_all_one (value (test e c))
  disjuncts-evaluate (not_of c) = or_all_one (value (not_of c))
  disjuncts-evaluate (and_of cs) = or_all_one (value (and_of cs))
  disjuncts-evaluate (or_of cs) = refl

  mutual
    unfolding normal_form flatten_and flatten_or evaluate

    pub normal_form-evaluate : (c : Condition E V) → value (normal_form c) ≡ value c
    normal_form-evaluate (test e c) = refl
    normal_form-evaluate (not_of c) =
        negate-evaluate has_null compare (normal_form c) ∙ ap invert (normal_form-evaluate c)
    normal_form-evaluate (and_of cs) = flatten_and-evaluate cs
    normal_form-evaluate (or_of cs) = flatten_or-evaluate cs

    flatten_and-evaluate :
        (cs : Conditions E V)
        → and_all (values (flatten_and (normal_forms cs))) ≡ and_all (values cs)
    flatten_and-evaluate nil = refl
    flatten_and-evaluate (cons c cs) =
        and_all-append (and_operands (normal_form c)) (flatten_and (normal_forms cs))
        ∙ ((rw
              (conjuncts-evaluate (normal_form c), normal_form-evaluate c, flatten_and-evaluate cs))
            ∙ sym (and_all_cons (value c) (values cs)))

    flatten_or-evaluate :
        (cs : Conditions E V) → or_all (values (flatten_or (normal_forms cs))) ≡ or_all (values cs)
    flatten_or-evaluate nil = refl
    flatten_or-evaluate (cons c cs) =
        or_all-append (or_operands (normal_form c)) (flatten_or (normal_forms cs))
        ∙ ((rw (disjuncts-evaluate (normal_form c), normal_form-evaluate c, flatten_or-evaluate cs))
            ∙ sym (or_all_cons (value c) (values cs)))

  -- With more fuel than the condition is deep, `normalize` gives a condition that has NOT on column
  -- tests without an opposite comparison only, no AND directly in an AND and no OR directly in an
  -- OR, and that has the truth value of the given one on every row.
  pub normalize_correct :
      (fuel : ℕ) (c : Condition E V)
      → depth c < fuel
      → (n : Condition E V) × (normalize fuel c ≡ some n)
        × (is_normal n ≡ true)
        × (evaluate has_null compare n ≡ evaluate has_null compare c)
  normalize_correct fuel c enough =
      (normal_form c, normalize_total fuel c enough, normal_form-IsNormal c, normal_form-evaluate c)
