-- ===== src/Conditions/Fuel.antt =====
-- quail/logical/expressions.py: `normalize` ends, with a condition in normal form.
use quail.Prelude.{ℕ, zero, suc, ◌≤◌, ◌<◌, max, ◌≡◌, refl, ap, ◌∙◌, true, false, some, ◌>>=◌}
use quail.Conditions.Syntax.{
  is_null, is_not_null, other, Condition, test, not_of, and_of, or_of, Conditions, nil, cons,
  append, negate, negate_each, and_operands, or_operands, flatten_and, flatten_or, unless_not, each,
  normalize,
}
use quail.Conditions.Normal.{
  normal_form, normal_forms, is_and, is_or, is_plain_test, is_normal, are_conjuncts, are_disjuncts,
  depth, depth_each, height, height_each, conjunct, negate-IsNormal,
}
use quail.Conditions.Form.{normal_form-IsNormal}
use native.Mathlib.Omega.{arith}

module _ {E V : Type 0} where
  height-append :
      (xs ys : Conditions E V) (n : ℕ)
      → height_each xs ≤ n
      → height_each ys ≤ n
      → height_each (append xs ys) ≤ n
  unfolding append height_each
  height-append nil ys n p q = q
  height-append (cons x xs) ys n p q = let rest = height-append xs ys n omega arith q in omega arith

  height-and_operands : (c : Condition E V) → height_each (and_operands c) ≤ height c
  unfolding height
  height-and_operands (test e c) = omega arith
  height-and_operands (not_of c) = omega arith
  height-and_operands (and_of cs) = omega arith
  height-and_operands (or_of cs) = omega arith

  height-or_operands : (c : Condition E V) → height_each (or_operands c) ≤ height c
  unfolding height
  height-or_operands (test e c) = omega arith
  height-or_operands (not_of c) = omega arith
  height-or_operands (and_of cs) = omega arith
  height-or_operands (or_of cs) = omega arith

  mutual
    unfolding negate height is_plain_test is_normal

    height-negate : (c : Condition E V) → is_normal c ≡ true → height (negate c) ≡ height c
    height-negate (test e is_null) n = refl
    height-negate (test e is_not_null) n = refl
    height-negate (test e (other v)) n = refl
    height-negate (not_of (test e c)) n = refl
    height-negate (not_of (not_of c)) n = ground arith
    height-negate (not_of (and_of c)) n = ground arith
    height-negate (not_of (or_of c)) n = ground arith
    height-negate (and_of cs) n = ap suc (height-negate_conjuncts cs n)
    height-negate (or_of cs) n = ap suc (height-negate_disjuncts cs n)

    height-negate_conjuncts :
        (cs : Conditions E V)
        → are_conjuncts cs ≡ true
        → height_each (negate_each cs) ≡ height_each cs
    height-negate_conjuncts nil n = refl
    height-negate_conjuncts (cons c cs) n =
        let (a, (b, r)) = conjunct (is_and c) (is_normal c) (are_conjuncts cs) n in
        rw (height-negate c b, height-negate_conjuncts cs r)

    height-negate_disjuncts :
        (cs : Conditions E V)
        → are_disjuncts cs ≡ true
        → height_each (negate_each cs) ≡ height_each cs
    height-negate_disjuncts nil n = refl
    height-negate_disjuncts (cons c cs) n =
        let (a, (b, r)) = conjunct (is_or c) (is_normal c) (are_disjuncts cs) n in
        rw (height-negate c b, height-negate_disjuncts cs r)

  mutual
    unfolding normal_form flatten_and flatten_or height depth

    height-normal_form : (c : Condition E V) → height (normal_form c) ≤ depth c
    height-normal_form (test e c) = omega arith
    height-normal_form (not_of c) =
        let rest = height-normal_form c in
        let same = height-negate (normal_form c) (normal_form-IsNormal c) in omega arith
    height-normal_form (and_of cs) = let operands = height-flatten_and cs in omega arith
    height-normal_form (or_of cs) = let operands = height-flatten_or cs in omega arith

    height-flatten_and :
        (cs : Conditions E V) → height_each (flatten_and (normal_forms cs)) ≤ depth_each cs
    height-flatten_and nil = omega arith
    height-flatten_and (cons c cs) =
        let first = height-normal_form c in
        let own = height-and_operands (normal_form c) in
        let rest = height-flatten_and cs in
        height-append (and_operands (normal_form c)) (flatten_and (normal_forms cs))
          (max (depth c) (depth_each cs)) omega arith omega arith

    height-flatten_or :
        (cs : Conditions E V) → height_each (flatten_or (normal_forms cs)) ≤ depth_each cs
    height-flatten_or nil = omega arith
    height-flatten_or (cons c cs) =
        let first = height-normal_form c in
        let own = height-or_operands (normal_form c) in
        let rest = height-flatten_or cs in
        height-append (or_operands (normal_form c)) (flatten_or (normal_forms cs))
          (max (depth c) (depth_each cs)) omega arith omega arith

  flatten_and-conjuncts : (cs : Conditions E V) → are_conjuncts cs ≡ true → flatten_and cs ≡ cs
  unfolding flatten_and are_conjuncts is_and append
  flatten_and-conjuncts nil n = refl
  flatten_and-conjuncts (cons (test e c) cs) n = ap (cons (test e c)) (flatten_and-conjuncts cs n)
  flatten_and-conjuncts (cons (not_of c) cs) n =
      let (a, (b, r)) = conjunct false (is_normal (not_of c)) (are_conjuncts cs) n in
      ap (cons (not_of c)) (flatten_and-conjuncts cs r)
  flatten_and-conjuncts (cons (and_of ds) cs) n = ground arith
  flatten_and-conjuncts (cons (or_of ds) cs) n =
      let (a, (b, r)) = conjunct false (is_normal (or_of ds)) (are_conjuncts cs) n in
      ap (cons (or_of ds)) (flatten_and-conjuncts cs r)

  flatten_or-disjuncts : (cs : Conditions E V) → are_disjuncts cs ≡ true → flatten_or cs ≡ cs
  unfolding flatten_or are_disjuncts is_or append
  flatten_or-disjuncts nil n = refl
  flatten_or-disjuncts (cons (test e c) cs) n = ap (cons (test e c)) (flatten_or-disjuncts cs n)
  flatten_or-disjuncts (cons (not_of c) cs) n =
      let (a, (b, r)) = conjunct false (is_normal (not_of c)) (are_disjuncts cs) n in
      ap (cons (not_of c)) (flatten_or-disjuncts cs r)
  flatten_or-disjuncts (cons (or_of ds) cs) n = ground arith
  flatten_or-disjuncts (cons (and_of ds) cs) n =
      let (a, (b, r)) = conjunct false (is_normal (and_of ds)) (are_disjuncts cs) n in
      ap (cons (and_of ds)) (flatten_or-disjuncts cs r)

  -- A condition in normal form is left alone.
  mutual
    unfolding normalize each height is_normal is_plain_test negate

    normalize-normal :
        (fuel : ℕ) (c : Condition E V)
        → is_normal c ≡ true
        → height c < fuel
        → normalize fuel c ≡ some c
    normalize-normal zero c n p = ground arith
    normalize-normal (suc fuel) (test e c) n p = refl
    normalize-normal (suc zero) (not_of (test e (other v))) n p = ground arith
    normalize-normal (suc (suc fuel)) (not_of (test e (other v))) n p = refl
    normalize-normal (suc fuel) (not_of (test e is_null)) n p = ground arith
    normalize-normal (suc fuel) (not_of (test e is_not_null)) n p = ground arith
    normalize-normal (suc fuel) (not_of (not_of c)) n p = ground arith
    normalize-normal (suc fuel) (not_of (and_of c)) n p = ground arith
    normalize-normal (suc fuel) (not_of (or_of c)) n p = ground arith
    normalize-normal (suc fuel) (and_of cs) n p =
        rw (each-conjuncts fuel cs n omega arith, flatten_and-conjuncts cs n)
    normalize-normal (suc fuel) (or_of cs) n p =
        rw (each-disjuncts fuel cs n omega arith, flatten_or-disjuncts cs n)

    each-conjuncts :
        (fuel : ℕ) (cs : Conditions E V)
        → are_conjuncts cs ≡ true
        → height_each cs < fuel
        → each (normalize fuel) cs ≡ some cs
    each-conjuncts fuel nil n p = refl
    each-conjuncts fuel (cons c cs) n p =
        let (a, (b, r)) = conjunct (is_and c) (is_normal c) (are_conjuncts cs) n in
        rw (normalize-normal fuel c b omega arith, each-conjuncts fuel cs r omega arith)

    each-disjuncts :
        (fuel : ℕ) (cs : Conditions E V)
        → are_disjuncts cs ≡ true
        → height_each cs < fuel
        → each (normalize fuel) cs ≡ some cs
    each-disjuncts fuel nil n p = refl
    each-disjuncts fuel (cons c cs) n p =
        let (a, (b, r)) = conjunct (is_or c) (is_normal c) (are_disjuncts cs) n in
        rw (normalize-normal fuel c b omega arith, each-disjuncts fuel cs r omega arith)

  -- `unless_not`, when the second call would leave its argument alone.
  unless_not_same : (c : Condition E V) → unless_not c (some c) ≡ some c
  unless_not_same (test e c) = refl
  unless_not_same (not_of c) = refl
  unless_not_same (and_of cs) = refl
  unless_not_same (or_of cs) = refl

  mutual
    unfolding normalize each normal_form depth

    -- With more fuel than the condition is deep, `normalize` ends, and its result is the structural
    -- normal form: what its second call does to the negation of a normal form is nothing.
    pub normalize_total :
        (fuel : ℕ) (c : Condition E V) → depth c < fuel → normalize fuel c ≡ some (normal_form c)
    normalize_total zero c p = ground arith
    normalize_total (suc fuel) (test e c) p = refl
    normalize_total (suc fuel) (not_of c) p =
        let first = normalize_total fuel c omega arith in
        let normal = normal_form-IsNormal c in
        let low = height-normal_form c in
        let same = height-negate (normal_form c) normal in
        let again =
          normalize-normal fuel (negate (normal_form c)) (negate-IsNormal (normal_form c) normal)
            omega arith in
        ap (λ o. o >>= (λ n. unless_not (negate n) (normalize fuel (negate n)))) first
        ∙ (ap (unless_not (negate (normal_form c))) again
            ∙ unless_not_same (negate (normal_form c)))
    normalize_total (suc fuel) (and_of cs) p = rw (each_total fuel cs omega arith)
    normalize_total (suc fuel) (or_of cs) p = rw (each_total fuel cs omega arith)

    each_total :
        (fuel : ℕ) (cs : Conditions E V)
        → depth_each cs < fuel
        → each (normalize fuel) cs ≡ some (normal_forms cs)
    each_total fuel nil p = refl
    each_total fuel (cons c cs) p =
        rw (normalize_total fuel c omega arith, each_total fuel cs omega arith)
