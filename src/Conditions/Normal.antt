-- ===== src/Conditions/Normal.antt =====
-- quail/logical/expressions.py: `normalize` ends, and gives the normal form of the condition.
use quail.Prelude.{ℕ, suc, max, ◌≡◌, refl, Bool, true, false, not, ◌&&◌}
use quail.Conditions.Syntax.{
  is_null, is_not_null, other, Condition, test, not_of, and_of, or_of, Conditions, nil, cons,
  negate, negate_each, flatten_and, flatten_or,
}
use native.Mathlib.Omega.{arith}

pub conjunct : (a b c : Bool) → ((not a && b) && c) ≡ true → (a ≡ false) × ((b ≡ true) × (c ≡ true))
conjunct true b c e = ground arith
conjunct false true c e = (refl, (refl, e))
conjunct false false c e = ground arith

pub from_conjunct : (a b c : Bool) → a ≡ false → b ≡ true → c ≡ true → ((not a && b) && c) ≡ true
from_conjunct a b c p q r = rw (p, q, r)

module _ {E V : Type 0} where
  -- The normal form by the structure of the condition, without a second call on the negation.
  unfoldable mutual
    pub normal_form : Condition E V → Condition E V
    normal_form (test e c) = test e c
    normal_form (not_of c) = negate (normal_form c)
    normal_form (and_of cs) = and_of (flatten_and (normal_forms cs))
    normal_form (or_of cs) = or_of (flatten_or (normal_forms cs))

    pub normal_forms : Conditions E V → Conditions E V
    normal_forms nil = nil
    normal_forms (cons c cs) = cons (normal_form c) (normal_forms cs)

  unfoldable pub is_and : Condition E V → Bool
  is_and (and_of cs) = true
  is_and c = false

  unfoldable pub is_or : Condition E V → Bool
  is_or (or_of cs) = true
  is_or c = false

  -- A column test whose negation is no other comparison.
  unfoldable pub is_plain_test : Condition E V → Bool
  is_plain_test (test e (other v)) = true
  is_plain_test c = false

  -- NOT stands on such tests only, and no AND is an operand of an AND, nor an OR of an OR.
  unfoldable mutual
    pub is_normal : Condition E V → Bool
    is_normal (test e c) = true
    is_normal (not_of c) = is_plain_test c
    is_normal (and_of cs) = are_conjuncts cs
    is_normal (or_of cs) = are_disjuncts cs

    pub are_conjuncts : Conditions E V → Bool
    are_conjuncts nil = true
    are_conjuncts (cons c cs) = (not (is_and c) && is_normal c) && are_conjuncts cs

    pub are_disjuncts : Conditions E V → Bool
    are_disjuncts nil = true
    are_disjuncts (cons c cs) = (not (is_or c) && is_normal c) && are_disjuncts cs

  unfoldable mutual
    pub depth : Condition E V → ℕ
    depth (test e c) = 1
    depth (not_of c) = suc (depth c)
    depth (and_of cs) = suc (depth_each cs)
    depth (or_of cs) = suc (depth_each cs)

    pub depth_each : Conditions E V → ℕ
    depth_each nil = 0
    depth_each (cons c cs) = max (depth c) (depth_each cs)

  -- The depth with a negated test counted as a test.
  unfoldable mutual
    pub height : Condition E V → ℕ
    height (test e c) = 1
    height (not_of c) = 1
    height (and_of cs) = suc (height_each cs)
    height (or_of cs) = suc (height_each cs)

    pub height_each : Conditions E V → ℕ
    height_each nil = 0
    height_each (cons c cs) = max (height c) (height_each cs)

  negate-is_or :
      (c : Condition E V) → is_normal c ≡ true → is_and c ≡ false → is_or (negate c) ≡ false
  unfolding is_and is_or negate is_normal is_plain_test
  negate-is_or (test e is_null) n a = refl
  negate-is_or (test e is_not_null) n a = refl
  negate-is_or (test e (other v)) n a = refl
  negate-is_or (not_of (test e c)) n a = refl
  negate-is_or (not_of (not_of c)) n a = ground arith
  negate-is_or (not_of (and_of c)) n a = ground arith
  negate-is_or (not_of (or_of c)) n a = ground arith
  negate-is_or (and_of cs) n a = ground arith
  negate-is_or (or_of cs) n a = refl

  negate-is_and :
      (c : Condition E V) → is_normal c ≡ true → is_or c ≡ false → is_and (negate c) ≡ false
  unfolding is_and is_or negate is_normal is_plain_test
  negate-is_and (test e is_null) n a = refl
  negate-is_and (test e is_not_null) n a = refl
  negate-is_and (test e (other v)) n a = refl
  negate-is_and (not_of (test e c)) n a = refl
  negate-is_and (not_of (not_of c)) n a = ground arith
  negate-is_and (not_of (and_of c)) n a = ground arith
  negate-is_and (not_of (or_of c)) n a = ground arith
  negate-is_and (and_of cs) n a = refl
  negate-is_and (or_of cs) n a = ground arith

  mutual
    unfolding negate is_normal is_plain_test

    pub negate-IsNormal : (c : Condition E V) → is_normal c ≡ true → is_normal (negate c) ≡ true
    negate-IsNormal (test e is_null) n = refl
    negate-IsNormal (test e is_not_null) n = refl
    negate-IsNormal (test e (other v)) n = refl
    negate-IsNormal (not_of (test e c)) n = refl
    negate-IsNormal (not_of (not_of c)) n = ground arith
    negate-IsNormal (not_of (and_of c)) n = ground arith
    negate-IsNormal (not_of (or_of c)) n = ground arith
    negate-IsNormal (and_of cs) n = negate_each-disjuncts cs n
    negate-IsNormal (or_of cs) n = negate_each-conjuncts cs n

    pub negate_each-disjuncts :
        (cs : Conditions E V) → are_conjuncts cs ≡ true → are_disjuncts (negate_each cs) ≡ true
    negate_each-disjuncts nil n = refl
    negate_each-disjuncts (cons c cs) n =
        let (a, (b, r)) = conjunct (is_and c) (is_normal c) (are_conjuncts cs) n in
        from_conjunct (is_or (negate c)) (is_normal (negate c)) (are_disjuncts (negate_each cs))
          (negate-is_or c b a) (negate-IsNormal c b) (negate_each-disjuncts cs r)

    pub negate_each-conjuncts :
        (cs : Conditions E V) → are_disjuncts cs ≡ true → are_conjuncts (negate_each cs) ≡ true
    negate_each-conjuncts nil n = refl
    negate_each-conjuncts (cons c cs) n =
        let (a, (b, r)) = conjunct (is_or c) (is_normal c) (are_disjuncts cs) n in
        from_conjunct (is_and (negate c)) (is_normal (negate c)) (are_conjuncts (negate_each cs))
          (negate-is_and c b a) (negate-IsNormal c b) (negate_each-conjuncts cs r)
