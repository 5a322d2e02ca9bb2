-- ===== src/Conditions/Kleene.antt =====
-- quail/logical/expressions.py: what a condition means on one row, in SQL's three-valued logic
-- (`combine` of `Not`, `And` and `Or`, over Arrow's Kleene kernels). A null is `none`.
use quail.Prelude.{Bool, true, false, not, Option, none, some, List, [], ◌∷◌}
use quail.Conditions.Syntax.{
  Comparison, is_null, is_not_null, other, Condition, test, not_of, and_of, or_of, Conditions, nil,
  cons,
}

abbrev pub Truth : Type 0
Truth = Option Bool

-- `pc.invert`
unfoldable pub invert : Truth → Truth
invert none = none
invert (some b) = some (not b)

-- `pc.and_kleene`
unfoldable pub and_kleene : Truth → Truth → Truth
and_kleene (some false) y = some false
and_kleene (some true) y = y
and_kleene none (some false) = some false
and_kleene none (some true) = none
and_kleene none none = none

-- `pc.or_kleene`
unfoldable pub or_kleene : Truth → Truth → Truth
or_kleene (some true) y = some true
or_kleene (some false) y = y
or_kleene none (some true) = some true
or_kleene none (some false) = none
or_kleene none none = none

-- `functools.reduce`, after the first element
unfoldable pub reduce : (Truth → Truth → Truth) → Truth → List Truth → Truth
reduce f so_far [] = so_far
reduce f so_far (mask ∷ masks) = reduce f (f so_far mask) masks

-- `validate` refuses a node without operands, on which `functools.reduce` would raise.
unfoldable pub and_all : List Truth → Truth
and_all [] = some true
and_all (mask ∷ masks) = reduce and_kleene mask masks

unfoldable pub or_all : List Truth → Truth
or_all [] = some false
or_all (mask ∷ masks) = reduce or_kleene mask masks

-- What the tested expressions and the comparisons beyond null tests are on the row.
module _ {E V : Type 0} (has_null : E → Bool) (compare : E → V → Truth) where
  abbrev pub evaluate_test : E → Comparison V → Truth
  evaluate_test e is_null = some (has_null e)
  evaluate_test e is_not_null = some (not (has_null e))
  evaluate_test e (other v) = compare e v

  unfoldable mutual
    pub evaluate : Condition E V → Truth
    evaluate (test e c) = evaluate_test e c
    evaluate (not_of c) = invert (evaluate c)
    evaluate (and_of cs) = and_all (evaluate_each cs)
    evaluate (or_of cs) = or_all (evaluate_each cs)

    pub evaluate_each : Conditions E V → List Truth
    evaluate_each nil = []
    evaluate_each (cons c cs) = evaluate c ∷ evaluate_each cs
