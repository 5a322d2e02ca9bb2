-- ===== src/Conditions/Syntax.antt =====
-- quail/logical/expressions.py: `RegularPredicate`, `Not`, `And` and `Or`, with `negate`,
-- `normalize` and `conjuncts`. A column test is its tested expression and its comparison, with the
-- comparisons that `negate` tells apart.
use quail.Prelude.{ℕ, zero, suc, Bool, true, false, Option, none, some, ◌>>=◌}

-- `other` stands for the comparisons that are not in `_NEGATED_COMPARISONS`, with their operand.
pub data Comparison (V : Type 0) : Type 0 where
  is_null is_not_null : Comparison V
  other : V → Comparison V

-- A tested expression is of a type `E`.
mutual
  pub data Condition (E V : Type 0) : Type 0 where
    test : E → Comparison V → Condition E V
    not_of : Condition E V → Condition E V
    and_of or_of : Conditions E V → Condition E V

  pub data Conditions (E V : Type 0) : Type 0 where
    nil : Conditions E V
    cons : Condition E V → Conditions E V → Conditions E V

-- `operands + more`
unfoldable pub append : {E V : Type 0} → Conditions E V → Conditions E V → Conditions E V
append nil ys = ys
append (cons x xs) ys = cons x (append xs ys)

abbrev pub negate_test : {E V : Type 0} → E → Comparison V → Condition E V
negate_test e is_null = test e is_not_null
negate_test e is_not_null = test e is_null
negate_test e (other v) = not_of (test e (other v))

unfoldable mutual
  pub negate : {E V : Type 0} → Condition E V → Condition E V
  negate (test e c) = negate_test e c
  negate (not_of c) = c
  negate (and_of cs) = or_of (negate_each cs)
  negate (or_of cs) = and_of (negate_each cs)

  pub negate_each : {E V : Type 0} → Conditions E V → Conditions E V
  negate_each nil = nil
  negate_each (cons c cs) = cons (negate c) (negate_each cs)

-- `operand.operands if isinstance(operand, And) else (operand,)`
abbrev pub and_operands : {E V : Type 0} → Condition E V → Conditions E V
and_operands (and_of cs) = cs
and_operands c = cons c nil

abbrev pub or_operands : {E V : Type 0} → Condition E V → Conditions E V
or_operands (or_of cs) = cs
or_operands c = cons c nil

-- `operands.extend(...)` for each operand in turn
unfoldable pub flatten_and : {E V : Type 0} → Conditions E V → Conditions E V
flatten_and nil = nil
flatten_and (cons c cs) = append (and_operands c) (flatten_and cs)

unfoldable pub flatten_or : {E V : Type 0} → Conditions E V → Conditions E V
flatten_or nil = nil
flatten_or (cons c cs) = append (or_operands c) (flatten_or cs)

abbrev pub is_not : {E V : Type 0} → Condition E V → Bool
is_not (not_of c) = true
is_not c = false

-- `negated if isinstance(negated, Not) else normalize(negated)`, the second call's result given
abbrev pub unless_not :
    {E V : Type 0} → Condition E V → Option (Condition E V) → Option (Condition E V)
unless_not (not_of c) again = some (not_of c)
unless_not c again = again

-- `map`, for a function that may run out of fuel
unfoldable pub each :
    {E V : Type 0}
    → (Condition E V → Option (Condition E V))
    → Conditions E V
    → Option (Conditions E V)
each f nil = some nil
each f (cons c cs) = do d ← f c; ds ← each f cs; some (cons d ds)

-- The calls of `normalize` nest as deep as the fuel; none is that the fuel ran out.
unfoldable pub normalize : {E V : Type 0} → ℕ → Condition E V → Option (Condition E V)
normalize zero c = none
normalize (suc fuel) (test e c) = some (test e c)
normalize (suc fuel) (not_of c) = do
  normal ← normalize fuel c
  unless_not (negate normal) (normalize fuel (negate normal))
normalize (suc fuel) (and_of cs) = do
  normals ← each (normalize fuel) cs
  some (and_of (flatten_and normals))
normalize (suc fuel) (or_of cs) = do
  normals ← each (normalize fuel) cs
  some (or_of (flatten_or normals))

-- `conjuncts`
abbrev pub conjuncts : {E V : Type 0} → Condition E V → Conditions E V
conjuncts = and_operands
