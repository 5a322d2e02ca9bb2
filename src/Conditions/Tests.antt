-- ===== src/Conditions/Tests.antt =====
-- quail/logical/expressions.py: the theorems on conditions at concrete rows.
use quail.Prelude.{ℕ, ◌≡◌, refl, Bool, true, none, some, ◌==◌, if◌then◌else◌, arith}
use quail.Conditions.Syntax.{
  is_null, is_not_null, other, Condition, test, not_of, and_of, or_of, nil, cons, each, append,
  flatten_and, flatten_or, negate, normalize, conjuncts,
}
use quail.Conditions.Kleene.{Truth, invert, and_kleene, reduce, and_all, evaluate, evaluate_each}
use quail.Conditions.Negation.{negate-evaluate}
use quail.Conditions.Normal.{is_normal, depth}
use quail.Conditions.Meaning.{conjuncts-evaluate, normalize_correct}

-- A row whose columns are numbers, 0 for a null, under `=`.
abbrev has_null : ℕ → Bool
has_null x = x == 0

abbrev compare_to : ℕ → ℕ → Truth
compare_to x v = if x == 0 then none else some (x == v)

-- `NOT (a = 1 AND (b IS NULL AND c = 2))`, where c is null
abbrev nested : Condition ℕ ℕ
nested = not_of (
    and_of (
      cons (test 1 (other 1))
        (cons (and_of (cons (test 0 is_null) (cons (test 0 (other 2)) nil))) nil)))

abbrev flat : Condition ℕ ℕ
flat = or_of (
    cons (not_of (test 1 (other 1)))
      (cons (test 0 is_not_null) (cons (not_of (test 0 (other 2))) nil)))

normalize-nested : normalize 9 nested ≡ some flat
unfolding normalize each negate flatten_and append flatten_or
normalize-nested = refl

evaluate-nested : evaluate has_null compare_to nested ≡ none
unfolding evaluate invert and_all reduce and_kleene
evaluate-nested = refl

normalize_correct_example :
    (n : Condition ℕ ℕ) × (normalize 9 nested ≡ some n)
    × (is_normal n ≡ true)
    × (evaluate has_null compare_to n ≡ evaluate has_null compare_to nested)
unfolding depth
normalize_correct_example = normalize_correct has_null compare_to 9 nested (omega arith)

negate-evaluate_example :
    evaluate has_null compare_to (negate nested) ≡ invert (evaluate has_null compare_to nested)
negate-evaluate_example = negate-evaluate has_null compare_to nested

conjuncts-evaluate_example :
    and_all (evaluate_each has_null compare_to (conjuncts (negate flat)))
    ≡ evaluate has_null compare_to (negate flat)
conjuncts-evaluate_example = conjuncts-evaluate has_null compare_to (negate flat)
