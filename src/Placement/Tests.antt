-- ===== src/Placement/Tests.antt =====
-- quail/logical/placement.py: the placement of the module's own example.
use quail.Prelude.{ℕ, ◌≡◌, refl, Bool, true, none, [], ◌∷◌}
use quail.Result.{ok}
use quail.Dict.{lookup, put}
use quail.Conditions.Syntax.{
  Condition, other, test, not_of, and_of, or_of, nil, cons, each, append, flatten_and, flatten_or,
  negate, normalize,
}
use quail.Conditions.Normal.{depth}
use quail.Conditions.Kleene.{Truth}
use quail.Placement.Place.{
  Expression, column_ref, PlacedConditions, column_references, references_of, owners_of, same_alias,
  append_to, place_on_table, place_part, place_parts, place_each, place_conditions,
}
use quail.Placement.Keeps.{all_accept, conditions_accept, place_conditions-accept}

-- `NOT (r.stars > 3 OR p.price < 10) AND r.lang = 'en'`
abbrev stars : Condition Expression ℕ
stars = test (column_ref 1 1) (other 3)

abbrev price : Condition Expression ℕ
price = test (column_ref 2 1) (other 10)

abbrev lang : Condition Expression ℕ
lang = test (column_ref 1 2) (other 7)

abbrev both : Condition Expression ℕ
both = and_of (cons (not_of (or_of (cons stars (cons price nil)))) (cons lang nil))

abbrev three_parts : PlacedConditions ℕ
three_parts = record {
  scans = (1, not_of stars ∷ lang ∷ []) ∷ (2, not_of price ∷ []) ∷ [];
  computed = [];
  rows = [];
}

abbrev all_null : Expression → Bool
all_null e = true

abbrev nothing_true : Expression → ℕ → Truth
nothing_true e v = none

both-placed : place_conditions (λ c. true) [] [] ((both, none) ∷ []) ≡ ok three_parts
unfolding place_each place_parts place_part place_on_table normalize each depth negate flatten_or
    append flatten_and references_of column_references same_alias owners_of lookup append_to put
both-placed = refl

place_conditions-accept_example :
    all_accept all_null nothing_true three_parts
    ≡ conditions_accept all_null nothing_true ((both, none) ∷ [])
place_conditions-accept_example =
    place_conditions-accept all_null nothing_true (λ c. true) [] [] ((both, none) ∷ []) three_parts
      both-placed
