-- ===== src/FilterOrder/Tests.antt =====
-- quail/planner/search/filter_order.py: an order of three predicates, with percentages as numbers.
use quail.Prelude.{
  ℕ, ◌+◌, ◌-◌, ◌*◌, ◌/◌, ◌≤◌, ◌≡◌, refl, none, List, [], ◌∷◌, ltb, arith, count, map,
}
use quail.FilterOrder.Choose.{Floats, Predicate, by_cost, order_filters_indexed, starters}
use quail.FilterOrder.Permutes.{order_filters_indexed_permutes}
use quail.FilterOrder.Least.{IsOrdered, IsCheapest, order_filters_indexed-IsCheapest}

-- A hundred stands for 1, and a product is a percentage of a count.
abbrev percents : Floats ℕ
percents = record {
  nothing = 0;
  one = 100;
  infinite = 1000000;
  plus = λ a b. a + b;
  minus = λ a b. a - b;
  times = λ a b. a * b / 100;
  divide = λ a b. a / b;
  less = ltb;
}

percents-IsOrdered : IsOrdered percents
percents-IsOrdered = record { asym = λ a b h. ground arith; cotrans = λ a b c h k. ground arith }

abbrev asks : ℕ → ℕ → ℕ → Predicate ℕ
asks index price percent = record {
  index = index;
  first = λ rows. price * rows;
  later = λ rows. price * rows;
  selectivity = percent;
  reuse_key = none;
}

-- A dear predicate that keeps most rows, a cheap one that keeps few, and one that keeps all.
abbrev three : List (Predicate ℕ)
three = asks 0 50 90 ∷ asks 1 10 20 ∷ asks 2 5 100 ∷ []

order_test : order_filters_indexed percents three by_cost 100 none ≡ 1 ∷ 0 ∷ 2 ∷ []
unfolding order_filters_indexed
order_test = refl

three_once : (k : ℕ) → count k (map (λ p. p.index) three) ≤ 1
three_once k = ground arith

order_filters_indexed_permutes_example :
    count 2 (order_filters_indexed percents three by_cost 100 none)
    ≡ count 2 (map (λ p. p.index) three)
order_filters_indexed_permutes_example =
    order_filters_indexed_permutes percents none 100 three by_cost 2 three_once

order_filters_indexed-IsCheapest_example :
    IsCheapest percents percents-IsOrdered none 100 three
      (order_filters_indexed percents three by_cost 100 none)
      (starters percents three)
order_filters_indexed-IsCheapest_example =
    order_filters_indexed-IsCheapest percents percents-IsOrdered none 100 three (asks 0 50 90)
      (asks 1 10 20 ∷ []) (omega arith) refl
