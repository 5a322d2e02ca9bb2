-- ===== src/PassGroups/Tests.antt =====
-- quail/cost/packing.py: `choose_pass_groups` on small chains, with whole numbers as costs.
use quail.Prelude.{
  ℕ, zero, suc, ◌+◌, ◌*◌, ◌/◌, ◌<◌, ◌≡◌, refl, true, List, [], ◌∷◌, ltb, arith, map,
}
use quail.Result.{ok, err, value_error}
use quail.PassGroups.Choose.{Prices, Question, Request, choose_pass_groups, sum, fits, range}
use quail.PassGroups.Scan.{AreOrdered}
use quail.PassGroups.Splits.{Split, IsLeast}
use quail.PassGroups.Labels.{ended}
use quail.PassGroups.Least.{choose_pass_groups-IsLeast, choose_pass_groups_raises}

-- Rows are asked a state of ten tokens and the group; a selectivity is a percentage.
abbrev prices : Prices ℕ ℕ
prices = record {
  nothing = 0;
  plus = λ a b. a + b;
  less = ltb;
  times = λ rows percent. rows * percent / 100;
  price = λ group rows. (10 + sum group) * rows;
}

prices-AreOrdered : AreOrdered prices
prices-AreOrdered = record {
  asym = λ a b h. ground arith;
  cotrans = λ a b c h g. ground arith;
  monotone = λ a b c h. ground arith;
}

abbrev question : ℕ → ℕ → Question ℕ
question n percent = record { tokens = n; selectivity = percent }

-- A filter that removes most rows, and two that keep most.
abbrev asked : Request ℕ
asked = record {
  questions = question 4 10 ∷ question 4 90 ∷ question 4 90 ∷ [];
  rows = 100;
  longest_state = 20;
  chunk_tokens = 40;
  set_size = 3;
  header = 1;
}

-- The first filter runs alone, and the other two share a pass.
choose_test : choose_pass_groups prices asked ≡ ok (0 ∷ 1 ∷ 1 ∷ [])
unfolding choose_pass_groups
choose_test = refl

abbrev too_small : Request ℕ
too_small = record asked { chunk_tokens = 22 }

asked_alone : (k : ℕ) → k < 3 → fits asked k (suc k) ≡ true
asked_alone zero low = refl
asked_alone (suc zero) low = refl
asked_alone (suc (suc zero)) low = refl
asked_alone (suc (suc (suc k))) low = absurd (omega arith)

choose_pass_groups-IsLeast_example :
    (cost : ℕ) × (bounds : List (ℕ × ℕ)) × Split prices asked 3 cost bounds
    × (choose_pass_groups prices asked ≡ ok (map (λ position. ended position bounds) (range 0 3)))
    × IsLeast prices asked 3 cost
choose_pass_groups-IsLeast_example =
    choose_pass_groups-IsLeast prices prices-AreOrdered asked asked_alone

choose_pass_groups_raises_example : choose_pass_groups prices too_small ≡ err value_error
choose_pass_groups_raises_example = choose_pass_groups_raises prices too_small 0 (omega arith) refl
