-- ===== src/Search/Frontier.antt =====
-- quail/planner/search/leftdeep.py: `Candidate` and `insert_nondominated`, and the inner loop of
-- `search_left_deep` that extends the candidates of one state by a priced step.
use quail.Prelude.{ℕ, Bool, true, false, ◌||◌, List, [], ◌∷◌, ◌++◌, if◌then◌else◌}
use quail.Search.Work.{Work, plus, dominates}

pub record Candidate (P S : Type 0) : Type 0 where
  pub work : Work
  pub state_property : P
  pub relation_order : List ℕ
  pub steps : List S

module _ {P S : Type 0} where
  -- `any(existing.work.dominates(candidate.work) for existing in frontier)`
  unfoldable pub is_covered : Candidate P S → List (Candidate P S) → Bool
  is_covered c [] = false
  is_covered c (x ∷ xs) = dominates x.work c.work || is_covered c xs

  -- `[existing for existing in frontier if not candidate.work.dominates(existing.work)]`
  unfoldable pub undominated : Candidate P S → List (Candidate P S) → List (Candidate P S)
  undominated c [] = []
  undominated c (x ∷ xs) =
      let rest = undominated c xs in if dominates c.work x.work then rest else x ∷ rest

  -- Whether the candidate was kept, and the frontier after it.
  unfoldable pub insert_nondominated :
      List (Candidate P S) → Candidate P S → Bool × List (Candidate P S)
  insert_nondominated frontier c =
      if is_covered c frontier then (false, frontier) else (true, undominated c frontier ++ c ∷ [])

  unfoldable pub insert_each : List (Candidate P S) → List (Candidate P S) → List (Candidate P S)
  insert_each frontier [] = frontier
  insert_each frontier (c ∷ cs) = insert_each (insert_nondominated frontier c).1 cs

  -- The record that a step makes of an old one.
  abbrev pub extended : Work → P → S → List ℕ → Candidate P S → Candidate P S
  extended work next_property step added old = record {
    work = plus old.work work;
    state_property = next_property;
    relation_order = old.relation_order ++ added;
    steps = old.steps ++ step ∷ [];
  }

  unfoldable pub extend_each : Work → P → S → List ℕ → List (Candidate P S) → List (Candidate P S)
  extend_each work next_property step added [] = []
  extend_each work next_property step added (old ∷ frontier) =
      extended work next_property step added old
      ∷ extend_each work next_property step added frontier
