-- ===== src/FilterOrder/Choose.antt =====
-- quail/planner/search/filter_order.py: `order_filters_indexed`. The entries of a list carry their
-- index, where the source keeps lists of indices. Its dictionary of costs only saves calls.
use quail.Prelude.{
  ℕ, zero, suc, Bool, true, false, not, Option, none, some, List, [], ◌∷◌, ◌++◌, ltb, ◌==◌,
  if◌then◌else◌, given, length, map, member, keep_if,
}

-- Floats.
pub record Floats (F : Type 0) : Type 0 where
  pub nothing : F
  pub one : F
  pub infinite : F
  pub plus : F → F → F
  pub minus : F → F → F
  pub times : F → F → F
  pub divide : F → F → F
  pub less : F → F → Bool

pub record Predicate (F : Type 0) : Type 0 where
  pub index : ℕ
  pub first : F → F
  pub later : F → F
  pub selectivity : F
  pub reuse_key : Option ℕ

pub data Rule : Type 0 where
  by_cost as_written : Rule

-- `resident`, on the two predicates' indices.
abbrev pub Residency : Type 0
Residency = Option (ℕ → ℕ → Bool)

-- The loop's variables.
pub record Walk (F : Type 0) : Type 0 where
  pub ordered : List ℕ
  pub total : F
  pub expected_rows : F
  pub scored : List ℕ
  pub previous : ℕ

pub record Choice (F : Type 0) : Type 0 where
  pub rank : F
  pub predicate : Predicate F
  pub seconds : F

pub record Candidate (F : Type 0) : Type 0 where
  pub total : F
  pub first : ℕ
  pub ordered : List ℕ

abbrev pub add_key : Option ℕ → List ℕ → List ℕ
add_key none scored = scored
add_key (some key) scored = key ∷ scored

-- `remaining.remove(selected)`
unfoldable pub remove : {F : Type 0} → ℕ → List (Predicate F) → List (Predicate F)
remove selected [] = []
remove selected (p ∷ remaining) =
    let rest = remove selected remaining in if p.index == selected then remaining else p ∷ rest

abbrev pub fresh : Residency → ℕ → ℕ → Bool
fresh none previous i = false
fresh (some resident) previous i = not (resident previous i)

module _ {F : Type 0} (o : Floats F) where
  abbrev pub is_positive : F → Bool
  is_positive x = o.less o.nothing x

  -- `(p.first if first else p.later)(expected_rows)`
  abbrev pub cost : Predicate F → F → Bool → F
  cost p expected_rows first = if first then p.first expected_rows else p.later expected_rows

  abbrev pub seconds_of : Residency → Walk F → Predicate F → F
  seconds_of resident walk p =
      if given p.reuse_key false (λ key. member key walk.scored)
      then o.nothing
      else cost p (if is_positive walk.expected_rows then walk.expected_rows else o.one)
          (fresh resident walk.previous p.index)

  -- No time is less than 0, so that a time is 0 where 0 is not less.
  abbrev pub rank_of : F → F → F
  rank_of seconds rejected =
      if is_positive rejected
      then o.divide seconds rejected
      else if is_positive seconds
      then o.infinite
      else o.nothing

  abbrev pub choice_of : Residency → Walk F → Predicate F → Choice F
  choice_of resident walk p =
      let seconds = seconds_of resident walk p in
      record {
        rank = rank_of seconds (o.minus o.one p.selectivity);
        predicate = p;
        seconds = if is_positive walk.expected_rows then seconds else o.nothing;
      }

  -- `<` on the tuples: two entries have different indices, so that it looks no further.
  abbrev pub is_before : F → ℕ → F → ℕ → Bool
  is_before x i y j = if o.less x y then true else if o.less y x then false else ltb i j

  -- `min(choices)`
  unfoldable pub least_choice : Choice F → List (Choice F) → Choice F
  least_choice c [] = c
  least_choice c (d ∷ choices) =
      least_choice (if is_before d.rank d.predicate.index c.rank c.predicate.index then d else c)
        choices

  abbrev pub chosen : Walk F → Choice F → Walk F
  chosen walk c = record {
    ordered = walk.ordered ++ c.predicate.index ∷ [];
    total = o.plus walk.total c.seconds;
    expected_rows = o.times walk.expected_rows c.predicate.selectivity;
    scored = add_key c.predicate.reuse_key walk.scored;
    previous = c.predicate.index;
  }

  -- `while remaining`, with a round for each predicate that remains.
  unfoldable pub extend : ℕ → Residency → Walk F → List (Predicate F) → Walk F
  unfolding least_choice remove
  extend zero resident walk remaining = walk
  extend (suc rounds) resident walk [] = walk
  extend (suc rounds) resident walk (p ∷ remaining) =
      let c = least_choice (choice_of resident walk p) (map (choice_of resident walk) remaining) in
      extend rounds resident (chosen walk c) (remove c.predicate.index (p ∷ remaining))

  abbrev pub walk_from : F → Predicate F → Walk F
  walk_from count p = record {
    ordered = p.index ∷ [];
    total = cost p count true;
    expected_rows = o.times count p.selectivity;
    scored = add_key p.reuse_key [];
    previous = p.index;
  }

  unfoldable pub candidate_of : Residency → F → List (Predicate F) → Predicate F → Candidate F
  unfolding extend
  candidate_of resident count predicates p =
      let remaining = keep_if (λ q. not (q.index == p.index)) predicates in
      let walk = extend (length remaining) resident (walk_from count p) remaining in
      record { total = walk.total; first = p.index; ordered = walk.ordered }

  -- `min(candidates)`
  unfoldable pub least_candidate : Candidate F → List (Candidate F) → Candidate F
  least_candidate c [] = c
  least_candidate c (d ∷ candidates) =
      least_candidate (if is_before d.total d.first c.total c.first then d else c) candidates

  abbrev pub starters : List (Predicate F) → List (Predicate F)
  starters predicates = keep_if (λ p. o.less p.selectivity o.one) predicates

  abbrev pub indices : List (Predicate F) → List ℕ
  indices predicates = map (λ p. p.index) predicates

  abbrev pub best_from : Residency → F → List (Predicate F) → List (Predicate F) → List ℕ
  best_from resident count predicates [] = indices predicates
  best_from resident count predicates (p ∷ rest) =
      (least_candidate (candidate_of resident count predicates p)
        (map (candidate_of resident count predicates) rest)).ordered

  unfoldable pub order_filters_indexed : List (Predicate F) → Rule → F → Residency → List ℕ
  unfolding candidate_of least_candidate
  order_filters_indexed predicates as_written count resident = indices predicates
  order_filters_indexed predicates by_cost count resident =
      if ltb (length predicates) 2
      then indices predicates
      else best_from resident count predicates (starters predicates)
