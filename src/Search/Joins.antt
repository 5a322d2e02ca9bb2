-- ===== src/Search/Joins.antt =====
-- quail/planner/search/leftdeep.py: `search_left_deep`. An alias is a number, and a frozenset of
-- aliases or of joins is the strictly increasing list of its elements.
use quail.Prelude.{
  ℕ, zero, suc, Bool, true, false, not, ◌&&◌, ◌||◌, none, some, List, [], ◌∷◌, ◌++◌, ltb, ◌==◌,
  if◌then◌else◌, nat_eq, list_eq, pair_eq, Eq, length, member,
}
use quail.Dict.{Dict, lookup, put}
use quail.Search.Work.{Work}
use quail.Search.Frontier.{Candidate, insert_each, extend_each}

-- `numbers | {n}`
unfoldable pub with_one : ℕ → List ℕ → List ℕ
with_one n [] = n ∷ []
with_one n (m ∷ ms) =
    let rest = with_one n ms in if n == m then m ∷ ms else if ltb n m then n ∷ m ∷ ms else m ∷ rest

-- `xs | ys`
unfoldable pub union : List ℕ → List ℕ → List ℕ
union [] ys = ys
union (x ∷ xs) ys = with_one x (union xs ys)

-- `xs - ys`
unfoldable pub difference : List ℕ → List ℕ → List ℕ
difference [] ys = []
difference (x ∷ xs) ys = let rest = difference xs ys in if member x ys then rest else x ∷ rest

-- `xs <= ys`
unfoldable pub is_subset : List ℕ → List ℕ → Bool
is_subset [] ys = true
is_subset (x ∷ xs) ys = member x ys && is_subset xs ys

-- `xs & ys`, as a test
unfoldable pub meets : List ℕ → List ℕ → Bool
meets [] ys = false
meets (x ∷ xs) ys = member x ys || meets xs ys

-- The indices that a join may have next: `enumerate(edges)`, from an index on.
unfoldable pub available : ℕ → List (List ℕ) → List ℕ → List ℕ → List (ℕ × List ℕ)
available index [] relations applied = []
available index (ends ∷ edges) relations applied =
    let rest = available (suc index) edges relations applied in
    if not (member index applied)
      && (is_subset ends relations
          || (meets ends relations && (length (difference ends relations) == 1)))
    then (index, ends) ∷ rest
    else rest

-- What `price_step` yields for one way to apply a join.
pub record Priced (P S : Type 0) : Type 0 where
  pub work : Work
  pub next_property : P
  pub step : S

abbrev pub Key : Type 0 → Type 0
Key P = List ℕ × (List ℕ × P)

abbrev pub States : Type 0 → Type 0 → Type 0
States P S = Dict (Key P) (List (Candidate P S))

-- `singles` are the aliases, each alone; the source starts from the seeds instead, if there are any.
abbrev pub starts_of : List ℕ → List (List ℕ) → List (List ℕ)
starts_of [] singles = singles
starts_of (seed ∷ seeds) singles = (seed ∷ seeds) ∷ []

unfoldable pub singles : List ℕ → List (List ℕ)
singles [] = []
singles (alias_name ∷ aliases) = (alias_name ∷ []) ∷ singles aliases

module _ {P S : Type 0} ⦃e : Eq P⦄ where
  -- `states.setdefault(key, [])`
  unfoldable pub frontier_at : Key P → States P S → List (Candidate P S)
  frontier_at key states = elim (lookup key states) [ none ↦ [] | some frontier ↦ frontier ]

  -- The state that a join reaches.
  abbrev pub next_key : Key P → ℕ × List ℕ → Priced P S → Key P
  next_key key join priced = (union key.0 join.1, (with_one join.0 key.1.0, priced.next_property))

  -- One way to apply a join to every record of a state.
  unfoldable pub apply_priced :
      Key P → List (Candidate P S) → ℕ × List ℕ → Priced P S → States P S → States P S
  apply_priced key frontier join priced states =
      put (next_key key join priced)
        (insert_each (frontier_at (next_key key join priced) states) (
          extend_each priced.work priced.next_property priced.step (difference join.1 key.0)
            frontier))
        states

  unfoldable pub apply_all_priced :
      Key P → List (Candidate P S) → ℕ × List ℕ → List (Priced P S) → States P S → States P S
  apply_all_priced key frontier join [] states = states
  apply_all_priced key frontier join (priced ∷ more) states =
      apply_all_priced key frontier join more (apply_priced key frontier join priced states)

  -- `current`
  unfoldable pub at_level : ℕ → States P S → List (Key P × List (Candidate P S))
  at_level num_applied [] = []
  at_level num_applied ((key, frontier) ∷ states) =
      let rest = at_level num_applied states in
      if length key.1.0 == num_applied then (key, frontier) ∷ rest else rest

  module _ (price_step : ℕ → Key P → List (Priced P S)) where
    unfoldable pub apply_joins :
        Key P → List (Candidate P S) → List (ℕ × List ℕ) → States P S → States P S
    apply_joins key frontier [] states = states
    apply_joins key frontier (join ∷ joins) states =
        apply_joins key frontier joins
          (apply_all_priced key frontier join (price_step join.0 key) states)

    unfoldable pub apply_states :
        List (List ℕ) → List (Key P × List (Candidate P S)) → States P S → States P S
    apply_states edges [] states = states
    apply_states edges ((key, frontier) ∷ current) states =
        apply_states edges current
          (apply_joins key frontier (available 0 edges key.0 key.1.0) states)

    -- The states after the first levels.
    unfoldable pub levels : List (List ℕ) → ℕ → States P S → States P S
    levels edges zero states = states
    levels edges (suc n) states =
        let before = levels edges n states in apply_states edges (at_level n before) before

  -- The states of the starts, each with one record.
  abbrev pub start : Work → P → List ℕ → Candidate P S
  start base_work initial_property relations = record {
    work = base_work;
    state_property = initial_property;
    relation_order = relations;
    steps = [];
  }

  unfoldable pub start_states : Work → P → List (List ℕ) → States P S → States P S
  start_states base_work initial_property [] states = states
  start_states base_work initial_property (relations ∷ starts) states =
      start_states base_work initial_property starts (
        put (relations, ([], initial_property)) (start base_work initial_property relations ∷ [])
          states)

  unfoldable pub finals : ℕ → List ℕ → States P S → List (Candidate P S)
  finals num_edges all_aliases [] = []
  finals num_edges all_aliases ((key, frontier) ∷ states) =
      let rest = finals num_edges all_aliases states in
      if (length key.1.0 == num_edges) && is_subset all_aliases key.0
      then frontier ++ rest
      else rest

  -- The final records; the counts of states and of records are left out.
  unfoldable pub search_left_deep :
      (ℕ → Key P → List (Priced P S))
      → List ℕ
      → List (List ℕ)
      → P
      → Work
      → List ℕ
      → List (Candidate P S)
  search_left_deep price_step aliases edges initial_property base_work seeds =
      finals (length edges) (union aliases seeds) (
        levels price_step edges (length edges)
          (start_states base_work initial_property (starts_of seeds (singles aliases)) []))
