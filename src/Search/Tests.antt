-- ===== src/Search/Tests.antt =====
-- quail/planner/search/leftdeep.py: the theorems on frontiers at concrete records.
use quail.Prelude.{nat_eq, length, ℕ, ◌+◌, ◌≤◌, ◌≡◌, refl, true, List, [], ◌∷◌, arith}
use quail.Search.Work.{Work, dominates}
use quail.Search.Frontier.{
  Candidate, is_covered, undominated, insert_nondominated, insert_each, extended,
}
use quail.Search.Joins.{
  Key, Priced, next_key, start, difference, available, with_one, union, meets, is_subset, singles,
  starts_of, search_left_deep,
}
use quail.Search.Levels.{first}
use quail.Search.Complete.{Reaches, starts_at, joins, search_left_deep_complete}
use quail.Search.Kept.{Member, here, there, is_antichain, insert_each_best, insert_each-antichain}

abbrev work_of : ℕ → ℕ → Work
work_of tokens pairs = record {
  tokens = tokens;
  pairs = pairs;
  kv_written = tokens;
  kv_read = 0;
  sliding_pairs = 0;
  sliding_kv_read = 0;
  state_written = 0;
  state_read = 0;
  sae_encoded = 0;
}

abbrev candidate : ℕ → ℕ → Candidate ℕ ℕ
candidate tokens pairs = record {
  work = work_of tokens pairs;
  state_property = 0;
  relation_order = 0 ∷ [];
  steps = [];
}

abbrev offered : List (Candidate ℕ ℕ)
offered = candidate 9 2 ∷ candidate 3 7 ∷ candidate 8 2 ∷ candidate 3 8 ∷ []

insert_each-offered : insert_each [] offered ≡ candidate 3 7 ∷ candidate 8 2 ∷ []
unfolding insert_each insert_nondominated is_covered undominated dominates
insert_each-offered = refl

abbrev seconds : Work → ℕ
seconds w = w.tokens + w.pairs

seconds_monotone : (a b : Work) → dominates a b ≡ true → seconds a ≤ seconds b
unfolding dominates
seconds_monotone a b h = ground arith

insert_each_best_example :
    (m : Candidate ℕ ℕ) × Member m (insert_each [] offered) × (seconds m.work ≤ 11)
insert_each_best_example =
    insert_each_best offered [] seconds (candidate 3 8) seconds_monotone
      (there _ _ (there _ _ (there _ _ (here []))))

insert_each-antichain_example : is_antichain (insert_each [] offered) ≡ true
unfolding is_antichain
insert_each-antichain_example = insert_each-antichain offered [] refl

-- Two joins in a chain of three tables, each of which costs more tokens if it comes second.
abbrev chain : List (List ℕ)
chain = (0 ∷ 1 ∷ []) ∷ (1 ∷ 2 ∷ []) ∷ []

abbrev priced : ℕ → Key ℕ → Priced ℕ ℕ
priced index key = record {
  work = work_of (index + length key.1.0) 1;
  next_property = 0;
  step = index;
}

abbrev price_step : ℕ → Key ℕ → List (Priced ℕ ℕ)
price_step index key = priced index key ∷ []

abbrev alone : Key ℕ
alone = (0 ∷ [], ([], 0))

abbrev joined : Key ℕ
joined = next_key alone (0, 0 ∷ 1 ∷ []) (priced 0 alone)

abbrev start_record : Candidate ℕ ℕ
start_record = start (work_of 0 0) 0 (0 ∷ [])

abbrev joined_record : Candidate ℕ ℕ
joined_record = extended (work_of 0 1) 0 0 (difference (0 ∷ 1 ∷ []) (0 ∷ [])) start_record

abbrev whole : Key ℕ
whole = next_key joined (1, 1 ∷ 2 ∷ []) (priced 1 joined)

abbrev whole_record : Candidate ℕ ℕ
whole_record = extended (priced 1 joined).work 0 1 (difference (1 ∷ 2 ∷ []) joined.0) joined_record

whole_reached :
    Reaches price_step chain
      (starts_of [] (singles (0 ∷ 1 ∷ 2 ∷ [])))
      (work_of 0 0)
      0
      whole
      whole_record
unfolding available with_one union meets is_subset difference singles
whole_reached =
    joins joined joined_record (1, 1 ∷ 2 ∷ []) (priced 1 joined)
      (joins alone start_record (0, 0 ∷ 1 ∷ []) (priced 0 alone) (starts_at (0 ∷ []) (first _))
        (first _) (first _))
      (first _) (first _)

search_left_deep_complete_example :
    (m : Candidate ℕ ℕ) × Member m
      (search_left_deep price_step (0 ∷ 1 ∷ 2 ∷ []) chain 0 (work_of 0 0) [])
    × (dominates m.work whole_record.work ≡ true)
unfolding with_one union is_subset singles
search_left_deep_complete_example =
    search_left_deep_complete price_step chain (starts_of [] (singles (0 ∷ 1 ∷ 2 ∷ [])))
      (work_of 0 0) 0 (0 ∷ 1 ∷ 2 ∷ []) [] whole whole_record refl whole_reached refl
