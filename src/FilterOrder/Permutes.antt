-- ===== src/FilterOrder/Permutes.antt =====
-- quail/planner/search/filter_order.py: the order has every predicate once.
use quail.Prelude.{
  ℕ, zero, suc, ◌+◌, ◌≤◌, ◌≡◌, refl, ap, ◌∙◌, Bool, not, List, [], ◌∷◌, ◌==◌, if◌then◌else◌, arith,
  ltb, length, map, keep_if, count, count-append, Bool-cases, inl, inr, ==_iff,
}
use quail.Pages.Heap.{All}
use quail.FilterOrder.Choose.{
  Floats, Predicate, Rule, by_cost, as_written, Residency, Walk, Choice, Candidate, remove,
  is_before, choice_of, least_choice, chosen, extend, walk_from, candidate_of, least_candidate,
  starters, indices, best_from, order_filters_indexed,
}

module _ {F : Type 0} (o : Floats F) where
  -- How often an index stands among the predicates.
  abbrev pub times : ℕ → List (Predicate F) → ℕ
  times i predicates = count i (indices o predicates)

  count-remove :
      (selected i : ℕ) (predicates : List (Predicate F))
      → 1 ≤ times selected predicates
      → (if selected == i then 1 else 0) + times i (remove selected predicates) ≡ times i predicates
  unfolding remove
  count-remove selected i [] h = absurd (omega arith)
  count-remove selected i (p ∷ predicates) h = ground (arith, count-remove selected i predicates)

  length-remove :
      (selected : ℕ) (predicates : List (Predicate F))
      → 1 ≤ times selected predicates
      → suc (length (remove selected predicates)) ≡ length predicates
  unfolding remove
  length-remove selected [] h = absurd (omega arith)
  length-remove selected (p ∷ predicates) h = ground (arith, length-remove selected predicates)

  times-keep_if :
      (first i : ℕ) (predicates : List (Predicate F))
      → times i (keep_if (λ q. not (q.index == first)) predicates)
        ≡ (if i == first then 0 else times i predicates)
  times-keep_if first i [] = ground arith
  times-keep_if first i (p ∷ predicates) = ground (arith, times-keep_if first i predicates)

  times-starters :
      (f : Predicate F → Bool) (i : ℕ) (predicates : List (Predicate F))
      → times i (keep_if f predicates) ≤ times i predicates
  times-starters f i [] = omega arith
  times-starters f i (p ∷ predicates) = ground (arith, times-starters f i predicates)

  least_choice-All :
      (Q : Choice F → Type 0) (c : Choice F) (choices : List (Choice F))
      → Q c
      → All Q choices
      → Q (least_choice o c choices)
  unfolding least_choice
  least_choice-All Q c [] h hs = h
  least_choice-All Q c (d ∷ choices) h hs =
      elim (Bool-cases (is_before o d.rank d.predicate.index c.rank c.predicate.index)) [
        | inl before ↦ rw before (least_choice-All Q d choices hs.0 hs.1)
        | inr after ↦ rw after (least_choice-All Q c choices h hs.1)
      ]

  pub least_candidate-All :
      (Q : Candidate F → Type 0) (c : Candidate F) (candidates : List (Candidate F))
      → Q c
      → All Q candidates
      → Q (least_candidate o c candidates)
  unfolding least_candidate
  least_candidate-All Q c [] h hs = h
  least_candidate-All Q c (d ∷ candidates) h hs =
      elim (Bool-cases (is_before o d.total d.first c.total c.first)) [
        | inl before ↦ rw before (least_candidate-All Q d candidates hs.0 hs.1)
        | inr after ↦ rw after (least_candidate-All Q c candidates h hs.1)
      ]

  choices_within :
      (resident : Residency) (walk : Walk F) (all predicates : List (Predicate F))
      → ((i : ℕ) → times i predicates ≤ times i all)
      → All (λ c. 1 ≤ times c.predicate.index all) (map (choice_of o resident walk) predicates)
  choices_within resident walk all [] within = tt
  choices_within resident walk all (p ∷ predicates) within = (
    ground (arith, within p.index),
    choices_within resident walk all predicates (λ i. ground (arith, within i)),
  )

  -- The predicates that remain all come to the order.
  count-extend :
      (i rounds : ℕ) (resident : Residency) (walk : Walk F) (remaining : List (Predicate F))
      → length remaining ≤ rounds
      → count i (extend o rounds resident walk remaining).ordered
        ≡ count i walk.ordered + times i remaining
  unfolding extend
  count-extend i zero resident walk [] enough = omega arith
  count-extend i zero resident walk (p ∷ remaining) enough = absurd (omega arith)
  count-extend i (suc rounds) resident walk [] enough = omega arith
  count-extend i (suc rounds) resident walk (p ∷ remaining) enough =
      let c =
        least_choice o (choice_of o resident walk p) (map (choice_of o resident walk) remaining) in
      let within =
        choices_within resident walk (p ∷ remaining) (p ∷ remaining) (λ k. omega arith) in
      let stands : 1 ≤ times c.predicate.index (p ∷ remaining) =
        least_choice-All (λ d. 1 ≤ times d.predicate.index (p ∷ remaining)) _ _ within.0 within.1 in
      let rest = remove c.predicate.index (p ∷ remaining) in
      let short = length-remove c.predicate.index (p ∷ remaining) stands in
      count-extend i rounds resident (chosen o walk c) rest (omega arith)
      ∙ ap (λ n. n + times i rest) (count-append i walk.ordered (c.predicate.index ∷ []))
      ∙ omega (arith, count-remove c.predicate.index i (p ∷ remaining) stands)

  module _ (resident : Residency) (rows : F) (predicates : List (Predicate F)) where
    candidate_orders :
        (i : ℕ) (p : Predicate F)
        → times p.index predicates ≡ 1
        → count i (candidate_of o resident rows predicates p).ordered ≡ times i predicates
    unfolding candidate_of
    candidate_orders i p once =
        let remaining = keep_if (λ q. not (q.index == p.index)) predicates in
        count-extend i (length remaining) resident (walk_from o rows p) remaining (omega arith)
        ∙ elim (Bool-cases (i == p.index)) [
          | inl same ↦
              let here = ap (λ k. times k predicates) ((==_iff i p.index).0 same) in
              ground (arith, times-keep_if p.index i predicates)
          | inr apart ↦ ground (arith, times-keep_if p.index i predicates)
        ]

    starters_once :
        (some_of : List (Predicate F))
        → ((i : ℕ) → times i some_of ≤ times i predicates)
        → ((i : ℕ) → times i predicates ≤ 1)
        → All (λ p. times p.index predicates ≡ 1) some_of
    starters_once [] within once = tt
    starters_once (p ∷ some_of) within once = (
      ground (arith, within p.index, once p.index),
      starters_once some_of (λ i. ground (arith, within i)) once,
    )

    candidates_order :
        (i : ℕ) (some_of : List (Predicate F))
        → All (λ p. times p.index predicates ≡ 1) some_of
        → All
            (λ c. count i c.ordered ≡ times i predicates)
            (map (candidate_of o resident rows predicates) some_of)
    candidates_order i [] once = tt
    candidates_order i (p ∷ some_of) once =
        (candidate_orders i p once.0, candidates_order i some_of once.1)

    best_from_orders :
        (i : ℕ) (some_of : List (Predicate F))
        → All (λ p. times p.index predicates ≡ 1) some_of
        → count i (best_from o resident rows predicates some_of) ≡ times i predicates
    best_from_orders i [] once = refl
    best_from_orders i (p ∷ some_of) once =
        let all = candidates_order i (p ∷ some_of) once in
        least_candidate-All (λ c. count i c.ordered ≡ times i predicates) _ _ all.0 all.1

    -- Where no two predicates have one index, the order that `order_filters_indexed` gives has every
    -- index as often as the predicates have it, with either rule: it leaves none out and doubles none.
    pub order_filters_indexed_permutes :
        (rule : Rule) (i : ℕ)
        → ((k : ℕ) → count k (map (λ p. p.index) predicates) ≤ 1)
        → count i (order_filters_indexed o predicates rule rows resident)
          ≡ count i (map (λ p. p.index) predicates)
    unfolding order_filters_indexed
    order_filters_indexed_permutes as_written i once = refl
    order_filters_indexed_permutes by_cost i once = elim (Bool-cases (ltb (length predicates) 2)) [
      | inl short ↦ rw short refl
      | inr long ↦ rw long (
          best_from_orders i (starters o predicates) (
            starters_once (starters o predicates)
              (λ k. times-starters (λ p. o.less p.selectivity o.one) k predicates) once))
    ]
