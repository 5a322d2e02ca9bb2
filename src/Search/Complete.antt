-- ===== src/Search/Complete.antt =====
-- quail/planner/search/leftdeep.py: `search_left_deep` misses no order of the joins.
use quail.Prelude.{
  ℕ, suc, ◌≡◌, ◌⊎◌, inl, inr, refl, sym, ap, subst, ◌∙◌, Bool, true, false, not, ◌&&◌, ◌||◌, some,
  List, [], ◌∷◌, ◌==◌, ==_iff, nat_eq, list_eq, pair_eq, Eq, length, member, Bool-cases,
  Option-cases, arith,
}
use quail.Dict.{lookup, put}
use quail.Search.Work.{Work, dominates, dominates_self}
use quail.Search.Frontier.{Candidate, is_covered, extended}
use quail.Search.Kept.{Member, covered-Member, covered-append}
use quail.Search.Joins.{
  Priced, Key, States, with_one, union, meets, is_subset, difference, available, frontier_at,
  next_key, at_level, levels, start, start_states, finals, singles, starts_of, search_left_deep,
}
use quail.Search.Levels.{
  Among, first, later, Covers, put-keeps, frontier_at-put_own, apply_states-Covers,
}

among_cons : {A : Type 0} (a x : A) (xs : List A) → Among a (x ∷ xs) → (x ≡ a) ⊎ Among a xs
among_cons a _ _ (first xs) = inl refl
among_cons a _ _ (later x xs m) = inr m

not_among_nil : {A : Type 0} (a : A) → Among a [] → false ≡ true
not_among_nil a m = elim m [ ]

available-fresh :
    (edges : List (List ℕ)) (index : ℕ) (relations applied : List ℕ) (join : ℕ × List ℕ)
    → Among join (available index edges relations applied)
    → member join.0 applied ≡ false
unfolding available
available-fresh [] index relations applied join m = let bad = not_among_nil join m in ground arith
available-fresh (ends ∷ edges) index relations applied join m =
    elim (Bool-cases (
      not (member index applied)
      && (is_subset ends relations
          || (meets ends relations && (length (difference ends relations) == 1))))) [
            | inr no_join ↦
                available-fresh edges (suc index) relations applied join (rw no_join at m)
            | inl yes_join ↦
                elim (among_cons join (index, ends) (available (suc index) edges relations applied)
                  (rw yes_join at m)) [
                    | inr rest ↦ available-fresh edges (suc index) relations applied join rest
                    | inl same ↦
                        let fresh : member index applied ≡ false = ground arith in
                        sym (ap (λ j. member j.0 applied) same) ∙ fresh
                  ]
          ]

length-with_one :
    (n : ℕ) (ms : List ℕ) → member n ms ≡ false → length (with_one n ms) ≡ suc (length ms)
unfolding with_one
length-with_one n [] h = refl
length-with_one n (m ∷ ms) h = ground (arith, length-with_one n ms)

or_true : (b : Bool) → (b || true) ≡ true
or_true true = refl
or_true false = refl

module _ {P S : Type 0} ⦃e : Eq P⦄ where
  start_covers :
      (states : States P S) (base_work : Work) (initial_property : P) (r relations : List ℕ)
      → is_covered {S = S}
          (start base_work initial_property relations)
          (start base_work initial_property r ∷ [])
        ≡ true
  unfolding is_covered
  start_covers states base_work initial_property r relations = rw (dominates_self base_work)

  at_level-Among :
      (n : ℕ) (key : Key P) (frontier : List (Candidate P S)) (states : States P S)
      → lookup key states ≡ some frontier
      → (length key.1.0 == n) ≡ true
      → Among (key, frontier) (at_level n states)
  unfolding lookup at_level
  at_level-Among n key frontier [] is h = ground arith
  at_level-Among n key frontier ((k, f) ∷ states) is h = elim (Bool-cases (pair_eq.same k key)) [
    | inl here ↦
        let same : some f ≡ some frontier = rw here at is in
        let keys = (pair_eq.same_iff k key).0 here in
        let pair : (k, f) ≡ (key, frontier) = ground (arith, keys, same) in
        let level = subst (λ q. (length q.1.0 == n) ≡ true) (sym keys) h in
        rw level
          (subst (λ q. Among q ((k, f) ∷ at_level n states)) pair (first (at_level n states)))
    | inr apart ↦ elim (Bool-cases (length k.1.0 == n)) [
      | inl y ↦ rw y (later (k, f) _ (at_level-Among n key frontier states (rw apart at is) h))
      | inr y ↦ rw y (at_level-Among n key frontier states (rw apart at is) h)
    ]
  ]

  covered_level :
      (n : ℕ) (key : Key P) (c : Candidate P S) (states : States P S)
      → Covers key c states
      → (length key.1.0 == n) ≡ true
      → (frontier : List (Candidate P S)) × Among (key, frontier) (at_level n states)
        × (is_covered c frontier ≡ true)
  unfolding Covers frontier_at is_covered
  covered_level n key c states h l = elim (Option-cases (lookup key states)) [
    | inl none_is ↦ let bad = rw (none_is, frontier_at) at h in ground arith
    | inr (frontier, is) ↦
        (frontier, at_level-Among n key frontier states is l, rw (is, frontier_at) at h)
  ]

  finals-Covers :
      (num_edges : ℕ) (all_aliases : List ℕ) (key : Key P) (c : Candidate P S) (states : States P S)
      → Covers key c states
      → ((length key.1.0 == num_edges) && is_subset all_aliases key.0) ≡ true
      → is_covered c (finals num_edges all_aliases states) ≡ true
  unfolding Covers frontier_at finals lookup is_covered
  finals-Covers num_edges all_aliases key c [] h complete = h
  finals-Covers num_edges all_aliases key c ((k, f) ∷ states) h complete =
      elim (Bool-cases (pair_eq.same k key)) [
        | inl here ↦
            let mine : is_covered c f ≡ true = rw (here, frontier_at) at h in
            let whole =
              subst (λ q. ((length q.1.0 == num_edges) && is_subset all_aliases q.0) ≡ true)
                (sym ((pair_eq.same_iff k key).0 here)) complete in
            rw whole (covered-append c f (finals num_edges all_aliases states) ∙ rw mine)
        | inr apart ↦
            let rest =
              finals-Covers num_edges all_aliases key c states (rw (apart, frontier_at) at h)
                complete in
            elim (Bool-cases ((length k.1.0 == num_edges) && is_subset all_aliases k.0)) [
              | inl y ↦ rw y (
                  covered-append c f (finals num_edges all_aliases states)
                  ∙ (rw rest (or_true (is_covered c f))))
              | inr y ↦ rw y rest
            ]
      ]

  start_states-keeps :
      (starts : List (List ℕ)) (base_work : Work) (initial_property : P) (relations : List ℕ)
      (states : States P S)
      → Covers
          (relations, ([], initial_property))
          (start base_work initial_property relations)
          states
      → Covers
          (relations, ([], initial_property))
          (start base_work initial_property relations)
          (start_states base_work initial_property starts states)
  unfolding start_states
  start_states-keeps [] base_work initial_property relations states h = h
  start_states-keeps (r ∷ starts) base_work initial_property relations states h =
      start_states-keeps starts base_work initial_property relations
        (put (r, ([], initial_property)) (start base_work initial_property r ∷ []) states)
        (put-keeps (r, ([], initial_property)) _ _ (start base_work initial_property r ∷ []) states
          (λ old. start_covers states base_work initial_property r relations) h)

  start_states-Covers :
      (relations : List ℕ) (starts : List (List ℕ)) (base_work : Work) (initial_property : P)
      (states : States P S)
      → Among relations starts
      → Covers
          (relations, ([], initial_property))
          (start base_work initial_property relations)
          (start_states base_work initial_property starts states)
  unfolding start_states
  start_states-Covers relations _ base_work initial_property states (first starts) =
      start_states-keeps starts base_work initial_property relations
        (put (relations, ([], initial_property)) (start base_work initial_property relations ∷ [])
          states)
        (unfold Covers in
          ap (is_covered _) (frontier_at-put_own (relations, ([], initial_property)) _ states)
          ∙ start_covers states base_work initial_property relations relations)
  start_states-Covers relations _ base_work initial_property states (later x starts m) =
      start_states-Covers relations starts base_work initial_property
        (put (x, ([], initial_property)) (start base_work initial_property x ∷ []) states) m

  -- The records that some order of the joins makes, with the state that they stand for.
  module _ (price_step : ℕ → Key P → List (Priced P S)) (edges starts : List (List ℕ))
      (base_work : Work) (initial_property : P) where
    pub data Reaches : Key P → Candidate P S → Type 0 where
      starts_at :
          (relations : List ℕ)
          → Among relations starts
          → Reaches (relations, ([], initial_property)) (start base_work initial_property relations)
      joins :
          (key : Key P) (c : Candidate P S) (join : ℕ × List ℕ) (priced : Priced P S)
          → Reaches key c
          → Among join (available 0 edges key.0 key.1.0)
          → Among priced (price_step join.0 key)
          → Reaches
              (next_key key join priced)
              (extended priced.work priced.next_property priced.step (difference join.1 key.0) c)

    initial : States P S
    initial = start_states base_work initial_property starts []

    Reaches-Covers :
        (key : Key P) (c : Candidate P S)
        → Reaches key c
        → Covers key c (levels price_step edges (length key.1.0) initial)
    unfolding levels initial
    Reaches-Covers _ _ (starts_at relations m) =
        start_states-Covers relations starts base_work initial_property [] m
    Reaches-Covers _ _ (joins key c join priced r a b) =
        let n = length key.1.0 in
        let before = levels price_step edges n initial in
        let one = length-with_one join.0 key.1.0 (available-fresh edges 0 key.0 key.1.0 join a) in
        let found = covered_level n key c before (Reaches-Covers key c r) ((==_iff n n).1 refl) in
        subst
          (λ q.
            Covers (next_key key join priced)
              (extended priced.work priced.next_property priced.step (difference join.1 key.0) c)
              (levels price_step edges q initial))
          (sym one)
          (apply_states-Covers price_step edges key found.0 (at_level n before) priced join c before
            found.1 a b found.2)

    -- However `price_step` prices the steps: every record that applies every join in some order that
    -- the search allows, and joins every alias, is dominated by a record of the result.
    pub search_left_deep_complete :
        (aliases seeds : List ℕ) (key : Key P) (c : Candidate P S)
        → starts ≡ starts_of seeds (singles aliases)
        → Reaches key c
        → ((length key.1.0 == length edges) && is_subset (union aliases seeds) key.0) ≡ true
        → (m : Candidate P S) × Member m
            (search_left_deep price_step aliases edges initial_property base_work seeds)
          × (dominates m.work c.work ≡ true)
    unfolding search_left_deep initial
    search_left_deep_complete aliases seeds key c s r complete =
        let applied : length key.1.0 ≡ length edges =
          ground (arith, ==_iff (length key.1.0) (length edges)) in
        let at_end =
          subst (λ n. Covers key c (levels price_step edges n initial)) applied
            (Reaches-Covers key c r) in
        let there =
          subst
            (λ x. Covers key c (
              levels price_step edges (length edges)
                (start_states base_work initial_property x [])))
            s at_end in
        covered-Member c _
          (finals-Covers (length edges) (union aliases seeds) key c _ there complete)
