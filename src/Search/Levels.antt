-- ===== src/Search/Levels.antt =====
-- quail/planner/search/leftdeep.py: what the loops of `search_left_deep` keep of what the states
-- cover, and what they add.
use quail.Prelude.{
  ℕ, ◌≡◌, inl, inr, ap, subst, ◌∙◌, true, false, Option, none, some, List, [], ◌∷◌, nat_eq, list_eq,
  pair_eq, Eq, Bool-cases, arith,
}
use quail.Dict.{put, lookup-put_own, lookup-put_other}
use quail.Search.Work.{dominates, dominates_trans}
use quail.Search.Frontier.{Candidate, is_covered, insert_each, extended}
use quail.Search.Kept.{
  covered-Member, insert_each-covered, insert_each-covered_old, extend_each-covered,
}
use quail.Search.Joins.{
  Priced, Key, States, difference, available, frontier_at, next_key, apply_priced, apply_all_priced,
  apply_joins, apply_states,
}

pub data Among {A : Type 0} (a : A) : List A → Type 0 where
  first : (xs : List A) → Among a (a ∷ xs)
  later : (x : A) (xs : List A) → Among a xs → Among a (x ∷ xs)

module _ {P S : Type 0} where
  covered_weaken :
      (c d : Candidate P S) (xs : List (Candidate P S))
      → is_covered c xs ≡ true
      → dominates c.work d.work ≡ true
      → is_covered d xs ≡ true
  unfolding is_covered
  covered_weaken c d [] h k = h
  covered_weaken c d (x ∷ xs) h k =
      ground (arith, covered_weaken c d xs, dominates_trans x.work c.work d.work)

  -- What the offered candidates cover, the frontier covers at the end.
  insert_each-covers :
      (cs frontier : List (Candidate P S)) (d : Candidate P S)
      → is_covered d cs ≡ true
      → is_covered d (insert_each frontier cs) ≡ true
  insert_each-covers cs frontier d h =
      let m = covered-Member d cs h in
      covered_weaken m.0 d (insert_each frontier cs) (insert_each-covered m.0 cs frontier m.1) m.2

module _ {P S : Type 0} ⦃e : Eq P⦄ where
  abbrev frontier_or : Option (List (Candidate P S)) → List (Candidate P S)
  frontier_or none = []
  frontier_or (some frontier) = frontier

  pub frontier_at-put_own :
      (k : Key P) (v : List (Candidate P S)) (states : States P S)
      → frontier_at k (put k v states) ≡ v
  unfolding frontier_at
  frontier_at-put_own k v states = ap frontier_or (lookup-put_own k v states)

  frontier_at-put_other :
      (k j : Key P) (v : List (Candidate P S)) (states : States P S)
      → pair_eq.same k j ≡ false
      → frontier_at j (put k v states) ≡ frontier_at j states
  unfolding frontier_at
  frontier_at-put_other k j v states apart = ap frontier_or (lookup-put_other k j v states apart)

  unfoldable pub Covers : Key P → Candidate P S → States P S → Type 0
  Covers key c states = is_covered c (frontier_at key states) ≡ true

  pub put-keeps :
      (n k : Key P) (c : Candidate P S) (v : List (Candidate P S)) (states : States P S)
      → (is_covered c (frontier_at n states) ≡ true → is_covered c v ≡ true)
      → Covers k c states
      → Covers k c (put n v states)
  unfolding Covers
  put-keeps n k c v states grows h = elim (Bool-cases (pair_eq.same n k)) [
    | inr apart ↦ ap (is_covered c) (frontier_at-put_other n k v states apart) ∙ h
    | inl here ↦
        subst
          (λ q.
            is_covered c (frontier_at q states) ≡ true
            → is_covered c (frontier_at q (put n v states)) ≡ true)
          ((pair_eq.same_iff n k).0 here)
          (λ g. ap (is_covered c) (frontier_at-put_own n v states) ∙ grows g) h
  ]

  apply_priced-keeps :
      (k key : Key P) (c : Candidate P S) (frontier : List (Candidate P S)) (join : ℕ × List ℕ)
      (priced : Priced P S) (states : States P S)
      → Covers k c states
      → Covers k c (apply_priced key frontier join priced states)
  unfolding apply_priced
  apply_priced-keeps k key c frontier join priced states h =
      put-keeps (next_key key join priced) k c _ states
        (insert_each-covered_old _ (frontier_at (next_key key join priced) states) c) h

  apply_priced-Covers :
      (key : Key P) (c : Candidate P S) (frontier : List (Candidate P S)) (join : ℕ × List ℕ)
      (priced : Priced P S) (states : States P S)
      → is_covered c frontier ≡ true
      → Covers
          (next_key key join priced)
          (extended priced.work priced.next_property priced.step (difference join.1 key.0) c)
          (apply_priced key frontier join priced states)
  unfolding Covers apply_priced
  apply_priced-Covers key c frontier join priced states h =
      ap (is_covered _) (frontier_at-put_own (next_key key join priced) _ states)
      ∙ insert_each-covers _ (frontier_at (next_key key join priced) states) _ (
          extend_each-covered priced.work priced.next_property priced.step (difference join.1 key.0)
            c frontier h)

  apply_all_priced-keeps :
      (more : List (Priced P S)) (k key : Key P) (c : Candidate P S)
      (frontier : List (Candidate P S)) (join : ℕ × List ℕ) (states : States P S)
      → Covers k c states
      → Covers k c (apply_all_priced key frontier join more states)
  unfolding apply_all_priced
  apply_all_priced-keeps [] k key c frontier join states h = h
  apply_all_priced-keeps (priced ∷ more) k key c frontier join states h =
      apply_all_priced-keeps more k key c frontier join
        (apply_priced key frontier join priced states)
        (apply_priced-keeps k key c frontier join priced states h)

  apply_all_priced-Covers :
      (priced : Priced P S) (more : List (Priced P S)) (key : Key P) (c : Candidate P S)
      (frontier : List (Candidate P S)) (join : ℕ × List ℕ) (states : States P S)
      → Among priced more
      → is_covered c frontier ≡ true
      → Covers
          (next_key key join priced)
          (extended priced.work priced.next_property priced.step (difference join.1 key.0) c)
          (apply_all_priced key frontier join more states)
  unfolding apply_all_priced
  apply_all_priced-Covers priced _ key c frontier join states (first more) h =
      apply_all_priced-keeps more _ key _ frontier join
        (apply_priced key frontier join priced states)
        (apply_priced-Covers key c frontier join priced states h)
  apply_all_priced-Covers priced _ key c frontier join states (later x more m) h =
      apply_all_priced-Covers priced more key c frontier join
        (apply_priced key frontier join x states) m h

  module _ (price_step : ℕ → Key P → List (Priced P S)) where
    apply_joins-keeps :
        (joins : List (ℕ × List ℕ)) (k key : Key P) (c : Candidate P S)
        (frontier : List (Candidate P S)) (states : States P S)
        → Covers k c states
        → Covers k c (apply_joins price_step key frontier joins states)
    unfolding apply_joins
    apply_joins-keeps [] k key c frontier states h = h
    apply_joins-keeps (join ∷ joins) k key c frontier states h =
        apply_joins-keeps joins k key c frontier
          (apply_all_priced key frontier join (price_step join.0 key) states)
          (apply_all_priced-keeps (price_step join.0 key) k key c frontier join states h)

    apply_joins-Covers :
        (priced : Priced P S) (join : ℕ × List ℕ) (joins : List (ℕ × List ℕ)) (key : Key P)
        (c : Candidate P S) (frontier : List (Candidate P S)) (states : States P S)
        → Among join joins
        → Among priced (price_step join.0 key)
        → is_covered c frontier ≡ true
        → Covers
            (next_key key join priced)
            (extended priced.work priced.next_property priced.step (difference join.1 key.0) c)
            (apply_joins price_step key frontier joins states)
    unfolding apply_joins
    apply_joins-Covers priced join _ key c frontier states (first joins) m h =
        apply_joins-keeps joins _ key _ frontier
          (apply_all_priced key frontier join (price_step join.0 key) states)
          (apply_all_priced-Covers priced (price_step join.0 key) key c frontier join states m h)
    apply_joins-Covers priced join _ key c frontier states (later x joins n) m h =
        apply_joins-Covers priced join joins key c frontier
          (apply_all_priced key frontier x (price_step x.0 key) states) n m h

    pub apply_states-keeps :
        (edges : List (List ℕ)) (current : List (Key P × List (Candidate P S))) (k : Key P)
        (c : Candidate P S) (states : States P S)
        → Covers k c states
        → Covers k c (apply_states price_step edges current states)
    unfolding apply_states
    apply_states-keeps edges [] k c states h = h
    apply_states-keeps edges ((key, frontier) ∷ current) k c states h =
        apply_states-keeps edges current k c
          (apply_joins price_step key frontier (available 0 edges key.0 key.1.0) states)
          (apply_joins-keeps (available 0 edges key.0 key.1.0) k key c frontier states h)

    pub apply_states-Covers :
        (edges : List (List ℕ)) (key : Key P) (frontier : List (Candidate P S))
        (current : List (Key P × List (Candidate P S))) (priced : Priced P S) (join : ℕ × List ℕ)
        (c : Candidate P S) (states : States P S)
        → Among (key, frontier) current
        → Among join (available 0 edges key.0 key.1.0)
        → Among priced (price_step join.0 key)
        → is_covered c frontier ≡ true
        → Covers
            (next_key key join priced)
            (extended priced.work priced.next_property priced.step (difference join.1 key.0) c)
            (apply_states price_step edges current states)
    unfolding apply_states
    apply_states-Covers edges key frontier _ priced join c states (first current) n m h =
        apply_states-keeps edges current _ _
          (apply_joins price_step key frontier (available 0 edges key.0 key.1.0) states)
          (apply_joins-Covers priced join (available 0 edges key.0 key.1.0) key c frontier states n
            m h)
    apply_states-Covers edges key frontier _ priced join c states (later x current a) n m h =
        apply_states-Covers edges key frontier current priced join c
          (apply_joins price_step x.0 x.1 (available 0 edges x.0.0 x.0.1.0) states) a n m h
