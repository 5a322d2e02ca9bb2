-- ===== src/Search/Kept.antt =====
-- quail/planner/search/leftdeep.py: what a frontier keeps of the candidates that it is offered.
use quail.Prelude.{
  ℕ, ◌≤◌, ◌≡◌, inl, inr, refl, Bool, true, false, not, ◌&&◌, ◌||◌, List, [], ◌∷◌, ◌++◌, Bool-cases,
  arith,
}
use quail.Search.Work.{Work, dominates, dominates_self, dominates_trans, dominates-plus}
use quail.Search.Frontier.{
  Candidate, is_covered, undominated, insert_nondominated, insert_each, extended, extend_each,
}

module _ {P S : Type 0} where
  pub covered-append :
      (c : Candidate P S) (xs ys : List (Candidate P S))
      → is_covered c (xs ++ ys) ≡ (is_covered c xs || is_covered c ys)
  unfolding is_covered
  covered-append c [] ys = refl
  covered-append c (x ∷ xs) ys = ground (arith, covered-append c xs ys)

  -- What a removed candidate covered, the one that removed it covers.
  covered-undominated :
      (c d : Candidate P S) (xs : List (Candidate P S))
      → is_covered d xs ≡ true
      → (is_covered d (undominated c xs) || dominates c.work d.work) ≡ true
  unfolding is_covered undominated
  covered-undominated c d [] h = ground arith
  covered-undominated c d (x ∷ xs) h =
      ground (arith, covered-undominated c d xs, dominates_trans c.work x.work d.work)

  insert-covered_new :
      (frontier : List (Candidate P S)) (c : Candidate P S)
      → is_covered c (insert_nondominated frontier c).1 ≡ true
  unfolding insert_nondominated is_covered
  insert-covered_new frontier c =
      ground (arith, covered-append c (undominated c frontier) (c ∷ []), dominates_self c.work)

  insert-covered_old :
      (frontier : List (Candidate P S)) (c d : Candidate P S)
      → is_covered d frontier ≡ true
      → is_covered d (insert_nondominated frontier c).1 ≡ true
  unfolding insert_nondominated is_covered
  insert-covered_old frontier c d h =
      ground (
        arith,
        covered-append d (undominated c frontier) (c ∷ []),
        covered-undominated c d frontier,
      )

  pub insert_each-covered_old :
      (cs frontier : List (Candidate P S)) (d : Candidate P S)
      → is_covered d frontier ≡ true
      → is_covered d (insert_each frontier cs) ≡ true
  unfolding insert_each
  insert_each-covered_old [] frontier d h = h
  insert_each-covered_old (c ∷ cs) frontier d h =
      insert_each-covered_old cs (insert_nondominated frontier c).1 d
        (insert-covered_old frontier c d h)

  pub data Member (c : Candidate P S) : List (Candidate P S) → Type 0 where
    here : (xs : List (Candidate P S)) → Member c (c ∷ xs)
    there : (x : Candidate P S) (xs : List (Candidate P S)) → Member c xs → Member c (x ∷ xs)

  pub insert_each-covered :
      (c : Candidate P S) (cs frontier : List (Candidate P S))
      → Member c cs
      → is_covered c (insert_each frontier cs) ≡ true
  unfolding insert_each
  insert_each-covered c _ frontier (here cs) =
      insert_each-covered_old cs (insert_nondominated frontier c).1 c
        (insert-covered_new frontier c)
  insert_each-covered c _ frontier (there x cs m) =
      insert_each-covered c cs (insert_nondominated frontier x).1 m

  pub covered-Member :
      (c : Candidate P S) (xs : List (Candidate P S))
      → is_covered c xs ≡ true
      → (m : Candidate P S) × Member m xs × (dominates m.work c.work ≡ true)
  unfolding is_covered
  covered-Member c [] h = ground arith
  covered-Member c (x ∷ xs) h = elim (Bool-cases (dominates x.work c.work)) [
    | inl d ↦ (x, here xs, d)
    | inr n ↦ let rest = covered-Member c xs (rw n at h) in (rest.0, there x xs rest.1, rest.2)
  ]

  -- The candidate that a monotone time of the work makes cheapest survives: for each candidate that
  -- was offered, the frontier at the end has one that takes no longer under every time that does
  -- not shrink when no count of the work does.
  pub insert_each_best :
      (cs frontier : List (Candidate P S)) (time : Work → ℕ) (c : Candidate P S)
      → ((a b : Work) → dominates a b ≡ true → time a ≤ time b)
      → Member c cs
      → (m : Candidate P S) × Member m (insert_each frontier cs) × (time m.work ≤ time c.work)
  insert_each_best cs frontier time c monotone offered =
      let kept =
        covered-Member c (insert_each frontier cs) (insert_each-covered c cs frontier offered) in
      (kept.0, kept.1, monotone kept.0.work c.work kept.2)

  -- No two candidates of the frontier dominate one another.
  unfoldable pub is_apart : Candidate P S → List (Candidate P S) → Bool
  is_apart c [] = true
  is_apart c (x ∷ xs) =
      (not (dominates x.work c.work) && not (dominates c.work x.work)) && is_apart c xs

  unfoldable pub is_antichain : List (Candidate P S) → Bool
  is_antichain [] = true
  is_antichain (x ∷ xs) = is_apart x xs && is_antichain xs

  apart-undominated :
      (c : Candidate P S) (xs : List (Candidate P S))
      → is_covered c xs ≡ false
      → is_apart c (undominated c xs) ≡ true
  unfolding is_covered undominated is_apart
  apart-undominated c [] h = refl
  apart-undominated c (x ∷ xs) h = ground (arith, apart-undominated c xs)

  undominated-apart :
      (c d : Candidate P S) (xs : List (Candidate P S))
      → is_apart d xs ≡ true
      → is_apart d (undominated c xs) ≡ true
  unfolding undominated is_apart
  undominated-apart c d [] h = refl
  undominated-apart c d (x ∷ xs) h = ground (arith, undominated-apart c d xs)

  undominated-antichain :
      (c : Candidate P S) (xs : List (Candidate P S))
      → is_antichain xs ≡ true
      → is_antichain (undominated c xs) ≡ true
  unfolding undominated is_antichain
  undominated-antichain c [] h = refl
  undominated-antichain c (x ∷ xs) h =
      ground (arith, undominated-antichain c xs, undominated-apart c x xs)

  apart-append :
      (c d : Candidate P S) (xs : List (Candidate P S))
      → is_apart d (xs ++ c ∷ []) ≡ (is_apart d xs && is_apart d (c ∷ []))
  unfolding is_apart
  apart-append c d [] = refl
  apart-append c d (x ∷ xs) = ground (arith, apart-append c d xs)

  antichain-append :
      (c : Candidate P S) (xs : List (Candidate P S))
      → is_antichain xs ≡ true
      → is_apart c xs ≡ true
      → is_antichain (xs ++ c ∷ []) ≡ true
  unfolding is_apart is_antichain
  antichain-append c [] h a = refl
  antichain-append c (x ∷ xs) h a = ground (arith, antichain-append c xs, apart-append c x xs)

  insert-antichain :
      (c : Candidate P S) (xs : List (Candidate P S))
      → is_antichain xs ≡ true
      → is_antichain (insert_nondominated xs c).1 ≡ true
  unfolding insert_nondominated
  insert-antichain c xs h = ground (
    arith,
    antichain-append c (undominated c xs),
    undominated-antichain c xs,
    apart-undominated c xs,
  )

  -- Whatever candidates are offered to a frontier in which no candidate dominates another, in any
  -- order, none does in the frontier at the end, and so no two have the same work.
  pub insert_each-antichain :
      (cs frontier : List (Candidate P S))
      → is_antichain frontier ≡ true
      → is_antichain (insert_each frontier cs) ≡ true
  unfolding insert_each
  insert_each-antichain [] frontier h = h
  insert_each-antichain (c ∷ cs) frontier h =
      insert_each-antichain cs (insert_nondominated frontier c).1 (insert-antichain c frontier h)

  -- Extending every record of a frontier by one step keeps what it covers: if a frontier covers a
  -- record, then the extended frontier covers the record's extension by the same step.
  pub extend_each-covered :
      (work : Work) (next_property : P) (step : S) (added : List ℕ) (c : Candidate P S)
      (frontier : List (Candidate P S))
      → is_covered c frontier ≡ true
      → is_covered
          (extended work next_property step added c)
          (extend_each work next_property step added frontier)
        ≡ true
  unfolding is_covered extend_each
  extend_each-covered work next_property step added c [] h = h
  extend_each-covered work next_property step added c (x ∷ xs) h = ground (
    arith,
    extend_each-covered work next_property step added c xs,
    dominates-plus x.work c.work work,
  )
