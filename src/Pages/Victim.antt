-- ===== src/Pages/Victim.antt =====
-- quail/backends/quail/executor/pages.py: `pop_retained_victim` on a retention state that keeps its
-- invariant.
use quail.Prelude.{
  ◌≡◌, refl, ap, subst, Bool, true, false, none, some, List, [], ◌∷◌, if◌then◌else◌, Eq, arith,
  length, Bool-cases, Option-cases, inl, inr,
}
use quail.Dict.{lookup, has, lookup-pop}
use quail.Pages.Heap.{Priorities, IsOrdered, Entry, entry_lt, All, tally}
use quail.Pages.Retention.{Retention, among, forget_retained, pop_retained_victim}
use quail.Pages.Eviction.{is_candidate, Chosen, pick_victim-Chosen}
use quail.Pages.Tracking.{IsTracked, is_entry}
use quail.Pages.Evicting.{is_entry-is_live}

module _ {K P : Type 0} ⦃e : Eq K⦄ {o : Priorities P} (ord : IsOrdered o) where
  tally_none :
      (f g : Entry K P → Bool) (heap : List (Entry K P))
      → ((x : Entry K P) → f x ≡ true → g x ≡ true)
      → All (λ y. g y ≡ false) heap
      → tally f heap ≡ 0
  tally_none f g [] h all = refl
  tally_none f g (x ∷ heap) h all = ground (arith, h x, tally_none f g heap h all.1)

  -- In a tracked retention state, nothing is evicted only if the caller keeps every retained key.
  pub pop_retained_victim-none :
      (keep : List K) (r : Retention K P)
      → IsTracked r
      → (pop_retained_victim o keep r).0 ≡ none
      → (k : K) → has k r.retained ≡ true
      → among k keep ≡ true
  unfolding pop_retained_victim
  pop_retained_victim-none keep r v h k retained = elim (Option-cases (lookup k r.versions)) [
    | inl missing ↦ absurd (ground (arith, v.versioned k))
    | inr (n, found) ↦ elim (Bool-cases (among k keep)) [
      | inl kept ↦ kept
      | inr wanted ↦ absurd (
          omega (
            arith,
            v.queued k n refl found,
            tally_none (is_entry k n) (is_candidate keep r.versions) r.heap
                (λ x is.
                  rw
                    (
                      is_entry-is_live o r.versions k n x found is,
                      ap (λ j. among j keep) ((e.same_iff x.key k).0 (ground arith)),
                      wanted,
                    )
                    refl)
                (subst (Chosen o keep r.versions r.heap) h
                  (pick_victim-Chosen ord keep r.versions (length r.heap) [] r.heap (omega arith))),
          ))
    ]
  ]

  -- In a tracked retention state, the key that is evicted was retained and is not kept; no candidate
  -- of the heap is before it, in priority and then in age; it alone is retained no longer.
  pub pop_retained_victim-some :
      (keep : List K) (r : Retention K P) (x : Entry K P)
      → IsTracked r
      → (pop_retained_victim o keep r).0 ≡ some x
      → (has x.key r.retained ≡ true)
        × (among x.key keep ≡ false)
        × All (λ y. is_candidate keep r.versions y ≡ true → entry_lt o y x ≡ false) r.heap
        × ((k : K)
            → lookup k (pop_retained_victim o keep r).1.retained
              ≡ (if e.same x.key k then none else lookup k r.retained))
  unfolding pop_retained_victim
  pop_retained_victim-some keep r x v h =
      let chosen : Chosen o keep r.versions r.heap (some x) =
        subst (Chosen o keep r.versions r.heap) h
          (pick_victim-Chosen ord keep r.versions (length r.heap) [] r.heap (omega arith)) in
      (
        ground (arith, chosen.0, v.versioned x.key),
        ground (arith, chosen.0),
        chosen.1,
        (λ k. rw h (unfold forget_retained in lookup-pop x.key k r.retained)),
      )
