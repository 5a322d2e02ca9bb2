-- ===== src/Pages/Evicting.antt =====
-- quail/backends/quail/executor/pages.py: `pop_retained_victim` keeps the retention invariant.
use quail.Prelude.{
  ℕ, zero, suc, ◌+◌, ◌≤◌, ◌<◌, ◌≡◌, refl, ap, ◌∙◌, Bool, true, Option, none, some, List, [], ◌∷◌,
  ◌++◌, if◌then◌else◌, Eq, arith, length, Option-cases, inl, inr,
}
use quail.Dict.{Dict, lookup, lookup-pop}
use quail.Pages.Heap.{Priorities, Entry, heappop, heappush_all, tally, heappop-tally}
use quail.Pages.Retention.{
  Retention, forget_victim, is_live, forget_retained, pick_victim, pop_retained_victim,
}
use quail.Pages.Tracking.{IsTracked, is_entry, forget_retained-Tracked}

module _ {K P : Type 0} ⦃e : Eq K⦄ (o : Priorities P) where
  tally-append :
      (f : Entry K P → Bool) (xs ys : List (Entry K P))
      → tally f (xs ++ ys) ≡ tally f xs + tally f ys
  tally-append f [] ys = omega arith
  tally-append f (x ∷ xs) ys = omega (arith, tally-append f xs ys)

  tally-heappush_all :
      (f : Entry K P → Bool) (passed heap : List (Entry K P))
      → tally f (heappush_all passed heap) ≡ tally f passed + tally f heap
  unfolding heappush_all
  tally-heappush_all f [] heap = omega arith
  tally-heappush_all f (x ∷ passed) heap = omega (arith, tally-heappush_all f passed (x ∷ heap))

  -- How often the loop of `pop_retained_victim` has an entry in its hands.
  abbrev held : (Entry K P → Bool) → Option (Entry K P) → ℕ
  held f none = 0
  held f (some x) = if f x then 1 else 0

  module _ (f : Entry K P → Bool) (keep : List K) (versions : Dict K ℕ) where
    -- Entries that count are neither lost nor doubled by the loop.
    pick_victim-tally :
        ((x : Entry K P) → f x ≡ true → is_live versions x ≡ true)
        → (fuel : ℕ) (passed heap : List (Entry K P))
        → let picked = pick_victim o fuel keep versions passed heap in
          tally f picked.passed + tally f picked.rest + held f picked.victim
          ≡ tally f passed + tally f heap
    unfolding pick_victim
    pick_victim-tally counts zero passed heap = omega arith
    pick_victim-tally counts (suc fuel) passed heap = elim (Option-cases (heappop o heap)) [
      | inl empty ↦ rw (empty, pick_victim) (omega arith)
      | inr ((x, rest), popped) ↦ ground (
        arith,
        counts x,
        heappop-tally o f heap rest x popped,
        tally-append f passed (x ∷ []),
        pick_victim-tally counts fuel passed rest,
        pick_victim-tally counts fuel (passed ++ x ∷ []) rest,
      )
    ]

    pick_victim-tally-le :
        (fuel : ℕ) (passed heap : List (Entry K P))
        → let picked = pick_victim o fuel keep versions passed heap in
          tally f picked.passed + tally f picked.rest ≤ tally f passed + tally f heap
    unfolding pick_victim
    pick_victim-tally-le zero passed heap = omega arith
    pick_victim-tally-le (suc fuel) passed heap = elim (Option-cases (heappop o heap)) [
      | inl empty ↦ rw (empty, pick_victim) (omega arith)
      | inr ((x, rest), popped) ↦ ground (
        arith,
        heappop-tally o f heap rest x popped,
        tally-append f passed (x ∷ []),
        pick_victim-tally-le fuel passed rest,
        pick_victim-tally-le fuel (passed ++ x ∷ []) rest,
      )
    ]

  pub is_entry-is_live :
      (versions : Dict K ℕ) (k : K) (n : ℕ) (x : Entry K P)
      → lookup k versions ≡ some n
      → is_entry k n x ≡ true
      → is_live versions x ≡ true
  is_entry-is_live versions k n x found h =
      let same_key : x.key ≡ k = (e.same_iff x.key k).0 (ground arith) in
      let current : lookup x.key versions ≡ some n = ap (λ j. lookup j versions) same_key ∙ found in
      ground arith

  forget_victim-IsTracked :
      (victim : Option (Entry K P)) (r : Retention K P)
      → IsTracked r
      → IsTracked (forget_victim victim r)
  forget_victim-IsTracked none r v = v
  forget_victim-IsTracked (some x) r v = forget_retained-Tracked x.key r v

  -- A version that is left is not the victim's.
  forget_victim-versions :
      (victim : Option (Entry K P)) (r : Retention K P) (k : K) (n : ℕ)
      → lookup k (forget_victim victim r).versions ≡ some n
      → (lookup k r.versions ≡ some n) × (held (is_entry k n) victim ≡ 0)
  unfolding forget_retained
  forget_victim-versions none r k n h = (h, refl)
  forget_victim-versions (some x) r k n h = ground (arith, lookup-pop x.key k r.versions)

  version-forget_victim :
      (victim : Option (Entry K P)) (r : Retention K P)
      → (forget_victim victim r).version ≡ r.version
  unfolding forget_retained
  version-forget_victim none r = refl
  version-forget_victim (some x) r = refl

  heap-IsTracked :
      (r : Retention K P) (heap : List (Entry K P))
      → IsTracked r
      → ((k : K) (n : ℕ) → lookup k r.versions ≡ some n → tally (is_entry k n) heap ≡ 1)
      → ((k : K) (n : ℕ) → r.version < n → tally (is_entry k n) heap ≡ 0)
      → IsTracked (record r { heap = heap })
  heap-IsTracked r heap v queued recent = record {
    uniq_sizes = v.uniq_sizes;
    summed = v.summed;
    sized = v.sized;
    versioned = v.versioned;
    queued = λ k n done. queued k n;
    issued = v.issued;
    recent = recent;
    unpinned = v.unpinned;
  }

  -- Eviction keeps the retention invariant.
  pub pop_retained_victim-IsTracked :
      (keep : List K) (r : Retention K P) → IsTracked r → IsTracked (pop_retained_victim o keep r).1
  unfolding pop_retained_victim
  pop_retained_victim-IsTracked keep r v =
      let picked = pick_victim o (length r.heap) keep r.versions [] r.heap in
      heap-IsTracked (forget_victim picked.victim r) (heappush_all picked.passed picked.rest)
        (forget_victim-IsTracked picked.victim r v)
        (λ k n h.
          let (found, others) = forget_victim-versions picked.victim r k n h in
          omega (
            arith,
            tally-heappush_all (is_entry k n) picked.passed picked.rest,
            pick_victim-tally (is_entry k n) keep r.versions
                (λ x. is_entry-is_live r.versions k n x found) (length r.heap) [] r.heap,
            others,
            v.queued k n refl found,
          ))
        (λ k n h. omega (
          arith,
          version-forget_victim picked.victim r,
          tally-heappush_all (is_entry k n) picked.passed picked.rest,
          pick_victim-tally-le (is_entry k n) keep r.versions (length r.heap) [] r.heap,
          v.recent k n (omega (arith, version-forget_victim picked.victim r)),
        ))
