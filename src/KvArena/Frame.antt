-- ===== src/KvArena/Frame.antt =====
-- quail/backends/quail/executor/arena.py: what an eviction leaves as it is.
use quail.Prelude.{
  ℕ, zero, suc, ◌≡◌, refl, ap, ◌∙◌, Bool, true, false, none, some, List, Eq, arith, Bool-cases,
  Option-cases, inl, inr, length, ◌⊎◌,
}
use quail.Result.{Result, ok, err}
use quail.Dict.{has}
use quail.Pages.Heap.{Priorities, IsOrdered, Entry}
use quail.Pages.Retention.{among, pop_retained_victim}
use quail.Pages.Victim.{pop_retained_victim-some}
use quail.KvArena.State.{KvArena, M, ◌>>◌, resume}
use quail.KvArena.Holds.{is_kept}
use quail.KvArena.Evict.{evict_key, evict_while, evict_until, keep_of}
use quail.KvArena.Sound.{IsSound}
use quail.KvArena.Evicting.{evict_key-Keeps, popped-IsSound}
use quail.KvArena.OtherKeys.{resume-Stays, evict_key-Stays}
use quail.KvArena.Stays.{
  SameSlots-refl, keep_of-is_kept, Stays, AgreeSliding-refl, Stays-refl, Stays-trans,
}

module _ {K P : Type 0} ⦃e : Eq K⦄ {o : Priorities P} (ord : IsOrdered o) where
  -- A key that no eviction takes: it is not retained, or the caller keeps it.
  abbrev pub Safe : List K → KvArena K P → K → Type 0
  Safe keep s k = (has k s.accounting.retention.retained ≡ false) ⊎ (among k keep ≡ true)

  Safe-Stays :
      (keep : List K) (s t : KvArena K P) (k : K) → Stays k s t → Safe keep s k → Safe keep t k
  Safe-Stays keep s t k h (inl free) = inl (h.full.2 ∙ free)
  Safe-Stays keep s t k h (inr kept) = inr kept

  abbrev pub popped : List K → KvArena K P → KvArena K P
  popped keep s = record s {
    accounting = record s.accounting {
      retention = (pop_retained_victim o keep s.accounting.retention).1;
    };
  }

  other_key :
      (keep : List K) (s : KvArena K P) (k j : K)
      → Safe keep s k
      → has j s.accounting.retention.retained ≡ true
      → among j keep ≡ false
      → e.same j k ≡ false
  other_key keep s k j safe retained free = elim (Bool-cases (e.same j k)) [
    | inr other ↦ other
    | inl same ↦
        let eq : j ≡ k = (e.same_iff j k).0 same in
        absurd (elim safe [
          | inl unretained ↦
              cc (ap (λ i. has i s.accounting.retention.retained) eq, retained, unretained)
          | inr kept ↦ cc (ap (λ i. among i keep) eq, free, kept)
        ])
  ]

  -- The victim is another key, and its choice changes nothing of the key.
  pub popped-Stays :
      (keep : List K) (s : KvArena K P) (k : K)
      → IsSound s
      → Safe keep s k
      → (x : Entry K P) → (pop_retained_victim o keep s.accounting.retention).0 ≡ some x
      → (e.same x.key k ≡ false) × Stays k s (popped keep s)
  popped-Stays keep s k v safe x found =
      let (retained, free, least, after) =
        pop_retained_victim-some ord keep s.accounting.retention x v.parts.full_pool.tracked
          found in
      let other : e.same x.key k ≡ false = other_key keep s k x.key safe retained free in
      (
        other,
        record {
          full = (
            (refl, refl, refl),
            SameSlots-refl k s.accounting.slot_table,
            ground (arith, after k),
          );
          sliding = AgreeSliding-refl k s.sliding;
          rows = refl;
          kept_rows = refl;
          stale = refl;
          sliding_rows = refl;
          floor = refl;
          trimmed = refl;
          base = refl;
          start = refl;
          holds = refl;
          reading = refl;
        },
      )

  pub empty-Stays :
      (keep : List K) (s : KvArena K P) (k : K)
      → (pop_retained_victim o keep s.accounting.retention).0 ≡ none
      → Stays k s (popped keep s)
  unfolding pop_retained_victim
  empty-Stays keep s k found = record {
    full = ((refl, refl, refl), SameSlots-refl k s.accounting.slot_table, rw found);
    sliding = AgreeSliding-refl k s.sliding;
    rows = refl;
    kept_rows = refl;
    stale = refl;
    sliding_rows = refl;
    floor = refl;
    trimmed = refl;
    base = refl;
    start = refl;
    holds = refl;
    reading = refl;
  }

  evict_while-Stays :
      (fuel : ℕ) (keep : List K) (satisfied : KvArena K P → Bool) (s : KvArena K P) (k : K)
      → IsSound s
      → Safe keep s k
      → Stays k s (evict_while o fuel keep satisfied s).1
  unfolding evict_while
  evict_while-Stays zero keep satisfied s k v safe = Stays-refl k s
  evict_while-Stays (suc fuel) keep satisfied s k v safe = elim (Bool-cases (satisfied s)) [
    | inl done ↦ rw (done, evict_while) (Stays-refl k s)
    | inr more ↦ elim (Option-cases (pop_retained_victim o keep s.accounting.retention).0) [
      | inl empty ↦ rw (more, evict_while, empty) (empty-Stays keep s k empty)
      | inr (x, found) ↦
          let (other, same) = popped-Stays keep s k v safe x found in
          let evicted = evict_key-Stays x.key k (popped keep s) other in
          rw (more, evict_while, found)
            (Stays-trans k s (popped keep s) _ same (
              resume-Stays k (popped keep s)
                ((evict_key x.key >> evict_while o fuel keep satisfied) (popped keep s)) _
                (resume_sound-Stays k (popped keep s) (evict_key x.key (popped keep s)) _ evicted
                  (evict_key-Keeps x.key (popped keep s) (popped-IsSound o keep s v))
                  (λ t w h _. evict_while-Stays fuel keep satisfied t k w (
                    Safe-Stays keep (popped keep s) t k h
                      (Safe-Stays keep s (popped keep s) k same safe))))
                (λ keys t. Stays-refl k t)))
    ]
  ]
    where
      resume_sound-Stays :
          {A B : Type 0} (k : K) (s : KvArena K P) (r : Result A × KvArena K P) (f : A → M K P B)
          → Stays k s r.1
          → IsSound r.1
          → ((t : KvArena K P) → IsSound t → Stays k s t → (x : A) → Stays k t (f x t).1)
          → Stays k s (resume r f).1
      resume_sound-Stays k s (ok x, t) f h v g = Stays-trans k s t _ h (g t v h x)
      resume_sound-Stays k s (err x, t) f h v g = h

  -- Whatever an eviction waits for, a key that is held for queued borrowers or read by a planned
  -- chunk stays as it is, and so does a key that is not retained: its pages and its tokens in both
  -- pools, its checkpoint slots and the tokens recorded for them, its cached rows and whether they
  -- are stale, its base, its sliding start, its window floor, and whether its window is trimmed; and
  -- no hold and no reader changes.
  pub evict_until-Stays :
      (satisfied : KvArena K P → Bool) (s : KvArena K P) (k : K)
      → IsSound s
      → (is_kept s k ≡ true) ⊎ (has k s.accounting.retention.retained ≡ false)
      → Stays k s (evict_until o satisfied s).1
  unfolding evict_until
  evict_until-Stays satisfied s k v (inl kept) =
      evict_while-Stays (suc (length s.accounting.retention.retained)) (keep_of s) satisfied s k v
        (inr (keep_of-is_kept s k ∙ kept))
  evict_until-Stays satisfied s k v (inr free) =
      evict_while-Stays (suc (length s.accounting.retention.retained)) (keep_of s) satisfied s k v
        (inl free)
