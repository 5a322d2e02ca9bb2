-- ===== src/Pages/Tracking.antt =====
-- quail/backends/quail/executor/pages.py: the retention invariant. Each retained key has one entry
-- that counts in the heap, and the page total is the sum over the retained keys.
use quail.Prelude.{
  ℕ, suc, ◌≤◌, ◌<◌, ◌≡◌, refl, ap, sym, Bool, true, false, ◌&&◌, Option, some, List, [], ◌∷◌, ◌==◌,
  if◌then◌else◌, Eq, arith, Bool-cases, inl, inr,
}
use quail.Dict.{
  lookup, has, pop, at, Uniq, weigh, lookup-put, lookup-pop, put-Uniq, pop-Uniq, weigh-put,
  weigh-pop,
}
use quail.Pages.Heap.{Priorities, Entry, tally}
use quail.Pages.Retention.{
  Retention, among, add, discard, forget_retained, pin_key, drop_key, retain_key,
}

module _ {K : Type 0} ⦃e : Eq K⦄ where
  pub among-discard :
      (key k : K) (ks : List K)
      → among k (discard key ks) ≡ (if e.same key k then false else among k ks)
  unfolding discard
  among-discard key k [] = ground arith
  among-discard key k (j ∷ ks) =
      ground (arith, e.same_iff key k, e.same_iff j k, e.same_iff j key, among-discard key k ks)

  pub among_eq : (key k : K) (ks : List K) → e.same key k ≡ true → among k ks ≡ among key ks
  among_eq key k ks h = ap (λ j. among j ks) (sym ((e.same_iff key k).0 h))

  pub among-add :
      (key k : K) (ks : List K) → among k (add key ks) ≡ (if e.same key k then true else among k ks)
  unfolding add
  among-add key k ks = elim (Bool-cases (among key ks)) [
    | inl there ↦ rw there (ground (arith, among_eq key k ks))
    | inr new ↦ rw new (ground arith)
  ]

module _ {K P : Type 0} ⦃e : Eq K⦄ where
  -- The heap entry of a key under a version.
  abbrev pub is_entry : K → ℕ → Entry K P → Bool
  is_entry key n x = e.same x.key key && x.version == n

  -- The keys in `pending` are retained, and wait for their entries.
  pub record Tracked (pending : List K) (r : Retention K P) : Type 0 where
    pub uniq_sizes : Uniq r.sizes
    pub summed : r.total ≡ weigh (λ n. n) r.sizes
    pub sized : (k : K) → has k r.sizes ≡ has k r.retained
    pub versioned : (k : K) → has k r.versions ≡ has k r.retained
    pub queued :
        (k : K) (n : ℕ)
        → among k pending ≡ false
        → lookup k r.versions ≡ some n
        → tally (is_entry k n) r.heap ≡ 1
    pub issued : (k : K) (n : ℕ) → lookup k r.versions ≡ some n → n ≤ r.version
    pub recent : (k : K) (n : ℕ) → r.version < n → tally (is_entry k n) r.heap ≡ 0
    pub unpinned : (k : K) → among k r.pinned ≡ true → has k r.retained ≡ false

  abbrev pub IsTracked : Retention K P → Type 0
  IsTracked r = Tracked [] r

  pub Tracked-weaken : {key : K} {r : Retention K P} → IsTracked r → Tracked (key ∷ []) r
  Tracked-weaken v = record {
    uniq_sizes = v.uniq_sizes;
    summed = v.summed;
    sized = v.sized;
    versioned = v.versioned;
    queued = λ k n done. v.queued k n refl;
    issued = v.issued;
    recent = v.recent;
    unpinned = v.unpinned;
  }

  pub forget_retained-Tracked :
      {pending : List K} (key : K) (r : Retention K P)
      → Tracked pending r
      → Tracked pending (forget_retained key r)
  unfolding forget_retained
  forget_retained-Tracked key r v = record {
    uniq_sizes = pop-Uniq key r.sizes v.uniq_sizes;
    summed = omega (arith, v.summed, weigh-pop (λ n. n) key r.sizes v.uniq_sizes);
    sized =
        λ k. rw (lookup-pop key k r.sizes, lookup-pop key k r.retained) (ground (arith, v.sized k));
    versioned = λ k.
        rw (lookup-pop key k r.versions, lookup-pop key k r.retained)
          (ground (arith, v.versioned k));
    queued = λ k n done h. ground (arith, lookup-pop key k r.versions, v.queued k n done);
    issued = λ k n h. ground (arith, lookup-pop key k r.versions, v.issued k n);
    recent = v.recent;
    unpinned = λ k h. rw (lookup-pop key k r.retained) (ground (arith, v.unpinned k));
  }

  -- `free_key` forgets the key.
  pub drop_key-IsTracked : (key : K) (r : Retention K P) → IsTracked r → IsTracked (drop_key key r)
  unfolding drop_key
  drop_key-IsTracked key r v = forget_retained-Tracked key _ (record {
    uniq_sizes = v.uniq_sizes;
    summed = v.summed;
    sized = v.sized;
    versioned = v.versioned;
    queued = v.queued;
    issued = v.issued;
    recent = v.recent;
    unpinned = λ k h. ground (arith, among-discard key k r.pinned, v.unpinned k);
  })

  -- A pinned key is not evictable.
  pub pin_key-IsTracked : (key : K) (r : Retention K P) → IsTracked r → IsTracked (pin_key key r)
  unfolding pin_key
  pin_key-IsTracked key r v =
      let w = forget_retained-Tracked key r v in
      record {
        uniq_sizes = w.uniq_sizes;
        summed = w.summed;
        sized = w.sized;
        versioned = w.versioned;
        queued = w.queued;
        issued = w.issued;
        recent = w.recent;
        unpinned = λ k h.
            unfold forget_retained in
            rw (lookup-pop key k r.retained)
              (ground (arith, among-add key k r.pinned, v.unpinned k));
      }

  module _ (o : Priorities P) where
    -- A retained key is evictable and not pinned.
    pub retain_key-Tracked :
        {pending : List K} (key : K) (tokens pages : ℕ) (priority : Option P) (r : Retention K P)
        → Tracked (key ∷ pending) r
        → Tracked pending (retain_key o key tokens pages priority r)
    unfolding retain_key
    retain_key-Tracked key tokens pages priority r v = record {
      uniq_sizes = put-Uniq key pages _ (pop-Uniq key r.sizes v.uniq_sizes);
      summed = omega (
        arith,
        v.summed,
        weigh-pop (λ n. n) key r.sizes v.uniq_sizes,
        weigh-put (λ n. n) key pages (pop key r.sizes),
        popped_weight,
      );
      sized = λ k.
          rw
            (
              lookup-put key k pages (pop key r.sizes),
              lookup-put key k tokens (pop key r.retained),
              lookup-pop key k r.sizes,
              lookup-pop key k r.retained,
            )
            (ground (arith, v.sized k));
      versioned = λ k.
          rw
            (
              lookup-put key k (suc r.version) (pop key r.versions),
              lookup-put key k tokens (pop key r.retained),
              lookup-pop key k r.versions,
              lookup-pop key k r.retained,
            )
            (ground (arith, v.versioned k));
      queued = λ k n done h. ground (
        arith,
        done,
        lookup-put key k (suc r.version) (pop key r.versions),
        lookup-pop key k r.versions,
        v.queued k n,
        v.issued k n,
        v.recent k n,
      );
      issued = λ k n h. ground (
        arith,
        lookup-put key k (suc r.version) (pop key r.versions),
        lookup-pop key k r.versions,
        v.issued k n,
      );
      recent = λ k n h. ground (arith, v.recent k n);
      unpinned = λ k h.
          rw (lookup-put key k tokens (pop key r.retained), lookup-pop key k r.retained)
            (ground (arith, among-discard key k r.pinned, v.unpinned k));
    }
      where
        popped_weight : at (λ n. n) (lookup key (pop key r.sizes)) ≡ 0
        popped_weight = ground (arith, lookup-pop key key r.sizes, e.same_iff key key)
