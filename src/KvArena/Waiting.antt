-- ===== src/KvArena/Waiting.antt =====
-- quail/backends/quail/executor/arena.py: the holds, the readers, the windows and `free_key` keep
-- the invariant.
use quail.Prelude.{
  ℕ, ◌-◌, ◌<◌, ◌≡◌, refl, true, false, ◌&&◌, ◌||◌, not, ◌==◌, Option, List, [], ◌∷◌, Eq, arith,
  Bool-cases, inl, inr, subst, ltb,
}
use quail.Dict.{Dict, lookup, has, put, pop, lookup-put}
use quail.Pages.Retention.{among, discard}
use quail.Pages.Tracking.{among-discard}
use quail.KvArena.State.{KvArena}
use quail.KvArena.Holds.{
  free_key, hold, release_hold, release, read_state, last_read, done_reading_one, done_reading,
  release_all, drop_holds, held_among,
}
use quail.KvArena.Sound.{
  IsSound, Keeps, Counts, put-Counts, pop-Counts, bind-Keeps, if-IsSound, given-IsSound,
}
use quail.KvArena.Freeing.{pop_other, put_other, lift_floor-Keeps, free_key-Keeps}

module _ {K P : Type 0} ⦃e : Eq K⦄ where
  -- A hold or a reader goes, and so does what waited for it.
  gone-IsSound :
      (key : K) (s : KvArena K P) (holds reading : Dict K ℕ)
      → IsSound s
      → Counts holds
      → Counts reading
      → ((k : K) → e.same key k ≡ false → has k holds ≡ has k s.holds)
      → ((k : K) → e.same key k ≡ false → has k reading ≡ has k s.reading)
      → IsSound (record s { holds = holds; reading = reading; deferred = discard key s.deferred })
  gone-IsSound key s holds reading v c d h g = record {
    parts = record {
      full_pool = v.parts.full_pool;
      sliding_pool = v.parts.sliding_pool;
      waiting = λ k w. ground (arith, among-discard key k s.deferred, v.parts.waiting k, h k, g k);
      held = c;
      read = d;
    };
  }

  -- Nothing waits for a hold that goes.
  unused-IsSound :
      (key : K) (s : KvArena K P) (holds reading : Dict K ℕ)
      → IsSound s
      → Counts holds
      → Counts reading
      → (among key s.deferred ≡ true → (has key holds || has key reading) ≡ true)
      → ((k : K) → e.same key k ≡ false → has k holds ≡ has k s.holds)
      → ((k : K) → e.same key k ≡ false → has k reading ≡ has k s.reading)
      → IsSound (record s { holds = holds; reading = reading })
  unused-IsSound key s holds reading v c d none_waits h g = record {
    parts = record {
      full_pool = v.parts.full_pool;
      sliding_pool = v.parts.sliding_pool;
      waiting = λ k w. elim (Bool-cases (e.same key k)) [
        | inl same ↦
            subst (λ j. among j s.deferred ≡ true → (has j holds || has j reading) ≡ true)
              ((e.same_iff key k).0 same) none_waits w
        | inr other ↦ ground (arith, v.parts.waiting k, h k, g k)
      ];
      held = c;
      read = d;
    };
  }

  -- A count that is written keeps what waits for the key.
  counted-IsSound :
      (key : K) (n : ℕ) (s : KvArena K P)
      → 0 < n
      → IsSound s
      → IsSound (record s { holds = put key n s.holds })
  counted-IsSound key n s positive v =
      unused-IsSound key s (put key n s.holds) s.reading v
        (put-Counts key n s.holds positive v.parts.held) v.parts.read
        (λ _. ground (arith, lookup-put key key n s.holds, e.same_iff key key))
        (λ k. put_other key k n s.holds) (λ k _. refl)

  read-IsSound :
      (key : K) (n : ℕ) (s : KvArena K P)
      → 0 < n
      → IsSound s
      → IsSound (record s { reading = put key n s.reading })
  read-IsSound key n s positive v =
      unused-IsSound key s s.holds (put key n s.reading) v v.parts.held
        (put-Counts key n s.reading positive v.parts.read)
        (λ _. ground (arith, lookup-put key key n s.reading, e.same_iff key key)) (λ k _. refl)
        (λ k. put_other key k n s.reading)

  pub release_hold-Keeps : (key : K) → Keeps (release_hold {P = P} key)
  unfolding release_hold
  release_hold-Keeps key s v =
      let popped = pop-Counts key s.holds v.parts.held in
      if-IsSound (has key s.holds) _ _
        (λ _.
          if-IsSound (among key s.deferred) _ _
            (λ _.
              bind-Keeps (free_key key) _ (free_key-Keeps key) (λ _ t w. w) _
                (gone-IsSound key s (pop key s.holds) s.reading v popped v.parts.read
                  (λ k. pop_other key k s.holds) (λ k _. refl)))
            (λ idle. lift_floor-Keeps key _ (
              unused-IsSound key s (pop key s.holds) s.reading v popped v.parts.read (λ w. cc)
                (λ k. pop_other key k s.holds) (λ k _. refl))))
        (λ _. v)

  pub release-Keeps : (key : K) → Keeps (release {P = P} key)
  unfolding release
  release-Keeps key s v =
      given-IsSound (lookup key s.holds) _ _ (λ _. v)
        (λ n found.
          if-IsSound (n == 1) _ _ (λ _. release_hold-Keeps key s v)
            (λ more. counted-IsSound key (n - 1) s (ground (arith, v.parts.held key n found)) v))

  pub hold-IsSound :
      (key : K) (borrowers : ℕ) (s : KvArena K P) → IsSound s → IsSound (hold key borrowers s)
  unfolding hold
  hold-IsSound key borrowers s v = elim (Bool-cases (ltb 0 borrowers)) [
    | inl some_come ↦ rw some_come (counted-IsSound key _ s (ground arith) v)
    | inr none_come ↦ rw none_come v
  ]

  pub read_state-IsSound :
      (keys : List K) (s : KvArena K P) → IsSound s → IsSound (read_state keys s)
  unfolding read_state
  read_state-IsSound [] s v = v
  read_state-IsSound (key ∷ keys) s v =
      read_state-IsSound keys _ (read-IsSound key _ s (omega arith) v)

  last_read-Keeps : (key : K) → Keeps (last_read {P = P} key)
  unfolding last_read
  last_read-Keeps key s v =
      let popped = pop-Counts key s.reading v.parts.read in
      if-IsSound (among key s.deferred && not (has key s.holds)) _ _
        (λ _.
          bind-Keeps (free_key key) _ (free_key-Keeps key) (λ _ t w. w) _
            (gone-IsSound key s s.holds (pop key s.reading) v v.parts.held popped (λ k _. refl)
              (λ k. pop_other key k s.reading)))
        (λ idle.
          unused-IsSound key s s.holds (pop key s.reading) v v.parts.held popped (λ w. ground arith)
            (λ k _. refl) (λ k. pop_other key k s.reading))

  done_reading_one-Keeps : (key : K) → Keeps (done_reading_one {P = P} key)
  unfolding done_reading_one
  done_reading_one-Keeps key s v =
      given-IsSound (lookup key s.reading) _ _ (λ _. v)
        (λ n found.
          if-IsSound (n == 1) _ _ (λ _. last_read-Keeps key s v)
            (λ more. read-IsSound key (n - 1) s (ground (arith, v.parts.read key n found)) v))

  pub done_reading-Keeps : (keys : List K) → Keeps (done_reading {P = P} keys)
  unfolding done_reading
  done_reading-Keeps [] s v = v
  done_reading-Keeps (key ∷ keys) s v =
      bind-Keeps (done_reading_one key) _ (done_reading_one-Keeps key)
        (λ _. done_reading-Keeps keys) s v

  release_all-Keeps : (keys : List K) → Keeps (release_all {P = P} keys)
  unfolding release_all
  release_all-Keeps [] s v = v
  release_all-Keeps (key ∷ keys) s v =
      bind-Keeps (release_hold key) _ (release_hold-Keeps key) (λ _. release_all-Keeps keys) s v

  pub drop_holds-Keeps : (keys : Option (List K)) → Keeps (drop_holds {P = P} keys)
  unfolding drop_holds
  drop_holds-Keeps keys s =
      bind-Keeps (release_all (held_among s keys)) _ (release_all-Keeps _) (λ _ t w. w) s
