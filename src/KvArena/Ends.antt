-- ===== src/KvArena/Ends.antt =====
-- quail/backends/quail/executor/arena.py: the eviction loop ends, and how.
use quail.Prelude.{
  ℕ, zero, suc, ◌≤◌, ◌<◌, ◌≡◌, refl, sym, ap, subst, ◌∙◌, ◌⊎◌, inl, inr, Bool, true, false, Option,
  none, some, List, [], ◌∷◌, Eq, given, arith, length, Bool-cases, Option-cases, is_some,
}
use quail.Result.{Result, ok, err}
use quail.Dict.{Dict, lookup, has, pop, lookup-pop}
use quail.Pages.Pool.{free_pages_of}
use quail.Pages.Heap.{Priorities, IsOrdered, Entry}
use quail.Pages.Retention.{among, drop_key, forget_retained, pop_retained_victim}
use quail.Pages.Victim.{pop_retained_victim-some, pop_retained_victim-none}
use quail.Pages.Arena
use quail.Pages.Arena.{PageArena, is_resident}
use quail.KvArena.State.{KvArena, M, ◌>>=◌, ◌>>◌, resume, pure, on_sliding}
use quail.KvArena.Holds.{forget_rows, is_kept, free_now, free_key}
use quail.KvArena.Evict.{evict_key, evict_while, evict_until, keep_of}
use quail.KvArena.Sound.{IsSound}
use quail.KvArena.Evicting.{evict_key-Keeps, popped-IsSound}
use quail.KvArena.Lending.{Sliding}
use quail.KvArena.Frame.{empty-Stays, popped}
use quail.KvArena.OtherKeys.{evict_key-Stays}
use quail.KvArena.Stays.{keep_of-is_kept}
use quail.KvArena.Active.{agree_resident}

module _ {K V : Type 0} ⦃e : Eq K⦄ where
  length-pop : (k : K) (d : Dict K V) → length (pop k d) ≤ length d
  unfolding pop
  length-pop k [] = omega arith
  length-pop k ((j, v) ∷ d) = ground (arith, length-pop k d)

  length-pop-lt : (k : K) (d : Dict K V) → has k d ≡ true → length (pop k d) < length d
  unfolding pop lookup
  length-pop-lt k [] h = cc
  length-pop-lt k ((j, v) ∷ d) h = ground (arith, length-pop k d, length-pop-lt k d)

module _ {K P : Type 0} ⦃e : Eq K⦄ where
  -- What `PageArena.free_key` does for a resident key.
  freed_ok :
      (a : PageArena K P) (key : K)
      → is_resident a key ≡ true
      → (n : ℕ) × ((Arena.free_key a key).0 ≡ ok n)
  unfolding Arena.free_key free_pages_of
  freed_ok a key h = rw h (_, refl)

  freed_gone :
      (a : PageArena K P) (key : K)
      → is_resident a key ≡ true
      → is_resident (Arena.free_key a key).1 key ≡ false
  unfolding Arena.free_key free_pages_of
  freed_gone a key h = rw h (ground (arith, lookup-pop key key a.pool.owned, e.same_iff key key))

  freed_retained :
      (a : PageArena K P) (key : K)
      → length (Arena.free_key a key).1.retention.retained ≤ length a.retention.retained
  unfolding Arena.free_key drop_key forget_retained
  freed_retained a key = ground (arith, length-pop key a.retention.retained)

  -- Every resident key is in the sliding pool too, and has rows.
  abbrev pub Aligned : KvArena K P → Type 0
  Aligned s =
      (k : K)
      → is_resident s.accounting k ≡ true
      → (has k s.rows ≡ true) × Sliding (λ b. is_resident b k ≡ true) s.sliding

  resume_at :
      {A B : Type 0} (Q : Result B × KvArena K P → Type 0) (r : Result A × KvArena K P)
      (f : A → M K P B) (x : A)
      → r.0 ≡ ok x
      → Q (f x r.1)
      → Q (resume r f)
  resume_at Q (ok y, t) f x h q = let same : y ≡ x = cc in subst (λ z. Q (f z t)) (sym same) q
  resume_at Q (err y, t) f x h q = absurd (let wrong : err y ≡ ok x = h in cc)

  -- A freeing that succeeds, and what it leaves of the accounting, the holds and the readers.
  abbrev Freed : K → KvArena K P → Result ℕ × KvArena K P → Type 0
  Freed key s r =
      ((n : ℕ) × (r.0 ≡ ok n))
      × (r.1.accounting ≡ (Arena.free_key s.accounting key).1)
      × (r.1.holds ≡ s.holds)
      × (r.1.reading ≡ s.reading)

  sliding_ok :
      (key : K) (s : KvArena K P) (pool : Option (PageArena K P))
      → Sliding (λ b. is_resident b key ≡ true) pool
      → let r =
          given {B = Result ℕ × KvArena K P} pool
            (ok 0, s)
            (λ b.
              ((Arena.free_key b key).0, record s { sliding = some (Arena.free_key b key).1 })) in
        ((n : ℕ) × (r.0 ≡ ok n))
        × (r.1.accounting ≡ s.accounting)
        × (r.1.holds ≡ s.holds)
        × (r.1.reading ≡ s.reading)
  sliding_ok key s none h = ((0, refl), refl, refl, refl)
  sliding_ok key s (some b) h = (freed_ok b key h, refl, refl, refl)

  free_now-Freed :
      (key : K) (s : KvArena K P)
      → has key s.rows ≡ true
      → is_resident s.accounting key ≡ true
      → Sliding (λ b. is_resident b key ≡ true) s.sliding
      → Freed key s (free_now key s)
  unfolding free_now forget_rows
  free_now-Freed key s rows full sliding =
      let ((n, done), same, held, read) = sliding_ok key _ s.sliding sliding in
      rw rows (
        resume_at (Freed key s) (on_sliding 0 (λ b. Arena.free_key b key) _) _ n done
          (rw same (freed_ok s.accounting key full, refl, held, read)))

  evict_key-Freed :
      (key : K) (s : KvArena K P)
      → IsSound s
      → Aligned s
      → is_resident s.accounting key ≡ true
      → is_kept s key ≡ false
      → Freed key s (evict_key key s)
  unfolding evict_key free_key
  evict_key-Freed key s v aligned full free =
      elim (Option-cases (lookup key s.accounting.pool.tokens)) [
        | inl missing ↦ absurd (ground (arith, v.parts.full_pool.pages.same_keys_tokens key))
        | inr (tokens, found) ↦
            let (rows, sliding) = aligned key full in
            let ((n, done), same, held, read) = free_now-Freed key s rows full sliding in
            rw (found, free)
              (resume_at (Freed key s) (free_now key s) _ n done ((n, refl), same, held, read))
      ]

  evict_key-Aligned :
      (key : K) (s : KvArena K P)
      → IsSound s
      → Aligned s
      → is_resident s.accounting key ≡ true
      → is_kept s key ≡ false
      → Aligned (evict_key key s).1
  evict_key-Aligned key s v aligned full free k resident = elim (Bool-cases (e.same key k)) [
    | inl same ↦
        let freed = (evict_key-Freed key s v aligned full free).1 in
        let eq : key ≡ k = (e.same_iff key k).0 same in
        absurd (
          cc (
            ap (λ a. is_resident a key) freed,
            freed_gone s.accounting key full,
            ap (λ j. is_resident (evict_key key s).1.accounting j) eq,
            resident,
          ))
    | inr other ↦
        let stays = evict_key-Stays key k s other in
        let (rows, sliding) = aligned k (sym (ap is_some stays.full.0.0) ∙ resident) in
        (
          ap is_some stays.rows ∙ rows,
          agree_resident k s.sliding (evict_key key s).1.sliding stays.sliding sliding,
        )
  ]

module _ {K P : Type 0} ⦃e : Eq K⦄ {o : Priorities P} (ord : IsOrdered o) where
  -- The loop returns, and its condition holds or every retained key is held or read.
  abbrev pub Ended : (KvArena K P → Bool) → Result (List K) × KvArena K P → Type 0
  Ended satisfied r =
      ((keys : List K) × (r.0 ≡ ok keys))
      × ((satisfied r.1 ≡ true)
          ⊎ ((k : K) → has k r.1.accounting.retention.retained ≡ true → is_kept r.1 k ≡ true))

  popped_retained :
      (keep : List K) (s : KvArena K P) (x : Entry K P)
      → IsSound s
      → (pop_retained_victim o keep s.accounting.retention).0 ≡ some x
      → length (popped ord keep s).accounting.retention.retained
        < length s.accounting.retention.retained
  unfolding pop_retained_victim forget_retained
  popped_retained keep s x v found =
      let (retained, free, least, after) =
        pop_retained_victim-some ord keep s.accounting.retention x v.parts.full_pool.tracked
          found in
      rw found (length-pop-lt x.key s.accounting.retention.retained retained)

  -- A round that evicts a key, before the rounds that are left.
  evicted-Ended :
      (fuel : ℕ) (keep : List K) (satisfied : KvArena K P → Bool) (s : KvArena K P)
      → IsSound s
      → Aligned s
      → ((k : K) → among k keep ≡ is_kept s k)
      → length s.accounting.retention.retained < suc fuel
      → (x : Entry K P) → (pop_retained_victim o keep s.accounting.retention).0 ≡ some x
      → ((t : KvArena K P)
          → IsSound t
          → Aligned t
          → ((k : K) → among k keep ≡ is_kept t k)
          → length t.accounting.retention.retained < fuel
          → Ended satisfied (evict_while o fuel keep satisfied t))
      → Ended satisfied (
          (evict_key x.key >> evict_while o fuel keep satisfied >>= λ keys. pure (x.key ∷ keys))
            (popped ord keep s))
  evicted-Ended fuel keep satisfied s v aligned kept enough x found rest =
      let s1 = popped ord keep s in
      let w = popped-IsSound o keep s v in
      let (retained, free, least, after) =
        pop_retained_victim-some ord keep s.accounting.retention x v.parts.full_pool.tracked
          found in
      let full = v.parts.full_pool.retained x.key retained in
      let unkept : is_kept s1 x.key ≡ false = sym (kept x.key) ∙ free in
      let ((n, done), freed, held, read) = evict_key-Freed x.key s1 w aligned full unkept in
      let after_all =
        rest (evict_key x.key s1).1 (evict_key-Keeps x.key s1 w)
          (evict_key-Aligned x.key s1 w aligned full unkept) (λ k. rw (held, read) (kept k))
          (rw freed (
            omega (arith, freed_retained s1.accounting x.key, popped_retained keep s x v found))) in
      let inner =
        resume_at (Ended satisfied) (evict_key x.key s1) (λ _. evict_while o fuel keep satisfied) n
          done after_all in
      let ((keys, returned), how) = inner in
      resume_at (Ended satisfied) ((evict_key x.key >> evict_while o fuel keep satisfied) s1)
        (λ keys. pure (x.key ∷ keys)) keys returned ((x.key ∷ keys, refl), how)

  evict_while-Ended :
      (fuel : ℕ) (keep : List K) (satisfied : KvArena K P → Bool) (s : KvArena K P)
      → IsSound s
      → Aligned s
      → ((k : K) → among k keep ≡ is_kept s k)
      → length s.accounting.retention.retained < fuel
      → Ended satisfied (evict_while o fuel keep satisfied s)
  unfolding evict_while
  evict_while-Ended zero keep satisfied s v aligned kept enough = absurd (omega arith)
  evict_while-Ended (suc fuel) keep satisfied s v aligned kept enough =
      elim (Bool-cases (satisfied s)) [
        | inl done ↦ rw (done, evict_while) (([], refl), inl done)
        | inr more ↦ elim (Option-cases (pop_retained_victim o keep s.accounting.retention).0) [
          | inl empty ↦
              rw (more, evict_while, empty)
                (
                  ([], refl),
                  inr (λ k retained.
                      sym (kept k)
                      ∙ pop_retained_victim-none ord keep s.accounting.retention
                          v.parts.full_pool.tracked empty k
                          (sym (empty-Stays ord keep s k empty).full.2 ∙ retained)),
                )
          | inr (x, found) ↦
              rw (more, evict_while, found)
                (evicted-Ended fuel keep satisfied s v aligned kept enough x found
                  (evict_while-Ended fuel keep satisfied))
        ]
      ]

  -- Whatever `satisfied` waits for: in a sound arena whose resident keys have rows, and are in the
  -- sliding pool where there is one, the eviction loop returns; then `satisfied` holds, or every key
  -- that is still retained is held for a borrower or read by a planned chunk.
  pub evict_until_ends :
      (satisfied : KvArena K P → Bool) (s : KvArena K P)
      → IsSound s
      → Aligned s
      → Ended satisfied (evict_until o satisfied s)
  unfolding evict_until
  evict_until_ends satisfied s v aligned =
      evict_while-Ended (suc (length s.accounting.retention.retained)) (keep_of s) satisfied s v
        aligned (keep_of-is_kept s) (omega arith)
