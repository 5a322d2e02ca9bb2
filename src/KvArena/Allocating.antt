-- ===== src/KvArena/Allocating.antt =====
-- quail/backends/quail/executor/arena.py: the allocation and growth of pages keep the invariant.
use quail.Prelude.{
  ℕ, ◌-◌, ◌≡◌, sym, subst, true, Option, none, some, List, [], Eq, given, if-all, min, ltb,
}
use quail.Result.{Result, ok, err}
use quail.Pages.Pool
use quail.Pages.Pool.{Pool, or_default}
use quail.Pages.Alloc.{Lends, alloc-IsValid}
use quail.Pages.Growth.{grow-IsValid}
use quail.Pages.Resident.{alloc_resident, grow_resident}
use quail.Pages.Arena
use quail.Pages.Arena.{PageArena, is_resident}
use quail.Pages.Sound
use quail.Pages.Sound.{pool-IsSound, free_key-IsSound}
use quail.KvArena.State.{
  KvArena, M, ◌>>=◌, ◌>>◌, resume, pure, on_full, on_sliding, on_pool, start_of,
}
use quail.KvArena.Admit.{
  borrow_plan, alloc_sliding, settle, alloc_as_planned, alloc, set_tokens, grow_both,
}
use quail.KvArena.Sound.{
  IsSound, Keeps, SlidingIsSound, bind-Keeps, on_full-Keeps, refresh_rows-IsSound, given-Keeps,
}
use quail.KvArena.Freeing.{tokens-IsSound}
use quail.KvArena.Lending.{
  grow-ok, Sliding, PlanLends, Lending, Sliding-all, borrow_plan-Lending, resume-IsSound,
  full-IsSound, Sliding-zip, on_sliding-IsSound,
}

module _ {K P : Type 0} ⦃e : Eq K⦄ where
  pool_alloc-IsSound :
      (key : K) (tokens : ℕ) (capacity : Option ℕ) (borrowed : List ℕ) (a : PageArena K P)
      → Sound.IsSound a
      → Lends a.pool borrowed
      → Sound.IsSound (on_pool (λ pool. Pool.alloc pool key tokens capacity borrowed) a).1
  pool_alloc-IsSound key tokens capacity borrowed a v lends =
      pool-IsSound a _ v (alloc-IsValid a.pool key tokens capacity borrowed v.pages lends)
        (λ k r. alloc_resident a.pool key k r tokens capacity borrowed)

  alloc_sliding-IsSound :
      (key : K) (tokens want start_s : ℕ) (borrowed_s : List ℕ) (b : PageArena K P)
      → Lends b.pool borrowed_s
      → Sound.IsSound b
      → Sound.IsSound (alloc_sliding key tokens want start_s borrowed_s b).1
  alloc_sliding-IsSound key tokens want start_s borrowed_s b lends v =
      if-all (λ (r : Result (Option (List ℕ)) × PageArena K P). Sound.IsSound r.1)
        (ltb (min tokens want) start_s) _ _ (λ _. v)
        (λ _. pool_alloc-IsSound key _ _ borrowed_s b v lends)

  given_at :
      {A B : Type 0} (o : Option B) (m : M K P A) (f : B → M K P A) (s : KvArena K P)
      → IsSound (m s).1
      → ((b : B) → IsSound (f b s).1)
      → IsSound (given o m f s).1
  given_at none m f s h g = h
  given_at (some b) m f s h g = g b

  -- The sliding part of an allocation, with the records of the key.
  abbrev settle_or_free : K → ℕ → ℕ → ℕ → List ℕ → Option (List ℕ) → M K P (Option (List ℕ))
  settle_or_free key tokens base start_s pages got_s =
      given got_s (on_full (λ a. Arena.free_key a key) >> pure none)
        λ _ s. (ok (some pages), settle key tokens base start_s s)

  settle_or_free-Keeps :
      (key : K) (tokens base start_s : ℕ) (pages : List ℕ) (got_s : Option (List ℕ))
      → Keeps (settle_or_free key tokens base start_s pages got_s)
  settle_or_free-Keeps key tokens base start_s pages got_s =
      given-Keeps got_s (on_full (λ a. Arena.free_key a key) >> pure none) _
        (bind-Keeps (on_full (λ a. Arena.free_key a key)) _
          (on_full-Keeps (λ a. Arena.free_key a key) (λ a. free_key-IsSound a key)) (λ _ t w. w))
        (λ _ _ t u. refresh_rows-IsSound key (some tokens) _ (record { parts = u.parts }))

  second-IsSound :
      (key : K) (tokens want base start_s : ℕ) (borrowed_s pages : List ℕ) (s : KvArena K P)
      → IsSound s
      → Sliding (λ b. Lends b.pool borrowed_s) s.sliding
      → IsSound
          ((on_sliding (some []) (alloc_sliding key tokens want start_s borrowed_s)
              >>= settle_or_free key tokens base start_s pages)
            s).1
  second-IsSound key tokens want base start_s borrowed_s pages s v lends =
      let ask = alloc_sliding key tokens want start_s borrowed_s in
      let w =
        (on_sliding-IsSound (some []) ask s (λ b. Unit) v
          (Sliding-zip s.sliding lends v.parts.sliding_pool (λ b l u.
            (alloc_sliding-IsSound key tokens want start_s borrowed_s b l u, λ _ _. tt)))).0 in
      resume-IsSound (on_sliding (some []) ask s) _ w
        (λ got_s _. settle_or_free-Keeps key tokens base start_s pages got_s _ w)

  alloc_as_planned-IsSound :
      (key : K) (tokens : ℕ) (capacity_tokens base_tokens sliding_tokens : Option ℕ)
      (plan : List ℕ × List ℕ × ℕ) (s : KvArena K P)
      → IsSound s
      → PlanLends s plan
      → IsSound (alloc_as_planned key tokens capacity_tokens base_tokens sliding_tokens plan s).1
  unfolding alloc_as_planned
  alloc_as_planned-IsSound key tokens capacity_tokens base_tokens sliding_tokens
        (borrowed, borrowed_s, start_s) s v lends =
      let capacity = or_default capacity_tokens tokens in
      let w = full-IsSound s _ v (
        pool_alloc-IsSound key tokens (some capacity) borrowed s.accounting v.parts.full_pool
          lends.0) in
      resume-IsSound
        (on_full (on_pool λ pool. Pool.alloc pool key tokens (some capacity) borrowed) s) _ w
        (λ got _. given_at got _ _ _ w (λ pages.
          second-IsSound key tokens (or_default sliding_tokens capacity)
            (or_default base_tokens tokens) start_s borrowed_s pages _ w lends.1))

  pub resume_plan-IsSound :
      {A : Type 0} (r : Result (List ℕ × List ℕ × ℕ)) (s : KvArena K P)
      (f : List ℕ × List ℕ × ℕ → M K P A)
      → IsSound s
      → Lending s r
      → ((plan : List ℕ × List ℕ × ℕ) → PlanLends s plan → IsSound (f plan s).1)
      → IsSound (resume (r, s) f).1
  resume_plan-IsSound (ok plan) s f v lends h = h plan lends
  resume_plan-IsSound (err x) s f v lends h = v

  pub alloc-Keeps :
      (key : K) (tokens : ℕ) (capacity_tokens base_tokens sliding_tokens : Option ℕ)
      (borrow : Option (K × ℕ))
      → Keeps (alloc {P = P} key tokens capacity_tokens base_tokens sliding_tokens borrow)
  unfolding alloc
  alloc-Keeps key tokens capacity_tokens base_tokens sliding_tokens borrow s v =
      resume_plan-IsSound (borrow_plan s borrow) s _ v (borrow_plan-Lending s borrow v)
        (λ plan lends.
          alloc_as_planned-IsSound key tokens capacity_tokens base_tokens sliding_tokens plan s v
            lends)

  pool_grow-IsSound :
      (key : K) (capacity : ℕ) (a : PageArena K P)
      → Sound.IsSound a
      → Sound.IsSound (on_pool (λ pool. Pool.grow pool key capacity) a).1
  pool_grow-IsSound key capacity a v =
      pool-IsSound a _ v (grow-IsValid a.pool key capacity v.pages)
        (λ k r. grow_resident a.pool key k r capacity)

  pool_grow_resident :
      (key : K) (capacity : ℕ) (a : PageArena K P) (n : Option ℕ)
      → (Pool.grow a.pool key capacity).0 ≡ ok n
      → is_resident (on_pool (λ pool. Pool.grow pool key capacity) a).1 key ≡ true
  pool_grow_resident key capacity a n h =
      grow_resident a.pool key key (grow-ok a.pool key capacity n h) capacity

  -- The last part of the growth: the tokens of a key that is resident in both pools.
  settle_tokens-IsSound :
      (key : K) (tokens start : ℕ) (s : KvArena K P) (f : Unit {0} → M K P (Option (List ℕ)))
      → IsSound s
      → is_resident s.accounting key ≡ true
      → Sliding (λ b. is_resident b key ≡ true) s.sliding
      → ((t : KvArena K P) → IsSound t → IsSound (f tt t).1)
      → IsSound
          ((on_full (λ a. (ok tt, set_tokens key tokens a))
              >> (on_sliding tt (λ b. (ok tt, set_tokens key (tokens - start) b)) >>= f))
            s).1
  settle_tokens-IsSound key tokens start s f v resident resident_s h =
      let w =
        full-IsSound s (set_tokens key tokens s.accounting) v
          (tokens-IsSound key tokens s.accounting resident v.parts.full_pool) in
      let u =
        (on_sliding-IsSound tt (λ b. (ok tt, set_tokens key (tokens - start) b))
          (record s { accounting = set_tokens key tokens s.accounting }) (λ b. Unit) w
          (Sliding-zip s.sliding resident_s v.parts.sliding_pool
            (λ b r q. (tokens-IsSound key (tokens - start) b r q, λ _ _. tt)))).0 in
      resume-IsSound
        (on_sliding tt (λ b. (ok tt, set_tokens key (tokens - start) b))
          (record s { accounting = set_tokens key tokens s.accounting }))
        f u (λ _ _. h _ u)

  pub grow_both-Keeps :
      (key : K) (tokens capacity : ℕ) → Keeps (grow_both {P = P} key tokens capacity)
  unfolding grow_both
  grow_both-Keeps key tokens capacity s v =
      let start = start_of s key in
      let w = full-IsSound s _ v (pool_grow-IsSound key capacity s.accounting v.parts.full_pool) in
      resume-IsSound (on_full (on_pool λ pool. Pool.grow pool key capacity) s) _ w (λ n grown.
        let s1 = (on_full {K = K} {P = P} (on_pool λ pool. Pool.grow pool key capacity) s).1 in
        let (u, found, same) =
          on_sliding-IsSound (some 0) (on_pool λ pool. Pool.grow pool key (capacity - start)) s1
            (λ b. is_resident b key ≡ true) w
            (Sliding-all s1.sliding (λ b there. (
              pool_grow-IsSound key (capacity - start) b
                  (subst SlidingIsSound there v.parts.sliding_pool),
              pool_grow_resident key (capacity - start) b,
            ))) in
        resume-IsSound
          (on_sliding (some 0) (on_pool λ pool. Pool.grow pool key (capacity - start)) s1) _ u
          (λ m grown_s.
            settle_tokens-IsSound key tokens start _ _ u
              (subst (λ a. is_resident a key ≡ true) (sym same)
                (pool_grow_resident key capacity s.accounting n grown))
              (found m grown_s) (λ t q. refresh_rows-IsSound key (some tokens) t q)))
