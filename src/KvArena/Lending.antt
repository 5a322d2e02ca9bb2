-- ===== src/KvArena/Lending.antt =====
-- quail/backends/quail/executor/arena.py: what a plan to borrow may lend, and calls on one pool.
use quail.Prelude.{
  ℕ, ◌-◌, ◌≡◌, refl, sym, subst, true, Option, none, some, List, [], Eq, given, given-all, if-all,
  arith, ltb,
}
use quail.Result.{Result, ok, err, chain}
use quail.Dict.{lookup, has}
use quail.Pages.Pool
use quail.Pages.Pool.{Pool, or_default}
use quail.Pages.Alloc.{Lends, shared_pages-Lends}
use quail.Pages.Arena.{PageArena}
use quail.Pages.Sound
use quail.Pages.Sound.{pool-IsSound, free_key-IsSound}
use quail.KvArena.State.{KvArena, M, resume, on_sliding, origin}
use quail.KvArena.Admit.{sliding_borrow, borrow_plan}
use quail.KvArena.Sound.{IsSound, SlidingIsSound}

pub grow-ok :
    {K : Type 0} ⦃e : Eq K⦄ (pool : Pool K) (key : K) (capacity : ℕ) (n : Option ℕ)
    → (Pool.grow pool key capacity).0 ≡ ok n
    → has key pool.owned ≡ true
unfolding Pool.grow
grow-ok pool key capacity n h = ground arith

module _ {K P : Type 0} ⦃e : Eq K⦄ where
  -- A fact about the sliding pool, where there is one.
  abbrev pub Sliding : (PageArena K P → Type 0) → Option (PageArena K P) → Type 0
  Sliding Q none = Unit
  Sliding Q (some b) = Q b

  -- The pages of a plan may be lent, in both pools.
  abbrev pub PlanLends : KvArena K P → List ℕ × List ℕ × ℕ → Type 0
  PlanLends s (borrowed, borrowed_s, start_s) =
      Lends s.accounting.pool borrowed × Sliding (λ b. Lends b.pool borrowed_s) s.sliding

  abbrev pub Lending : KvArena K P → Result (List ℕ × List ℕ × ℕ) → Type 0
  Lending s (ok plan) = PlanLends s plan
  Lending s (err x) = Unit

  chain-Lending :
      (s : KvArena K P) (r : Result (List ℕ)) (f : List ℕ → Result (List ℕ × List ℕ × ℕ))
      → ((pages : List ℕ) → r ≡ ok pages → Lending s (f pages))
      → Lending s (chain r f)
  chain-Lending s (ok pages) f h = h pages refl
  chain-Lending s (err x) f h = tt

  pub Sliding-all :
      {Q : PageArena K P → Type 0} (pool : Option (PageArena K P))
      → ((b : PageArena K P) → pool ≡ some b → Q b)
      → Sliding Q pool
  Sliding-all none h = tt
  Sliding-all (some b) h = h b refl

  sliding_borrow-Lending :
      (s : KvArena K P) (parent : K) (shared : ℕ) (borrowed : List ℕ) (parent_start : ℕ)
      (b : PageArena K P)
      → s.sliding ≡ some b
      → IsSound s
      → Lends s.accounting.pool borrowed
      → Lending s (sliding_borrow s parent shared borrowed parent_start b)
  unfolding sliding_borrow
  sliding_borrow-Lending s parent shared borrowed parent_start b there v lends =
      if-all (Lending s) (ltb (origin s shared) parent_start) _ _ (λ _. tt)
        (λ _.
          chain-Lending s
            (Pool.shared_pages b.pool parent (shared - parent_start)
              (origin s shared - parent_start))
            _
            (λ borrowed_s found. (
              lends,
              subst (Sliding (λ c. Lends c.pool borrowed_s)) (sym there) (
                  shared_pages-Lends b.pool parent _ _ borrowed_s
                    (subst SlidingIsSound there v.parts.sliding_pool).pages found),
            )))

  -- The pages that `_borrow_plan` answers may be lent.
  pub borrow_plan-Lending :
      (s : KvArena K P) (borrow : Option (K × ℕ)) → IsSound s → Lending s (borrow_plan s borrow)
  unfolding borrow_plan
  borrow_plan-Lending s none v =
      ((λ p. ground arith), Sliding-all s.sliding (λ b _ p. ground arith))
  borrow_plan-Lending s (some (parent, shared)) v =
      chain-Lending s (Pool.shared_pages s.accounting.pool parent shared 0) _ (λ borrowed found.
        let lends =
          shared_pages-Lends s.accounting.pool parent shared 0 borrowed v.parts.full_pool.pages
            found in
        given-all (Lending s) s.sliding _ _
          (λ absent. (lends, subst (Sliding (λ c. Lends c.pool [])) (sym absent) tt))
          (λ b there.
            given-all (Lending s) (lookup parent s.sliding_start) _ _ (λ _. tt)
              (λ start _. sliding_borrow-Lending s parent shared borrowed start b there v lends)))

  -- A call that succeeds is followed up in the state that it leaves.
  pub resume-IsSound :
      {A B : Type 0} (r : Result A × KvArena K P) (f : A → M K P B)
      → IsSound r.1
      → ((x : A) → r.0 ≡ ok x → IsSound (f x r.1).1)
      → IsSound (resume r f).1
  resume-IsSound (ok x, s) f v h = h x refl
  resume-IsSound (err x, s) f v h = v

  pub full-IsSound :
      (s : KvArena K P) (a : PageArena K P)
      → IsSound s
      → Sound.IsSound a
      → IsSound (record s { accounting = a })
  full-IsSound s a v w = record {
    parts = record {
      full_pool = w;
      sliding_pool = v.parts.sliding_pool;
      waiting = v.parts.waiting;
      held = v.parts.held;
      read = v.parts.read;
    };
  }

  sliding_pool-IsSound :
      (s : KvArena K P) (pool : Option (PageArena K P))
      → IsSound s
      → SlidingIsSound pool
      → IsSound (record s { sliding = pool })
  sliding_pool-IsSound s pool v w = record {
    parts = record {
      full_pool = v.parts.full_pool;
      sliding_pool = w;
      waiting = v.parts.waiting;
      held = v.parts.held;
      read = v.parts.read;
    };
  }

  Sliding-map :
      {Q R : PageArena K P → Type 0} (pool : Option (PageArena K P))
      → ((b : PageArena K P) → Q b → R b)
      → Sliding Q pool
      → Sliding R pool
  Sliding-map none h q = tt
  Sliding-map (some b) h q = h b q

  pub Sliding-zip :
      {Q R : PageArena K P → Type 0} (pool : Option (PageArena K P))
      → Sliding Q pool
      → SlidingIsSound pool
      → ((b : PageArena K P) → Q b → Sound.IsSound b → R b)
      → Sliding R pool
  Sliding-zip none q v h = tt
  Sliding-zip (some b) q v h = h b q v

  -- A call on the sliding pool, and what it leaves.
  on_sliding_at :
      {A : Type 0} (absent : A) (f : PageArena K P → Result A × PageArena K P) (s : KvArena K P)
      (R : PageArena K P → Type 0) (pool : Option (PageArena K P))
      → s.sliding ≡ pool
      → IsSound s
      → Sliding (λ b. Sound.IsSound (f b).1 × ((x : A) → (f b).0 ≡ ok x → R (f b).1)) pool
      → IsSound
          (given {B = Result A × KvArena K P} pool
            (ok absent, s)
            λ b. ((f b).0, record s { sliding = some (f b).1 })).1
        × ((x : A)
            → (given {B = Result A × KvArena K P} pool
                (ok absent, s)
                λ b. ((f b).0, record s { sliding = some (f b).1 })).0
              ≡ ok x
            → Sliding R
                (given {B = Result A × KvArena K P} pool
                  (ok absent, s)
                  λ b. ((f b).0, record s { sliding = some (f b).1 })).1.sliding)
        × ((given {B = Result A × KvArena K P} pool
              (ok absent, s)
              λ b. ((f b).0, record s { sliding = some (f b).1 })).1.accounting
            ≡ s.accounting)
  on_sliding_at absent f s R none there v q = (v, (λ x _. subst (Sliding R) (sym there) tt), refl)
  on_sliding_at absent f s R (some b) there v q =
      (sliding_pool-IsSound s (some (f b).1) v q.0, q.1, refl)

  pub on_sliding-IsSound :
      {A : Type 0} (absent : A) (f : PageArena K P → Result A × PageArena K P) (s : KvArena K P)
      (R : PageArena K P → Type 0)
      → IsSound s
      → Sliding (λ b. Sound.IsSound (f b).1 × ((x : A) → (f b).0 ≡ ok x → R (f b).1)) s.sliding
      → IsSound (on_sliding absent f s).1
        × ((x : A) → (on_sliding absent f s).0 ≡ ok x → Sliding R (on_sliding absent f s).1.sliding)
        × ((on_sliding absent f s).1.accounting ≡ s.accounting)
  on_sliding-IsSound absent f s R v q = on_sliding_at absent f s R s.sliding refl v q
