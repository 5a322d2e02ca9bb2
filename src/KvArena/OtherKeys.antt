-- ===== src/KvArena/OtherKeys.antt =====
-- quail/backends/quail/executor/arena.py: what a call on another key leaves as it is.
use quail.Prelude.{
  ℕ, ◌≡◌, refl, sym, subst, Bool, true, false, Option, none, some, Eq, given, arith, if◌then◌else◌,
}
use quail.Result.{Result, ok, err}
use quail.Dict.{lookup, has, pop, lookup-pop}
use quail.Pages.Retention.{discard}
use quail.Pages.Arena
use quail.Pages.Arena.{PageArena, is_resident}
use quail.KvArena.State.{KvArena, M, resume, on_sliding}
use quail.KvArena.Holds.{forget_rows, is_kept, free_now, free_key}
use quail.KvArena.Evict.{evict_key}
use quail.KvArena.Stays.{
  among-discard_other, free_key-Agree, Agree-refl, AgreeSliding, Stays, AgreeSliding-refl,
  Stays-refl, Stays-trans,
}

module _ {K P : Type 0} ⦃e : Eq K⦄ where
  pub resume-Stays :
      {A B : Type 0} (k : K) (s : KvArena K P) (r : Result A × KvArena K P) (f : A → M K P B)
      → Stays k s r.1
      → ((x : A) (t : KvArena K P) → Stays k t (f x t).1)
      → Stays k s (resume r f).1
  resume-Stays k s (ok x, t) f h g = Stays-trans k s t _ h (g x t)
  resume-Stays k s (err x, t) f h g = h

  -- The parts of `free_key` for another key.
  sliding_freed :
      (key k : K) (s : KvArena K P) (pool : Option (PageArena K P))
      → s.sliding ≡ pool
      → e.same key k ≡ false
      → Stays k s
          (given {B = Result ℕ × KvArena K P} pool
            (ok 0, s)
            λ b. ((Arena.free_key b key).0, record s { sliding = some (Arena.free_key b key).1 })).1
  sliding_freed key k s none there other = Stays-refl k s
  sliding_freed key k s (some b) there other = record {
    full = Agree-refl k s.accounting;
    sliding =
        subst (λ pool. AgreeSliding k pool (some (Arena.free_key b key).1)) (sym there)
          (free_key-Agree key k b other);
    rows = refl;
    kept_rows = refl;
    stale = refl;
    sliding_rows = refl;
    floor = refl;
    trimmed = refl;
    base = refl;
    start = refl;
    holds = refl;
    reading = refl;
  }

  full_freed :
      (key k : K) (s : KvArena K P)
      → e.same key k ≡ false
      → Stays k s (record s { accounting = (Arena.free_key s.accounting key).1 })
  full_freed key k s other = record {
    full = free_key-Agree key k s.accounting other;
    sliding = AgreeSliding-refl k s.sliding;
    rows = refl;
    kept_rows = refl;
    stale = refl;
    sliding_rows = refl;
    floor = refl;
    trimmed = refl;
    base = refl;
    start = refl;
    holds = refl;
    reading = refl;
  }

  pub if-Stays :
      {A : Type 0} (k : K) (s : KvArena K P) (b : Bool) (x y : Result A × KvArena K P)
      → Stays k s x.1
      → Stays k s y.1
      → Stays k s (if b then x else y).1
  if-Stays k s true x y h g = h
  if-Stays k s false x y h g = g

  free_now-Stays :
      (key k : K) (s : KvArena K P) → e.same key k ≡ false → Stays k s (free_now key s).1
  unfolding free_now forget_rows
  free_now-Stays key k s other =
      let unmarked : KvArena K P = record s {
        window_floor = pop key s.window_floor;
        trimmed = discard key s.trimmed;
      } in
      let unmarked_Stays : Stays k s unmarked = record {
        full = Agree-refl k s.accounting;
        sliding = AgreeSliding-refl k s.sliding;
        rows = refl;
        kept_rows = refl;
        stale = refl;
        sliding_rows = refl;
        floor = ground (arith, lookup-pop key k s.window_floor);
        trimmed = among-discard_other key k s.trimmed other;
        base = refl;
        start = refl;
        holds = refl;
        reading = refl;
      } in
      let forgotten : Stays k s (forget_rows key unmarked) = record {
        full = Agree-refl k s.accounting;
        sliding = AgreeSliding-refl k s.sliding;
        rows = ground (arith, lookup-pop key k s.rows);
        kept_rows = ground (arith, lookup-pop key k s.kept_rows);
        stale = among-discard_other key k s.stale_rows other;
        sliding_rows = ground (arith, lookup-pop key k s.sliding_rows);
        floor = ground (arith, lookup-pop key k s.window_floor);
        trimmed = among-discard_other key k s.trimmed other;
        base = ground (arith, lookup-pop key k s.base);
        start = ground (arith, lookup-pop key k s.sliding_start);
        holds = refl;
        reading = refl;
      } in
      if-Stays k s (has key s.rows) _ _
        (Stays-trans k s (forget_rows key unmarked) _ forgotten (
          resume-Stays k _ (on_sliding 0 (λ b. Arena.free_key b key) (forget_rows key unmarked)) _
            (sliding_freed key k (forget_rows key unmarked) s.sliding refl other)
            (λ _ u. full_freed key k u other)))
        unmarked_Stays

  -- A key that is kept is only noted, and another key goes.
  free_key-Stays :
      (key k : K) (s : KvArena K P) → e.same key k ≡ false → Stays k s (free_key key s).1
  unfolding free_key
  free_key-Stays key k s other =
      if-Stays k s (is_kept s key) _ _
        (record {
          full = Agree-refl k s.accounting;
          sliding = AgreeSliding-refl k s.sliding;
          rows = refl;
          kept_rows = refl;
          stale = refl;
          sliding_rows = refl;
          floor = refl;
          trimmed = refl;
          base = refl;
          start = refl;
          holds = refl;
          reading = refl;
        })
        (free_now-Stays key k s other)

  pub evict_key-Stays :
      (key k : K) (s : KvArena K P) → e.same key k ≡ false → Stays k s (evict_key key s).1
  unfolding evict_key
  evict_key-Stays key k s other =
      given-Stays k s (lookup key s.accounting.pool.tokens) _ _ (Stays-refl k s) (λ tokens.
        resume-Stays k s (free_key key s) _ (free_key-Stays key k s other) (λ pages t. record {
          full = Agree-refl k t.accounting;
          sliding = AgreeSliding-refl k t.sliding;
          rows = refl;
          kept_rows = refl;
          stale = refl;
          sliding_rows = refl;
          floor = refl;
          trimmed = refl;
          base = refl;
          start = refl;
          holds = refl;
          reading = refl;
        }))
    where
      given-Stays :
          {A B : Type 0} (k : K) (s : KvArena K P) (o : Option B) (x : Result A × KvArena K P)
          (f : B → Result A × KvArena K P)
          → Stays k s x.1
          → ((b : B) → Stays k s (f b).1)
          → Stays k s (given o x f).1
      given-Stays k s none x f h g = h
      given-Stays k s (some b) x f h g = g b
