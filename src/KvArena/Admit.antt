-- ===== src/KvArena/Admit.antt =====
-- quail/backends/quail/executor/arena.py: the allocation of pages and checkpoint slots for a
-- document.
use quail.Prelude.{
  given, ℕ, ◌-◌, Option, none, some, List, [], min, ltb, if◌then◌else◌, Eq, nat_eq, pair_eq,
}
use quail.Result.{Result, chain, ok, err, key_error, value_error}
use quail.Dict.{lookup, put}
use quail.Pages.Pool
use quail.Pages.Pool.{Pool, pages_needed, table_pages, owned_by, or_default, tokens_of}
use quail.Pages.Arena
use quail.Pages.Arena.{PageArena, is_resident}
use quail.KvArena.State.{
  KvArena, M, ◌>>=◌, ◌>>◌, pure, raise, on_full, on_sliding, on_pool, origin, start_of, lacking,
  refresh_rows,
}

module _ {K P : Type 0} ⦃e : Eq K⦄ where
  -- The borrow from the sliding pool, with the parent's start.
  unfoldable pub sliding_borrow :
      KvArena K P → K → ℕ → List ℕ → ℕ → PageArena K P → Result (List ℕ × List ℕ × ℕ)
  unfolding origin
  sliding_borrow s parent shared borrowed parent_start b =
      let start = origin s shared in
      if ltb start parent_start
      then err value_error
      else chain (Pool.shared_pages b.pool parent (shared - parent_start) (start - parent_start))
          λ borrowed_s. ok (borrowed, borrowed_s, start)

  unfoldable pub borrow_plan : KvArena K P → Option (K × ℕ) → Result (List ℕ × List ℕ × ℕ)
  unfolding sliding_borrow
  borrow_plan s none = ok ([], [], 0)
  borrow_plan s (some (parent, shared)) =
      chain (Pool.shared_pages s.accounting.pool parent shared 0) λ borrowed.
        given s.sliding (ok (borrowed, [], 0)) λ b.
          given (lookup parent s.sliding_start) (err key_error)
            λ parent_start. sliding_borrow s parent shared borrowed parent_start b

  -- The sliding part of an allocation. A negative number of tokens covers no borrowed pages.
  abbrev pub alloc_sliding :
      K → ℕ → ℕ → ℕ → List ℕ → PageArena K P → Result (Option (List ℕ)) × PageArena K P
  alloc_sliding key tokens want start_s borrowed_s b =
      if ltb (min tokens want) start_s
      then (err value_error, b)
      else on_pool
          (λ pool.
            Pool.alloc pool key (min tokens want - start_s) (some (want - start_s)) borrowed_s)
          b

  -- The records of a key that has its pages in both pools.
  abbrev pub settle : K → ℕ → ℕ → ℕ → KvArena K P → KvArena K P
  settle key tokens base start_s s =
      refresh_rows key (some tokens)
        (record s { base = put key base s.base; sliding_start = put key start_s s.sliding_start })

  unfoldable pub alloc_as_planned :
      K → ℕ → Option ℕ → Option ℕ → Option ℕ → List ℕ × List ℕ × ℕ → M K P (Option (List ℕ))
  unfolding refresh_rows
  alloc_as_planned key tokens capacity_tokens base_tokens sliding_tokens
        (borrowed, borrowed_s, start_s) =
      let capacity = or_default capacity_tokens tokens in
      on_full (on_pool λ pool. Pool.alloc pool key tokens (some capacity) borrowed) >>= λ got.
      given got (pure none) λ pages.
        on_sliding (some [])
          (alloc_sliding key tokens (or_default sliding_tokens capacity) start_s borrowed_s)
        >>= λ got_s.
            given got_s (on_full (λ a. Arena.free_key a key) >> pure none)
              λ _ s. (ok (some pages), settle key tokens (or_default base_tokens tokens) start_s s)

  unfoldable pub alloc :
      K → ℕ → Option ℕ → Option ℕ → Option ℕ → Option (K × ℕ) → M K P (Option (List ℕ))
  unfolding borrow_plan alloc_as_planned
  alloc key tokens capacity_tokens base_tokens sliding_tokens borrow s =
      (raise (borrow_plan s borrow)
          >>= alloc_as_planned key tokens capacity_tokens base_tokens sliding_tokens)
        s

  -- `key = object()`: a key that is new.
  abbrev pub alloc_temporary : K → ℕ → Option ℕ → M K P (Option (List ℕ))
  alloc_temporary key tokens sliding_tokens = alloc key tokens none (some 0) sliding_tokens none

  abbrev pub lacking_sliding : KvArena K P → K → ℕ → ℕ
  lacking_sliding s key capacity = (given s.sliding 0 λ b. lacking b.pool key capacity)

  abbrev pub set_tokens : K → ℕ → PageArena K P → PageArena K P
  set_tokens key tokens a = record a {
    pool = record a.pool { tokens = put key tokens a.pool.tokens };
  }

  -- Both pools grow the key to the capacity.
  unfoldable pub grow_both : K → ℕ → ℕ → M K P (Option (List ℕ))
  unfolding refresh_rows
  grow_both key tokens capacity s =
      let start = start_of s key in
      (on_full (on_pool λ pool. Pool.grow pool key capacity)
          >> (on_sliding (some 0) (on_pool λ pool. Pool.grow pool key (capacity - start))
              >> (on_full (λ a. (ok tt, set_tokens key tokens a))
                  >> (on_sliding tt (λ b. (ok tt, set_tokens key (tokens - start) b)) >> λ s1. (
                    ok (some (owned_by s1.accounting.pool key)),
                    refresh_rows key (some tokens) s1,
                  )))))
        s
