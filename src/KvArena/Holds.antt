-- ===== src/KvArena/Holds.antt =====
-- quail/backends/quail/executor/arena.py: the sliding window of a key, the keys that queued
-- borrowers and planned readers hold, and `free_key`, which waits for them.
use quail.Prelude.{
  given, ℕ, ◌+◌, ◌-◌, ◌/◌, Bool, true, false, ◌&&◌, ◌||◌, Option, none, some, List, [], ◌∷◌, min,
  ltb, leb, not, ◌==◌, if◌then◌else◌, Eq, keep_if, map,
}
use quail.Result.{Result, ok, err, key_error}
use quail.Dict.{lookup, has, put, pop}
use quail.Pages.Pool
use quail.Pages.Pool.{or_default, tokens_of}
use quail.Pages.Arena
use quail.Pages.Arena.{PageArena}
use quail.Pages.Retention.{among, add, discard}
use quail.KvArena.State.{
  KvArena, M, ◌>>=◌, ◌>>◌, pure, resume, on_full, on_sliding, on_pool, origin, free_pages,
  page_tokens, start_of, refresh_rows,
}

-- `bool(keys)`
abbrev pub any : {K : Type 0} → List K → Bool
any [] = false
any (key ∷ keys) = true

module _ {K P : Type 0} ⦃e : Eq K⦄ where
  unfoldable pub keep_window : K → ℕ → KvArena K P → KvArena K P
  unfolding origin
  keep_window key shared s =
      let row = origin s shared in
      record s {
        window_floor =
            put key (min (or_default (lookup key s.window_floor) row) row) s.window_floor;
      }

  -- `self.sliding.tokens[key] -= rows`
  abbrev pub fewer_tokens : K → ℕ → PageArena K P → PageArena K P
  fewer_tokens key rows b = record b {
    pool = record b.pool {
      tokens = put key (tokens_of (lookup key b.pool.tokens) - rows) b.pool.tokens;
    };
  }

  abbrev pub drop_rows : K → ℕ → ℕ → PageArena K P → Result ℕ × PageArena K P
  drop_rows key pages rows b =
      resume (on_pool (λ pool. Pool.drop_leading pool key pages) b)
        λ freed b'. (ok freed, fewer_tokens key rows b')

  -- The row that `trim_window` releases the pages before, for a key with the base.
  unfoldable pub trim_origin : KvArena K P → K → ℕ → ℕ
  unfolding origin
  trim_origin s key base = min (origin s base) (or_default (lookup key s.window_floor) base)

  -- The loss of the rows from `start` to `first`, and the free pages that it brings.
  unfoldable pub release_rows : K → ℕ → ℕ → M K P ℕ
  unfolding free_pages refresh_rows
  release_rows key start first s =
      (on_sliding 0 (drop_rows key ((first - start) / page_tokens s) (first - start)) >> λ s'.
      let trimmed =
        refresh_rows key none (record s' { sliding_start = put key first s'.sliding_start }) in
      (ok (free_pages trimmed - free_pages s), trimmed))
        s

  -- A sliding pool is there, and the key has the base.
  unfoldable pub trim_to_origin : K → Option ℕ → M K P ℕ
  unfolding release_rows trim_origin
  trim_to_origin key none s = (err key_error, s)
  trim_to_origin key (some base) s =
      let first = trim_origin s key base in
      if leb first (start_of s key) then (ok 0, s) else release_rows key (start_of s key) first s

  unfoldable pub trim_window : K → M K P ℕ
  unfolding trim_to_origin
  trim_window key s =
      given s.sliding (ok 0, s)
        λ b. trim_to_origin key (lookup key s.base) (record s { trimmed = add key s.trimmed })

  unfoldable pub lift_floor : K → M K P (Unit {0})
  unfolding trim_window
  lift_floor key s =
      let lifted = record s { window_floor = pop key s.window_floor } in
      if has key s.window_floor && among key s.trimmed
      then (trim_window key >>= λ _. pure tt) lifted
      else (ok tt, lifted)

  -- What the arena keeps of a key beside its pages.
  unfoldable pub forget_rows : K → KvArena K P → KvArena K P
  forget_rows key s = record s {
    rows = pop key s.rows;
    kept_rows = pop key s.kept_rows;
    stale_rows = discard key s.stale_rows;
    sliding_rows = pop key s.sliding_rows;
    base = pop key s.base;
    sliding_start = pop key s.sliding_start;
  }

  -- `key in self._holds or key in self._reading`
  abbrev pub is_kept : KvArena K P → K → Bool
  is_kept s key = has key s.holds || has key s.reading

  -- `free_key` for a key that nothing holds. The two row indices are written and dropped together,
  -- so that `self._capacity_rows.pop(key)` finds its key after `self._rows.pop(key)` did.
  unfoldable pub free_now : K → M K P ℕ
  unfolding forget_rows
  free_now key s =
      let unmarked = record s {
        window_floor = pop key s.window_floor;
        trimmed = discard key s.trimmed;
      } in
      if has key s.rows
      then (on_sliding 0 (λ b. Arena.free_key b key) >> on_full (λ a. Arena.free_key a key))
          (forget_rows key unmarked)
      else (err key_error, unmarked)

  unfoldable pub free_key : K → M K P ℕ
  unfolding free_now
  free_key key s =
      if is_kept s key then (ok 0, record s { deferred = add key s.deferred }) else free_now key s

  unfoldable pub hold : K → ℕ → KvArena K P → KvArena K P
  hold key borrowers s =
      if ltb 0 borrowers
      then record s { holds = put key (tokens_of (lookup key s.holds) + borrowers) s.holds }
      else s

  unfoldable pub release_hold : K → M K P (Unit {0})
  unfolding free_key lift_floor
  release_hold key s =
      let released = record s { holds = pop key s.holds } in
      if has key s.holds
      then if among key s.deferred
        then (free_key key >>= λ _. pure tt) (record released { deferred = discard key s.deferred })
        else lift_floor key released
      else (err key_error, s)

  unfoldable pub release : K → M K P (Unit {0})
  unfolding release_hold
  release key s =
      given (lookup key s.holds) (ok tt, s)
        λ n.
          if n == 1
          then release_hold key s
          else (ok tt, record s { holds = put key (n - 1) s.holds })

  unfoldable pub read_state : List K → KvArena K P → KvArena K P
  read_state [] s = s
  read_state (key ∷ keys) s =
      read_state keys
        (record s { reading = put key (tokens_of (lookup key s.reading) + 1) s.reading })

  -- A key whose last planned reader is done.
  unfoldable pub last_read : K → M K P (Unit {0})
  unfolding free_key
  last_read key s =
      let unread = record s { reading = pop key s.reading } in
      if among key s.deferred && not (has key s.holds)
      then (free_key key >>= λ _. pure tt) (record unread { deferred = discard key s.deferred })
      else (ok tt, unread)

  unfoldable pub done_reading_one : K → M K P (Unit {0})
  unfolding last_read
  done_reading_one key s =
      given (lookup key s.reading) (err key_error, s)
        λ n.
          if n == 1
          then last_read key s
          else (ok tt, record s { reading = put key (n - 1) s.reading })

  unfoldable pub done_reading : List K → M K P (Unit {0})
  unfolding done_reading_one
  done_reading [] = pure tt
  done_reading (key ∷ keys) = done_reading_one key >> done_reading keys

  unfoldable pub release_all : List K → M K P (Unit {0})
  unfolding release_hold
  release_all [] = pure tt
  release_all (key ∷ keys) = release_hold key >> release_all keys

  abbrev pub held_among : KvArena K P → Option (List K) → List K
  held_among s none = map (λ entry. entry.0) s.holds
  held_among s (some keys) = keep_if (λ key. has key s.holds) keys

  unfoldable pub drop_holds : Option (List K) → M K P Bool
  unfolding release_all
  drop_holds keys s = (release_all (held_among s keys) >> pure (any (held_among s keys))) s
