-- ===== src/Pages/Arena.antt =====
-- quail/backends/quail/executor/pages.py: `PageArena` as a whole, with the methods that touch more
-- than one of its parts.
use quail.Prelude.{
  ℕ, Bool, Option, none, some, List, [], ◌∷◌, ◌==◌, if◌then◌else◌, Eq, ltb, length, keep_if, map,
}
use quail.Result.{Result, ok, err, key_error, value_error}
use quail.Dict.{lookup, has}
use quail.Pages.Pool
use quail.Pages.Pool.{Pool, table_pages, tokens_of, rewind_pages, free_pages_of}
use quail.Pages.Slots
use quail.Pages.Slots.{Slots, free_slots_of}
use quail.Pages.Heap.{Priorities}
use quail.Pages.Retention
use quail.Pages.Retention.{Retention, retain_key, pin_key, drop_key, pop_retained_victim}

pub record PageArena (K P : Type 0) : Type 0 where
  pub pool : Pool K
  pub slot_table : Slots K
  pub retention : Retention K P

unfoldable pub init : {K P : Type 0} → ℕ → ℕ → ℕ → PageArena K P
init num_pages page_tokens num_slots = record {
  pool = Pool.init num_pages page_tokens;
  slot_table = Slots.init num_slots;
  retention = Retention.init;
}

module _ {K P : Type 0} ⦃e : Eq K⦄ where
  -- `key in self.owned`
  abbrev pub is_resident : PageArena K P → K → Bool
  is_resident a key = has key a.pool.owned

  unfoldable pub pin : PageArena K P → K → Result (Unit {0}) × PageArena K P
  pin a key =
      if is_resident a key
      then (ok tt, record a { retention = pin_key key a.retention })
      else (err key_error, a)

  -- The slots go back first, and a key that is not resident is found out by `self.owned.pop(key)`.
  unfoldable pub free_key : PageArena K P → K → Result ℕ × PageArena K P
  free_key a key =
      let slot_table = free_slots_of key a.slot_table in
      let (freed, pool) = free_pages_of a.pool key in
      if is_resident a key
      then (
        freed,
        record a { pool = pool; slot_table = slot_table; retention = drop_key key a.retention },
      )
      else (freed, record a { slot_table = slot_table })

module _ {K P : Type 0} ⦃e : Eq K⦄ (o : Priorities P) where
  -- `int((self.holds[self.table_pages(key)] == 1).sum())`
  unfoldable pub sole_pages : Pool K → K → ℕ
  sole_pages pool key = length (keep_if (λ p. pool.holds p == 1) (table_pages pool key))

  unfoldable pub retain : PageArena K P → K → Option P → Result (Unit {0}) × PageArena K P
  unfolding sole_pages
  retain a key priority =
      if is_resident a key
      then (
        ok tt,
        record a {
          retention =
              retain_key o key (tokens_of (lookup key a.pool.tokens)) (sole_pages a.pool key)
                priority a.retention;
        },
      )
      else (err key_error, a)

  unfoldable pub rewind : PageArena K P → K → ℕ → Result ℕ × PageArena K P
  unfolding retain
  rewind a key tokens =
      let (freed, pool) = rewind_pages a.pool key tokens in
      let a' = record a { pool = pool } in
      elim freed [
        | err x ↦ (err x, a')
        | ok n ↦ (ok n, if has key a.retention.retained then (retain a' key none).1 else a')
      ]

  -- `for key in keys: self.retain(key)`, whose KeyError ends the loop.
  unfoldable pub retain_all : List K → PageArena K P → Result (Unit {0}) × PageArena K P
  retain_all [] a = (ok tt, a)
  retain_all (key ∷ keys) a =
      let (done, a') = retain a key none in
      elim done [ err x ↦ (err x, a') | ok _ ↦ retain_all keys a' ]

  -- Of an integer that is no natural number the source says the same as of one past the arena.
  unfoldable pub configure_retention :
      PageArena K P → Option (K → ℕ → ℕ → P) → ℕ → Result (Unit {0}) × PageArena K P
  unfolding retain_all
  configure_retention a policy cap_pages =
      let retention = record a.retention {
        policy = policy;
        cap_pages = some cap_pages;
        heap = [];
      } in
      if ltb a.pool.num_pages cap_pages
      then (err value_error, a)
      else retain_all (map (λ entry. entry.0) a.retention.retained)
          (record a { retention = retention })

module _ {K : Type 0} ⦃e : Eq K⦄ where
  abbrev pub borrow_plan : Pool K → Option (K × ℕ × ℕ) → Result (List ℕ)
  borrow_plan pool none = ok []
  borrow_plan pool (some (parent, shared, start)) = Pool.shared_pages pool parent shared start

  abbrev pub alloc_from : Pool K → K → ℕ → Option ℕ → Result (List ℕ) → Pool K
  alloc_from pool key tokens capacity_tokens (err x) = pool
  alloc_from pool key tokens capacity_tokens (ok borrowed) =
      (Pool.alloc pool key tokens capacity_tokens borrowed).1

-- A call of one of the arena's methods. The pages that a call of `alloc` borrows come from a call of
-- `shared_pages` with the parent, the shared tokens and the start.
pub data Call (K P : Type 0) : Type 0 where
  alloc : K → ℕ → Option ℕ → Option (K × ℕ × ℕ) → Call K P
  drop_leading : K → ℕ → Call K P
  grow : K → ℕ → Call K P
  grow_pages : List K → Call K P
  alloc_slot alloc_extension drop_extension : K → Call K P
  alloc_share : K → ℕ → Call K P
  frees pins : K → Call K P
  retains : K → Option P → Call K P
  rewinds : K → ℕ → Call K P
  configures : Option (K → ℕ → ℕ → P) → ℕ → Call K P
  pops_victim : List K → Call K P

module _ {K P : Type 0} ⦃e : Eq K⦄ (o : Priorities P) where
  -- The arena after a call, whether it returns or raises.
  unfoldable pub step : PageArena K P → Call K P → PageArena K P
  step a (alloc key tokens capacity_tokens borrow) = record a {
    pool = alloc_from a.pool key tokens capacity_tokens (borrow_plan a.pool borrow);
  }
  step a (drop_leading key pages) = record a { pool = (Pool.drop_leading a.pool key pages).1 }
  step a (grow key capacity_tokens) = record a { pool = (Pool.grow a.pool key capacity_tokens).1 }
  step a (grow_pages keys) = record a { pool = (Pool.grow_pages a.pool keys).1 }
  step a (alloc_slot key) = record a {
    slot_table = (Slots.alloc_slot (is_resident a key) key a.slot_table).1;
  }
  step a (alloc_extension key) = record a {
    slot_table = (Slots.alloc_extension (is_resident a key) key a.slot_table).1;
  }
  step a (alloc_share key tokens) = record a {
    slot_table = (Slots.alloc_share (is_resident a key) key tokens a.slot_table).1;
  }
  step a (drop_extension key) = record a { slot_table = Slots.drop_extension key a.slot_table }
  step a (frees key) = (free_key a key).1
  step a (pins key) = (pin a key).1
  step a (retains key priority) = (retain o a key priority).1
  step a (rewinds key tokens) = (rewind o a key tokens).1
  step a (configures policy cap_pages) = (configure_retention o a policy cap_pages).1
  step a (pops_victim keep) = record a { retention = (pop_retained_victim o keep a.retention).1 }

  unfoldable pub run : PageArena K P → List (Call K P) → PageArena K P
  run a [] = a
  run a (c ∷ cs) = run (step a c) cs
