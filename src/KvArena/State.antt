-- ===== src/KvArena/State.antt =====
-- quail/backends/quail/executor/arena.py: the state of `KVArena`, the counts of pages that it
-- answers, and the row indices that it caches. The tensors that hold keys and values are left out.
use quail.Prelude.{
  ℕ, zero, suc, ◌+◌, ◌-◌, ◌*◌, ◌/◌, Bool, true, false, ◌&&◌, ◌||◌, Option, none, some, List, [],
  ◌∷◌, ◌++◌, min, max, ltb, leb, ◌==◌, if◌then◌else◌, Eq, given, length, take,
}
use quail.Result.{Result, ok, err}
use quail.Dict.{Dict, lookup, put}
use quail.Pages.Pool.{Pool, pages_needed, owned_by, table_pages, or_default, tokens_of}
use quail.Pages.Arena.{PageArena, is_resident}
use quail.Pages.Retention.{discard, among}

pub record KvArena (K P : Type 0) : Type 0 where
  pub accounting : PageArena K P
  -- The pool of the sliding layers, if the model has any.
  pub sliding : Option (PageArena K P)
  pub window : ℕ
  -- key → every row of its first `tokens` tokens, and every row in its pages
  pub rows : Dict K (List ℕ)
  pub kept_rows : Dict K (List ℕ)
  pub stale_rows : List K
  pub sliding_rows : Dict K (List ℕ)
  pub base : Dict K ℕ
  pub sliding_start : Dict K ℕ
  pub holds : Dict K ℕ
  pub reading : Dict K ℕ
  pub deferred : List K
  pub window_floor : Dict K ℕ
  pub trimmed : List K
  pub evicted_keys : ℕ
  pub evicted_pages : ℕ
  pub evicted_prefix_tokens : ℕ

-- A method that may raise: what it answers, and the arena after it.
abbrev pub M : Type 0 → Type 0 → Type 0 → Type 0
M K P A = KvArena K P → Result A × KvArena K P

abbrev pub resume : {S A B : Type 0} → Result A × S → (A → S → Result B × S) → Result B × S
resume (ok x, s) f = f x s
resume (err e, s) f = (err e, s)

infixl 5 ◌>>=◌ ◌>>◌
abbrev pub ◌>>=◌ : {K P A B : Type 0} → M K P A → (A → M K P B) → M K P B
◌>>=◌ m f s = resume (m s) f

abbrev pub ◌>>◌ : {K P A B : Type 0} → M K P A → M K P B → M K P B
◌>>◌ m n = m >>= λ _. n

abbrev pub pure : {K P A : Type 0} → A → M K P A
pure x s = (ok x, s)

abbrev pub raise : {K P A : Type 0} → Result A → M K P A
raise r s = (r, s)

-- `try: m finally: last`
abbrev pub close : {S A : Type 0} → Result A → Result (Unit {0}) × S → Result A × S
close r (ok _, s) = (r, s)
close r (err e, s) = (err e, s)

abbrev pub finally : {K P A : Type 0} → M K P A → M K P (Unit {0}) → M K P A
finally m last s = let (r, s') = m s in close r (last s')

module _ {K P : Type 0} where
  -- A call on the accounting of the full pool.
  abbrev pub on_full : {A : Type 0} → (PageArena K P → Result A × PageArena K P) → M K P A
  on_full f s = let (r, a) = f s.accounting in (r, record s { accounting = a })

  -- A call on the sliding pool where there is one.
  abbrev pub on_sliding : {A : Type 0} → A → (PageArena K P → Result A × PageArena K P) → M K P A
  on_sliding absent f s =
      given s.sliding (ok absent, s) λ b. let (r, a) = f b in (r, record s { sliding = some a })

  abbrev pub on_pool :
      {A : Type 0} → (Pool K → Result A × Pool K) → PageArena K P → Result A × PageArena K P
  on_pool f a = let (r, pool) = f a.pool in (r, record a { pool = pool })

  abbrev pub page_tokens : KvArena K P → ℕ
  page_tokens s = s.accounting.pool.page_tokens

  abbrev pub num_pages : KvArena K P → ℕ
  num_pages s = s.accounting.pool.num_pages

  abbrev pub free_count : PageArena K P → ℕ
  free_count a = length a.pool.free

  abbrev pub has_slots : KvArena K P → Bool
  has_slots s = ltb 0 s.accounting.slot_table.num_slots

  -- Free pages in pages of the full pool: the tighter pool decides.
  unfoldable pub free_pages : KvArena K P → ℕ
  free_pages s =
      (given s.sliding (free_count s.accounting)
        λ b. min (free_count s.accounting) (free_count b * num_pages s / b.pool.num_pages))

  -- `-(-sliding_pages * num_pages // sliding.num_pages)`, rounded up
  unfoldable pub as_every_token_pages : KvArena K P → PageArena K P → ℕ → ℕ
  as_every_token_pages s b sliding_pages =
      (sliding_pages * num_pages s + b.pool.num_pages - 1) / b.pool.num_pages

  -- The row where the sliding pages of a key start once it is trimmed.
  unfoldable pub origin : KvArena K P → ℕ → ℕ
  origin s base_tokens =
      if (s.window == 0) || leb base_tokens s.window
      then 0
      else (base_tokens - s.window) / page_tokens s * page_tokens s

  abbrev first_row : KvArena K P → Option ℕ → ℕ
  first_row s none = 0
  first_row s (some base) = origin s base

  unfoldable pub page_cost : KvArena K P → ℕ → Option ℕ → ℕ
  unfolding pages_needed as_every_token_pages origin
  page_cost s tokens base_tokens =
      let pages = pages_needed s.accounting.pool tokens in
      let first = first_row s base_tokens in
      (given s.sliding pages
        λ b. max pages (as_every_token_pages s b (pages_needed b.pool (tokens - first))))

-- The row indices of pages, `page * page_tokens + offset`.
unfoldable pub offsets : ℕ → ℕ → List ℕ
offsets zero first = []
offsets (suc n) first = first ∷ offsets n (first + 1)

unfoldable pub rows_of_pages : ℕ → List ℕ → List ℕ
unfolding offsets
rows_of_pages size [] = []
rows_of_pages size (page ∷ pages) = offsets size (page * size) ++ rows_of_pages size pages

-- The cached rows stay while their number is right.
abbrev pub cached_or : ℕ → Option (List ℕ) → List ℕ → List ℕ
cached_or capacity none fresh = fresh
cached_or capacity (some rows) fresh = if length rows == capacity then rows else fresh

module _ {K : Type 0} ⦃e : Eq K⦄ where
  -- The pages that a table lacks for a capacity: `max(0, pages_needed(capacity) - len(table))`
  abbrev pub lacking : Pool K → K → ℕ → ℕ
  lacking pool key capacity = pages_needed pool capacity - length (table_pages pool key)

module _ {K P : Type 0} ⦃e : Eq K⦄ where
  abbrev pub start_of : KvArena K P → K → ℕ
  start_of s key = tokens_of (lookup key s.sliding_start)

  unfoldable pub held_cost : KvArena K P → K → ℕ
  unfolding as_every_token_pages
  held_cost s key =
      let pages = length (owned_by s.accounting.pool key) in
      (given s.sliding pages
        λ b. max pages (as_every_token_pages s b (length (owned_by b.pool key))))

  unfoldable pub growth_cost : KvArena K P → K → ℕ → ℕ
  unfolding pages_needed table_pages as_every_token_pages
  growth_cost s key capacity_tokens =
      let need = lacking s.accounting.pool key capacity_tokens in
      given s.sliding need λ b.
        max need (as_every_token_pages s b (lacking b.pool key (capacity_tokens - start_of s key)))

  unfoldable pub can_borrow : KvArena K P → K → ℕ → Bool
  unfolding origin
  can_borrow s parent shared =
      if is_resident s.accounting parent
        && leb shared (tokens_of (lookup parent s.accounting.pool.tokens))
      then (given s.sliding true λ b. leb (start_of s parent) (origin s shared))
      else false

  -- `self._sliding_rows` after a refresh.
  abbrev pub sliding_rows_after : KvArena K P → K → Option (PageArena K P) → Dict K (List ℕ)
  sliding_rows_after s key none = s.sliding_rows
  sliding_rows_after s key (some b) =
      put key (rows_of_pages (page_tokens s) (table_pages b.pool key)) s.sliding_rows

  -- Called for a key that is resident.
  unfoldable pub refresh_rows : K → Option ℕ → KvArena K P → KvArena K P
  unfolding rows_of_pages table_pages
  refresh_rows key logical_tokens s =
      let logical = or_default logical_tokens (tokens_of (lookup key s.accounting.pool.tokens)) in
      let table = table_pages s.accounting.pool key in
      let fresh =
        cached_or (length table * page_tokens s) (lookup key s.kept_rows)
          (rows_of_pages (page_tokens s) table) in
      record s {
        stale_rows = discard key s.stale_rows;
        kept_rows = put key fresh s.kept_rows;
        rows = put key (take logical fresh) s.rows;
        sliding_rows = sliding_rows_after s key s.sliding;
      }

  -- `capacity_rows`, which rebuilds the rows of a key that has grown since.
  unfoldable pub capacity_rows : K → KvArena K P → Option (List ℕ) × KvArena K P
  unfolding refresh_rows
  capacity_rows key s =
      let s' = if among key s.stale_rows then refresh_rows key none s else s in
      (lookup key s'.kept_rows, s')
