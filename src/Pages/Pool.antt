-- ===== src/Pages/Pool.antt =====
-- quail/backends/quail/executor/pages.py: the free list, the page lists of each key and the holds
-- of each page, with the methods of `PageArena` that touch nothing else. The free list is a stack
-- whose head is the end of Python's list.
use quail.Prelude.{
  ℕ, zero, suc, ◌+◌, ◌-◌, ◌*◌, ◌/◌, ◌%◌, Bool, true, false, ◌||◌, Option, none, some, List, [], ◌∷◌,
  ◌++◌, reverse, min, ltb, ◌==◌, if◌then◌else◌, Eq, length, take, drop, keep_if, member,
}
use quail.Result.{Result, ok, err, key_error, value_error}
use quail.Dict.{Dict, lookup, has, put, pop}

pub record Pool {ℓ} (K : Type ℓ) : Type ℓ where
  pub num_pages : ℕ
  pub page_tokens : ℕ
  pub free : List ℕ
  pub owned : Dict K (List ℕ)
  pub borrowed : Dict K (List ℕ)
  -- page id → its holders
  pub holds : ℕ → ℕ
  pub tokens : Dict K ℕ

-- `list(range(n - 1, -1, -1))` as a stack: page 0 is on top.
unfoldable pub count_up : ℕ → ℕ → List ℕ
count_up zero first = []
count_up (suc n) first = first ∷ count_up n (first + 1)

unfoldable pub init {ℓ} : {K : Type ℓ} → ℕ → ℕ → Pool K
unfolding count_up
init num_pages page_tokens = record {
  num_pages = num_pages;
  page_tokens = page_tokens;
  free = count_up num_pages 0;
  owned = [];
  borrowed = [];
  holds = λ p. 0;
  tokens = [];
}

-- `self.holds[pages] += 1`: numpy raises each page that the index names, once.
unfoldable pub add_hold : List ℕ → (ℕ → ℕ) → ℕ → ℕ
add_hold pages holds p = if member p pages then holds p + 1 else holds p

-- `self.holds[pages] -= 1`
unfoldable pub drop_hold : List ℕ → (ℕ → ℕ) → ℕ → ℕ
drop_hold pages holds p = if member p pages then holds p - 1 else holds p

abbrev pub pages_of : Option (List ℕ) → List ℕ
pages_of none = []
pages_of (some pages) = pages

abbrev pub tokens_of : Option ℕ → ℕ
tokens_of none = 0
tokens_of (some tokens) = tokens

abbrev pub or_default : Option ℕ → ℕ → ℕ
or_default none d = d
or_default (some t) d = t

module _ {ℓ} {K : Type ℓ} where
  -- `-(-tokens // self.page_tokens)`, the quotient rounded up.
  unfoldable pub pages_needed : Pool K → ℕ → ℕ
  pages_needed a tokens = (tokens + a.page_tokens - 1) / a.page_tokens

  unfoldable pub release_pages : Pool K → List ℕ → ℕ × Pool K
  unfolding drop_hold
  release_pages a pages =
      let holds' = drop_hold pages a.holds in
      let freed = keep_if (λ p. holds' p == 0) pages in
      (length freed, record a { holds = holds'; free = reverse freed ++ a.free })

module _ {ℓ} {K : Type ℓ} ⦃e : Eq K⦄ where
  -- A key that is not resident has no page table; the callers below test for it.
  abbrev pub owned_by : Pool K → K → List ℕ
  owned_by a key = pages_of (lookup key a.owned)

  abbrev pub borrowed_by : Pool K → K → List ℕ
  borrowed_by a key = pages_of (lookup key a.borrowed)

  unfoldable pub table_pages : Pool K → K → List ℕ
  table_pages a key = borrowed_by a key ++ owned_by a key

  unfoldable pub borrowed_tokens : Pool K → K → ℕ
  borrowed_tokens a key = length (borrowed_by a key) * a.page_tokens

  -- The state after a successful `alloc` that takes `need` pages.
  unfoldable pub allocated : Pool K → K → ℕ → ℕ → List ℕ → Pool K
  unfolding add_hold
  allocated a key tokens need borrowed = record a {
    free = drop need a.free;
    owned = put key (take need a.free) a.owned;
    borrowed = put key borrowed a.borrowed;
    tokens = put key tokens a.tokens;
    holds = add_hold (borrowed ++ take need a.free) a.holds;
  }

  -- `ok none` is the source's `None`: the free list is short.
  unfoldable pub alloc : Pool K → K → ℕ → Option ℕ → List ℕ → Result (Option (List ℕ)) × Pool K
  unfolding pages_needed
  alloc a key tokens capacity_tokens borrowed =
      let capacity = or_default capacity_tokens tokens in
      let need = pages_needed a capacity - length borrowed in
      if has key a.owned
      then (err key_error, a)
      else if ltb capacity tokens
      then (err value_error, a)
      else if ltb tokens (length borrowed * a.page_tokens)
      then (err value_error, a)
      else if ltb (length a.free) need
      then (ok none, a)
      else (ok (some (take need a.free)), allocated a key tokens need borrowed)

  -- The parent's pages for its tokens `[start, shared)`. `shared - start` may be negative in the
  -- source: a page size divides it exactly when it divides the distance.
  unfoldable pub shared_pages : Pool K → K → ℕ → ℕ → Result (List ℕ)
  unfolding table_pages
  shared_pages a parent shared start =
      let distance = (shared - start) + (start - shared) in
      let first = start / a.page_tokens in
      if ltb 0 (distance % a.page_tokens) || ltb 0 (start % a.page_tokens)
      then err value_error
      else if has parent a.owned
      then if ltb (tokens_of (lookup parent a.tokens)) shared
        then err value_error
        else ok (drop first (take (shared / a.page_tokens) (table_pages a parent)))
      else err key_error

  unfoldable pub drop_leading : Pool K → K → ℕ → Result ℕ × Pool K
  unfolding release_pages
  drop_leading a key pages =
      let borrowed = borrowed_by a key in
      let from_borrowed = min pages (length borrowed) in
      let own = owned_by a key in
      let dropped = take from_borrowed borrowed ++ take (pages - from_borrowed) own in
      let a' = record a {
        borrowed = put key (drop from_borrowed borrowed) a.borrowed;
        owned = put key (drop (pages - from_borrowed) own) a.owned;
      } in
      let (freed, a'') = release_pages a' dropped in
      if has key a.owned then (ok freed, a'') else (err key_error, a)

  -- The page part of `rewind`; `Pages.Arena` renews the retention of the key.
  unfoldable pub rewind_pages : Pool K → K → ℕ → Result ℕ × Pool K
  unfolding pages_needed release_pages borrowed_tokens
  rewind_pages a key tokens =
      let borrowed = borrowed_tokens a key in
      let own = owned_by a key in
      let capacity = borrowed + length own * a.page_tokens in
      let kept = pages_needed a tokens - length (borrowed_by a key) in
      let a' = record a {
        owned = put key (take kept own) a.owned;
        tokens = put key tokens a.tokens;
      } in
      let (freed, a'') = release_pages a' (drop kept own) in
      if has key a.owned
      then if ltb tokens borrowed || ltb capacity tokens
        then (err value_error, a)
        else (ok freed, a'')
      else (err key_error, a)

  -- The state after `need` pages of the free list are appended to the key's own.
  unfoldable pub grown : Pool K → K → ℕ → Pool K
  unfolding add_hold
  grown a key need = record a {
    free = drop need a.free;
    owned = put key (owned_by a key ++ take need a.free) a.owned;
    holds = add_hold (take need a.free) a.holds;
  }

  unfoldable pub grow : Pool K → K → ℕ → Result (Option ℕ) × Pool K
  unfolding pages_needed
  grow a key capacity_tokens =
      let need =
        pages_needed a capacity_tokens - length (borrowed_by a key) - length (owned_by a key) in
      if has key a.owned
      then if need == 0
        then (ok (some 0), a)
        else if ltb (length a.free) need
        then (ok none, a)
        else (ok (some need), grown a key need)
      else (err key_error, a)

  -- `for key, page in zip(keys, added): self.owned[key].append(page)`, up to the first key that is
  -- not resident.
  unfoldable pub append_each : List K → List ℕ → Dict K (List ℕ) → Bool × Dict K (List ℕ)
  append_each [] pages owned = (true, owned)
  append_each (key ∷ keys) [] owned = (true, owned)
  append_each (key ∷ keys) (page ∷ pages) owned = elim (lookup key owned) [
    | none ↦ (false, owned)
    | some own ↦ append_each keys pages (put key (own ++ page ∷ []) owned)
  ]

  unfoldable pub grow_pages : Pool K → List K → Result (Option (List ℕ)) × Pool K
  unfolding append_each add_hold
  grow_pages a keys =
      let n = length keys in
      let added = take n a.free in
      let (done, owned') = append_each keys added a.owned in
      let a' = record a { free = drop n a.free; owned = owned' } in
      if ltb (length a.free) n
      then (ok none, a)
      else if done
      then (ok (some added), record a' { holds = add_hold added a.holds })
      else (err key_error, a')

  -- The page part of `free_key`.
  unfoldable pub free_pages_of : Pool K → K → Result ℕ × Pool K
  unfolding release_pages
  free_pages_of a key =
      let pages = owned_by a key in
      let borrowed = borrowed_by a key in
      let a' = record a {
        owned = pop key a.owned;
        borrowed = pop key a.borrowed;
        tokens = pop key a.tokens;
      } in
      let (freed, a'') = release_pages a' (borrowed ++ pages) in
      if has key a.owned then (ok freed, a'') else (err key_error, a)
