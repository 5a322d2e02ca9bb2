-- ===== src/KvArena/Activate.antt =====
-- quail/backends/quail/executor/arena.py: `activate`, `grow_pages` and `reserve`, which evict
-- retained prefixes where room is short.
use quail.Prelude.{
  given, ℕ, ◌+◌, ◌-◌, Bool, true, false, not, ◌&&◌, Option, none, some, List, [], ◌∷◌, leb,
  if◌then◌else◌, Eq, length, nat_eq, pair_eq,
}
use quail.Result.{ok}
use quail.Dict.{has}
use quail.Pages.Pool
use quail.Pages.Pool.{Pool, pages_needed, table_pages, owned_by, or_default, tokens_of}
use quail.Pages.Heap.{Priorities}
use quail.Pages.Retention.{add}
use quail.Pages.Arena
use quail.Pages.Arena.{PageArena, is_resident}
use quail.KvArena.State.{
  KvArena, M, ◌>>=◌, ◌>>◌, pure, raise, finally, on_full, on_sliding, on_pool, has_slots, start_of,
  lacking,
}
use quail.KvArena.Holds.{read_state, done_reading}
use quail.KvArena.Evict.{
  both_have, evict_until, evict_for_pages, ask_slot, ask_extension, ask_share,
}
use quail.KvArena.Admit.{borrow_plan, alloc, grow_both, lacking_sliding}

-- `(key,) if borrow is None else (key, borrow[0])`
abbrev pub protected_by : {K : Type 0} → K → Option (K × ℕ) → List K
protected_by key none = key ∷ []
protected_by key (some (parent, shared)) = key ∷ parent ∷ []

module _ {K : Type 0} ⦃e : Eq K⦄ where
  -- `self._stale_rows.update(keys)`
  abbrev pub add_all : List K → List K → List K
  add_all [] stale = stale
  add_all (key ∷ keys) stale = add_all keys (add key stale)

module _ {K P : Type 0} ⦃e : Eq K⦄ where
  abbrev pub wanted : KvArena K P → ℕ → List ℕ × List ℕ × ℕ → ℕ × ℕ
  wanted s capacity (borrowed, borrowed_s, start_s) =
      let need = pages_needed s.accounting.pool capacity - length borrowed in
      (
        need,
        (given s.sliding need λ b. pages_needed b.pool (capacity - start_s) - length borrowed_s),
      )

  abbrev pub new_points : KvArena K P → K → List ℕ → ℕ
  new_points s key [] = 0
  new_points s key (point ∷ points) =
      (if has (key, point) s.accounting.slot_table.share_slots then 0 else 1)
      + new_points s key points

  -- The slots that a reservation takes.
  unfoldable pub slots_wanted : KvArena K P → K → Bool → List ℕ → ℕ
  slots_wanted s key extension share_points =
      if has_slots s
      then (if has key s.accounting.slot_table.slots then 0 else 1)
        + (if extension && not (has key s.accounting.slot_table.ext_slots) then 1 else 0)
        + new_points s key share_points
      else 0

  abbrev pub share_each : K → List ℕ → M K P (Unit {0})
  share_each key [] = pure tt
  share_each key (point ∷ points) = ask_share key point >> share_each key points

  abbrev pub extend_if : Bool → K → M K P (Unit {0})
  extend_if false key = pure tt
  extend_if true key = ask_extension key >> pure tt

  abbrev pub take_slots : Bool → K → Bool → List ℕ → M K P (Unit {0})
  take_slots false key extension share_points = pure tt
  take_slots true key extension share_points =
      ask_slot key >> extend_if extension key >> share_each key share_points

  -- `available()`
  unfoldable pub has_room : ℕ → ℕ → ℕ → KvArena K P → Bool
  unfolding both_have
  has_room need need_s slots s =
      both_have need need_s s && leb slots (length s.accounting.slot_table.free_slots)

  -- The pages that a reservation takes from each pool.
  abbrev pub reserve_wants : KvArena K P → K → ℕ → List ℕ × List ℕ × ℕ → ℕ × ℕ
  reserve_wants s key capacity (borrowed, borrowed_s, start_s) =
      if is_resident s.accounting key
      then (
        lacking s.accounting.pool key capacity,
        lacking_sliding s key (capacity - start_of s key),
      )
      else (
        pages_needed s.accounting.pool capacity - length borrowed,
        (given s.sliding 0 λ b. pages_needed b.pool (capacity - start_s) - length borrowed_s),
      )

module _ {K P : Type 0} ⦃e : Eq K⦄ (o : Priorities P) where
  -- `activate` for a key that is resident, and for one that is fresh.
  unfoldable pub activate_resident : K → ℕ → ℕ → M K P (Option (List ℕ))
  unfolding grow_both evict_for_pages both_have
  activate_resident key tokens capacity = on_full (λ a. Arena.pin a key) >> λ s.
      let need = lacking s.accounting.pool key capacity in
      let need_s = lacking_sliding s key (capacity - start_of s key) in
      (evict_for_pages o need need_s >> λ s1.
      let grown = grow_both key tokens capacity s1 in
      if both_have need need_s s1 then grown else (ok none, s1))
        s

  unfoldable pub activate_fresh : K → ℕ → ℕ → Option ℕ → Option (K × ℕ) → M K P (Option (List ℕ))
  unfolding borrow_plan evict_for_pages alloc
  activate_fresh key tokens capacity base_tokens borrow s =
      (raise (borrow_plan s borrow) >>= λ plan.
      let (need, need_s) = wanted s capacity plan in
      evict_for_pages o need need_s
      >> alloc key tokens (some capacity) base_tokens none borrow
      >>= λ pages.
          (given pages (pure none) λ taken. on_full (λ a. Arena.pin a key) >> pure (some taken)))
        s

  unfoldable pub activate : K → ℕ → Option ℕ → Option ℕ → Option (K × ℕ) → M K P (Option (List ℕ))
  unfolding activate_resident activate_fresh
  activate key tokens capacity_tokens base_tokens borrow s =
      if is_resident s.accounting key
      then activate_resident key tokens (or_default capacity_tokens tokens) s
      else activate_fresh key tokens (or_default capacity_tokens tokens) base_tokens borrow s

  -- Both pools give a page to each key; the rows of the keys are rebuilt when they are read.
  unfoldable pub give_pages : List K → M K P (Option (List ℕ))
  give_pages keys = on_full (on_pool λ pool. Pool.grow_pages pool keys) >>= λ added.
      (on_sliding none (on_pool λ pool. Pool.grow_pages pool keys) >> λ s.
      (ok added, record s { stale_rows = add_all keys s.stale_rows }))

  unfoldable pub grow_pages : List K → M K P (Option (List ℕ))
  unfolding evict_for_pages both_have give_pages
  grow_pages keys = evict_for_pages o (length keys) (length keys) >> λ s.
      let given_pages = give_pages keys s in
      if both_have (length keys) (length keys) s then given_pages else (ok none, s)

  -- The body of `try`.
  unfoldable pub reserve_body : K → ℕ → ℕ → Option (K × ℕ) → Bool → List ℕ → ℕ × ℕ → ℕ → M K P Bool
  unfolding activate evict_until has_room
  reserve_body key tokens capacity borrow extension share_points (need, need_s) slots =
      evict_until o (has_room need need_s slots) >> λ s.
      let taken =
        (activate key tokens (some capacity) none borrow
            >> take_slots (has_slots s) key extension share_points
            >> pure true)
          s in
      if has_room need need_s slots s then taken else (ok false, s)

  unfoldable pub reserve : K → ℕ → ℕ → Option (K × ℕ) → Bool → List ℕ → M K P Bool
  unfolding borrow_plan reserve_body slots_wanted
  reserve key tokens capacity_tokens borrow extension share_points s =
      (raise (borrow_plan s borrow) >>= λ plan s0.
      finally
        (reserve_body key tokens capacity_tokens borrow extension share_points
          (reserve_wants s key capacity_tokens plan) (slots_wanted s key extension share_points))
        (done_reading (protected_by key borrow)) (read_state (protected_by key borrow) s0))
        s
