-- ===== src/KvArena/Tests.antt =====
-- quail/backends/quail/executor/arena.py: runs of the arena on small inputs, with numbers as keys
-- and as priorities.
use quail.Prelude.{
  ℕ, ◌/◌, ◌≡◌, refl, true, false, none, some, List, [], ◌∷◌, ltb, nat_eq, pair_eq, arith, inl, leb,
  map, sym, ◌∙◌, take,
}
use quail.Result.{ok}
use quail.Dict.{Dict, lookup, put, pop, has}
use quail.Pages.Pool
use quail.Pages.Slots
use quail.Pages.Heap.{Priorities, IsOrdered, heappop}
use quail.Pages.Retention.{retain_key, pop_retained_victim, pin_key, among}
use quail.Pages.Arena
use quail.KvArena.State.{KvArena, can_borrow, free_pages}
use quail.KvArena.Holds
use quail.KvArena.Evict
use quail.KvArena.Evict.{evict_until}
use quail.KvArena.Admit
use quail.KvArena.Activate
use quail.KvArena.Resize
use quail.KvArena.Sound.{IsSound}
use quail.KvArena.Frame.{evict_until-Stays}
use quail.KvArena.Stays.{Stays}
use quail.KvArena.Ends.{Aligned, Ended, evict_until_ends}
use quail.KvArena.Borrowing.{release-free_key, trim_window-can_borrow}
use quail.KvArena.Run
use quail.KvArena.Run.{
  Call, alloc, reserve, hold, retain, configure_retention, set_retention_cap, step, run,
  started_run-IsSound,
}

abbrev order : Priorities ℕ
order = record { before = ltb; ratio = λ tokens pages. tokens / pages }

order-IsOrdered : IsOrdered order
order-IsOrdered = record { asym = λ a b h. ground arith; cotrans = λ a b c h k. ground arith }

-- One page of two tokens, and no checkpoint slots.
abbrev small : KvArena ℕ ℕ
small = Resize.build 1 2 0 0 (Resize.blank none 0)

-- Key 1 takes the page and is retained.
abbrev retained : KvArena ℕ ℕ
retained = run order small (alloc 1 2 none none none none ∷ retain 1 2 none ∷ [])

-- It is held for a borrower.
abbrev calls : List (Call ℕ ℕ)
calls = alloc 1 2 none none none none ∷ retain 1 2 none ∷ hold 1 1 ∷ []

abbrev full : KvArena ℕ ℕ
full = run order small calls

-- A reservation evicts key 1, and none where the key is held.
reserve_evicts :
    ((Activate.reserve order 3 2 2 none false [] retained).0 ≡ ok true)
    × (has 1 (step order retained (reserve 3 2 2 none false [])).accounting.pool.owned ≡ false)
    × ((Activate.reserve order 3 2 2 none false [] full).0 ≡ ok false)
unfolding run step Resize.build Activate.reserve Holds.done_reading lookup Holds.hold Evict.retain
    Admit.alloc Pool.alloc Arena.init Pool.init Slots.init Arena.rewind Pool.rewind_pages
    Pool.allocated put retain_key pop Holds.read_state heappop Arena.free_key Arena.pin Arena.retain
    pop_retained_victim Pool.free_pages_of Slots.free_slots_of Slots.drop_extension Slots.alloc_slot
    Pool.pages_needed Pool.table_pages Slots.share_of Slots.share_except Holds.free_key pin_key
reserve_evicts = (refl, refl, refl)

full-IsSound : IsSound full
unfolding Resize.init
full-IsSound =
    started_run-IsSound order-IsOrdered 1 2 none 0 small calls (omega arith) refl
      (tt, (tt, (tt, tt)))

-- With a cap of no pages, a key that is retained is evicted at once.
abbrev capped_calls : List (Call ℕ ℕ)
capped_calls =
    configure_retention none 4
    ∷ alloc 1 2 none none none none
    ∷ set_retention_cap (some 0)
    ∷ retain 1 2 none
    ∷ alloc 2 2 none none none none
    ∷ Run.evict_key 2
    ∷ Run.reset_stats
    ∷ []

capped_evicts : (has 1 (run order small (take 4 capped_calls)).accounting.pool.owned ≡ false)
unfolding run step Resize.build lookup Evict.retain Admit.alloc Pool.alloc Arena.init Pool.init
    Slots.init Arena.rewind Pool.rewind_pages Pool.allocated put retain_key pop heappop
    Arena.free_key Arena.retain pop_retained_victim Pool.free_pages_of Slots.free_slots_of
    Slots.drop_extension Pool.pages_needed Pool.table_pages Slots.share_of Slots.share_except
    Holds.free_key Arena.configure_retention
capped_evicts = refl

started_run-IsSound_example : IsSound (run order small capped_calls)
unfolding Resize.init
started_run-IsSound_example =
    started_run-IsSound order-IsOrdered 1 2 none 0 small capped_calls (omega arith) refl
      (tt, (tt, (tt, (tt, (tt, (tt, (tt, tt)))))))

-- Key 1 is held, and the loop that frees all pages it can leaves it.
evict_until-Stays_example : Stays 1 full (evict_until order (λ s. leb 1 (free_pages s)) full).1
unfolding run step lookup Holds.hold Evict.retain Resize.build Admit.alloc Pool.alloc Arena.init
    Pool.init Slots.init put Arena.rewind Pool.rewind_pages Pool.allocated retain_key pop
evict_until-Stays_example =
    evict_until-Stays order-IsOrdered (λ s. leb 1 (free_pages s)) full 1 full-IsSound (inl refl)

has-among :
    {A : Type 0} (k : ℕ) (entries : Dict ℕ A)
    → has k entries ≡ among k (map (λ entry. entry.0) entries)
unfolding lookup
has-among k [] = refl
has-among k ((key, x) ∷ entries) = ground (arith, has-among k entries)

full-Aligned : Aligned full
unfolding run step lookup Holds.hold Evict.retain Resize.build Admit.alloc Pool.alloc Arena.init
    Pool.init Slots.init put Arena.rewind Pool.rewind_pages Pool.allocated retain_key pop
full-Aligned k h = (has-among k full.rows ∙ sym (has-among k full.accounting.pool.owned) ∙ h, tt)

evict_until_ends_example :
    Ended order-IsOrdered
      (λ s. leb 1 (free_pages s))
      (evict_until order (λ s. leb 1 (free_pages s)) full)
evict_until_ends_example =
    evict_until_ends order-IsOrdered (λ s. leb 1 (free_pages s)) full full-IsSound full-Aligned

release-free_key_example :
    (Holds.release 1 (Holds.free_key 1 full).1).1 ≡ (Holds.free_key 1 (Holds.release 1 full).1).1
unfolding run step lookup Holds.hold Evict.retain Resize.build Admit.alloc Pool.alloc Arena.init
    Pool.init Slots.init put Arena.rewind Pool.rewind_pages Pool.allocated retain_key pop
release-free_key_example = release-free_key 1 full refl refl refl

-- An arena with four pages of each kind and a window of two tokens, with one key of eight tokens.
abbrev windowed : KvArena ℕ ℕ
windowed =
    step order (Resize.build 4 2 4 0 (Resize.blank (some (Arena.init 0 0 0)) 2))
      (alloc 1 8 none none none none)

trim_window-can_borrow_example :
    can_borrow (Holds.trim_window 1 (Holds.keep_window 1 6 windowed)).1 1 6 ≡ true
unfolding can_borrow step lookup Resize.build Admit.alloc Pool.alloc Arena.init Pool.init Slots.init
    put Pool.allocated
trim_window-can_borrow_example = trim_window-can_borrow 1 6 windowed refl
