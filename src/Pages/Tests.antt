-- ===== src/Pages/Tests.antt =====
-- quail/backends/quail/executor/pages.py: runs of the arena on small inputs, with numbers as keys
-- and as priorities.
use quail.Prelude.{
  ℕ, ◌+◌, ◌*◌, ◌/◌, ◌%◌, ◌≤◌, ◌<◌, ◌≡◌, refl, true, false, none, some, List, [], ◌∷◌, ◌==◌,
  if◌then◌else◌, nat_eq, pair_eq, arith, ltb, length, count,
}
use quail.Result.{ok}
use quail.Dict.{lookup, has, put, pop}
use quail.Pages.Pool
use quail.Pages.Pool.{
  Pool, pages_needed, table_pages, owned_by, borrowed_by, release_pages, free_pages_of,
}
use quail.Pages.Holding
use quail.Pages.Borrow.{get_elem?, shared_pages_lent}
use quail.Pages.Growth.{grow_pages-IsValid}
use quail.Pages.RoundTrip.{pages_needed_least, free-alloc, alloc_covers}
use quail.Pages.Slots
use quail.Pages.Heap.{heappop, Priorities, IsOrdered, Entry, entry_lt, All}
use quail.Pages.Retention.{retain_key, Retention, among, pop_retained_victim}
use quail.Pages.Eviction.{is_candidate}
use quail.Pages.Victim.{pop_retained_victim-none, pop_retained_victim-some}
use quail.Pages.Arena.{
  retain, alloc, alloc_slot, frees, retains, rewinds, PageArena, Call, init, step, run,
}
use quail.Pages.Sound.{IsSound}
use quail.Pages.Run.{step-IsSound, run-init-IsSound}

abbrev order : Priorities ℕ
order = record { before = ltb; ratio = λ tokens pages. tokens / pages }

order-IsOrdered : IsOrdered order
order-IsOrdered = record { asym = λ a b h. ground arith; cotrans = λ a b c h k. ground arith }

abbrev small : PageArena ℕ ℕ
small = init 8 16 3

-- Key 1 takes two pages; key 2 borrows the first of them and takes one more; both are retained.
abbrev calls : List (Call ℕ ℕ)
calls =
    alloc 1 32 none none
    ∷ alloc_slot 1
    ∷ alloc 2 32 none (some (1, 16, 0))
    ∷ retains 1 none
    ∷ retains 2 (some 1)
    ∷ []

abbrev shared : PageArena ℕ ℕ
shared = run order small calls

shared_tables :
    (table_pages shared.pool 1 ≡ 0 ∷ 1 ∷ [])
    × (table_pages shared.pool 2 ≡ 0 ∷ 2 ∷ [])
    × (shared.pool.holds 0 ≡ 2)
    × (shared.retention.total ≡ 2)
unfolding run step init Pool.init Slots.init Pool.alloc Pool.allocated Pool.shared_pages
    Pool.pages_needed lookup put pop retain retain_key
shared_tables = (refl, refl, refl, refl)

shared-IsSound : IsSound shared
shared-IsSound = run-init-IsSound order 8 16 3 calls (omega arith) (tt, (tt, (tt, (tt, (tt, tt)))))

abbrev more_calls : List (Call ℕ ℕ)
more_calls = alloc 1 32 none none ∷ retains 1 none ∷ frees 1 ∷ frees 1 ∷ []

run-init-IsSound_example : IsSound (run order small more_calls)
run-init-IsSound_example =
    run-init-IsSound order 8 16 3 more_calls (omega arith) (tt, (tt, (tt, (tt, tt))))

step-IsSound_example : IsSound (step order shared (rewinds 2 16))
step-IsSound_example = step-IsSound order shared (rewinds 2 16) shared-IsSound tt

grow_pages-IsValid_example :
    Holding.IsValid (Pool.grow_pages shared.pool (1 ∷ 2 ∷ [])).1
    × ((Pool.grow_pages shared.pool (1 ∷ 2 ∷ [])).0 ≡ ok (some (3 ∷ 4 ∷ [])))
unfolding run step init Pool.init Slots.init Pool.alloc Pool.allocated Pool.shared_pages lookup put
    pop retain retain_key
grow_pages-IsValid_example =
    grow_pages-IsValid shared.pool (1 ∷ 2 ∷ []) shared-IsSound.pages (refl, (refl, tt))

shared_pages_lent_example :
    (16 % 16 ≡ 0)
    × (32 ≤ 32)
    × (1 * 16 ≡ 16)
    × ((i : ℕ)
        → i < 16
        → get_elem? (1 ∷ []) (i / 16) ≡ get_elem? (Pool.table_pages shared.pool 1) ((16 + i) / 16))
unfolding run step init Pool.init Slots.init Pool.alloc Pool.allocated Pool.shared_pages
    Pool.pages_needed Pool.table_pages lookup put pop retain retain_key
shared_pages_lent_example =
    shared_pages_lent shared.pool 1 32 16 (1 ∷ []) (omega arith) (omega arith) (omega arith) refl

pop_retained_victim-none_example : among {K = ℕ} 1 (2 ∷ 1 ∷ []) ≡ true
unfolding run step init Pool.init Slots.init Pool.alloc Pool.allocated Pool.shared_pages
    Pool.pages_needed lookup put pop retain retain_key pop_retained_victim heappop
pop_retained_victim-none_example =
    pop_retained_victim-none order-IsOrdered (2 ∷ 1 ∷ []) shared.retention shared-IsSound.tracked
      refl 1 refl

abbrev cheapest : Entry ℕ ℕ
cheapest = record { priority = 1; version = 2; key = 2; pages = 1; prefix_tokens = 32 }

abbrev Evicts : List ℕ → Retention ℕ ℕ → Entry ℕ ℕ → Type 0
Evicts keep r x =
    (has x.key r.retained ≡ true)
    × (among x.key keep ≡ false)
    × All (λ y. is_candidate keep r.versions y ≡ true → entry_lt order y x ≡ false) r.heap
    × ((k : ℕ)
        → lookup k (pop_retained_victim order keep r).1.retained
          ≡ (if x.key == k then none else lookup k r.retained))

pop_retained_victim-some_example : Evicts [] shared.retention cheapest
unfolding run step init Pool.init Slots.init Pool.alloc Pool.allocated Pool.shared_pages
    Pool.pages_needed lookup put pop retain retain_key pop_retained_victim heappop
pop_retained_victim-some_example =
    pop_retained_victim-some order-IsOrdered [] shared.retention cheapest shared-IsSound.tracked
      refl

abbrev pool : Pool ℕ
pool = Pool.init 8 16

pool-IsValid : Holding.IsValid pool
pool-IsValid = Holding.init-IsValid 8 16 (omega arith)

pages_needed_least_example :
    (20 ≤ pages_needed pool 20 * 16) × (20 ≤ 3 * 16 → pages_needed pool 20 ≤ 3)
unfolding Pool.init
pages_needed_least_example = pages_needed_least pool 20 3 (omega arith)

abbrev taken_pool : Pool ℕ
taken_pool = (Pool.alloc pool 5 20 (some 40) []).1

alloc_covers_example :
    (table_pages taken_pool 5 ≡ 0 ∷ 1 ∷ 2 ∷ []) × (40 ≤ length (table_pages taken_pool 5) * 16)
unfolding Pool.init Pool.alloc lookup
alloc_covers_example =
    alloc_covers pool taken_pool 5 20 (some 40) [] (0 ∷ 1 ∷ 2 ∷ []) pool-IsValid refl

free-alloc_example :
    (count 1 (free_pages_of taken_pool 5).1.free ≡ 1) × ((free_pages_of taken_pool 5).1.holds 1 ≡ 0)
unfolding Pool.init Pool.alloc lookup
free-alloc_example =
    free-alloc pool taken_pool 5 20 (some 40) [] (0 ∷ 1 ∷ 2 ∷ []) pool-IsValid (λ p. ground arith)
      refl 1
