-- ===== src/Pages/Run.antt =====
-- quail/backends/quail/executor/pages.py: the invariant of the arena over sequences of calls.
use quail.Prelude.{ℕ, ◌<◌, refl, List, [], ◌∷◌, Eq, nat_eq, pair_eq}
use quail.Dict.{weigh, lookup}
use quail.Pages.Holding
use quail.Pages.Growth.{Resident, grow-IsValid, grow_pages-IsValid}
use quail.Pages.Release.{drop_leading-IsValid}
use quail.Pages.Resident.{grow_resident, drop_leading_resident, grow_pages_resident}
use quail.Pages.Slots
use quail.Pages.Slots.{Slots}
use quail.Pages.Heap.{Priorities}
use quail.Pages.Arena.{
  alloc, drop_leading, grow, grow_pages, alloc_slot, alloc_extension, drop_extension, alloc_share,
  frees, pins, retains, rewinds, configures, pops_victim, PageArena, Call, step, run, init,
}
use quail.Pages.Attached.{dropped-Attached, slot-Attached, extension-Attached, share-Attached}
use quail.Pages.Sound.{
  IsSound, pool-IsSound, slots-IsSound, alloc-IsSound, free_key-IsSound, pin-IsSound,
  victim-IsSound, retain-IsSound, rewind-IsSound,
}
use quail.Pages.Configure.{configure-IsSound}

module _ {K P : Type 0} ⦃e : Eq K⦄ where
  pub init-IsSound :
      (num_pages page_tokens num_slots : ℕ)
      → 0 < page_tokens
      → IsSound (init {K = K} {P = P} num_pages page_tokens num_slots)
  unfolding init Slots.init lookup weigh
  init-IsSound num_pages page_tokens num_slots h = record {
    pages = Holding.init-IsValid num_pages page_tokens h;
    slot_table = Slots.init-IsValid num_slots;
    tracked = record {
      uniq_sizes = tt;
      summed = refl;
      sized = λ k. refl;
      versioned = λ k. refl;
      queued = λ k n done absent. cc;
      issued = λ k n absent. cc;
      recent = λ k n later. refl;
      unpinned = λ k pinned. refl;
    };
    attached = record {
      slots = λ k absent. cc;
      extensions = λ k absent. cc;
      shares = λ k n absent. cc;
    };
    retained = λ k absent. cc;
  }

module _ {K P : Type 0} ⦃e : Eq K⦄ (o : Priorities P) where
  -- `grow_pages` is called for resident keys.
  abbrev pub IsAllowed : PageArena K P → Call K P → Type 0
  IsAllowed a (grow_pages keys) = Resident keys a.pool.owned
  IsAllowed a _ = Unit

  -- Every method keeps the invariant of the whole arena, also when it raises or finds no room, where
  -- `grow_pages` is asked for resident keys.
  pub step-IsSound :
      (a : PageArena K P) (c : Call K P) → IsSound a → IsAllowed a c → IsSound (step o a c)
  unfolding step
  step-IsSound a (alloc key tokens capacity_tokens borrow) v h =
      alloc-IsSound a key tokens capacity_tokens borrow _ refl v
  step-IsSound a (drop_leading key pages) v h =
      pool-IsSound a _ v (drop_leading-IsValid a.pool key pages v.pages)
        (λ k r. drop_leading_resident a.pool key k r pages)
  step-IsSound a (grow key capacity_tokens) v h =
      pool-IsSound a _ v (grow-IsValid a.pool key capacity_tokens v.pages)
        (λ k r. grow_resident a.pool key k r capacity_tokens)
  step-IsSound a (grow_pages keys) v h =
      pool-IsSound a _ v (grow_pages-IsValid a.pool keys v.pages h).0
        (λ k r. grow_pages_resident a.pool keys k r)
  step-IsSound a (alloc_slot key) v h = slots-IsSound a _ v (
    Slots.alloc_slot-IsValid _ key a.slot_table v.slot_table,
    slot-Attached a.pool a.slot_table key v.attached,
  )
  step-IsSound a (alloc_extension key) v h = slots-IsSound a _ v (
    Slots.alloc_extension-IsValid _ key a.slot_table v.slot_table,
    extension-Attached a.pool a.slot_table key v.attached,
  )
  step-IsSound a (drop_extension key) v h = slots-IsSound a _ v (
    Slots.drop_extension-IsValid key a.slot_table v.slot_table,
    dropped-Attached a.pool a.slot_table key v.attached,
  )
  step-IsSound a (alloc_share key tokens) v h = slots-IsSound a _ v (
    Slots.alloc_share-IsValid _ key tokens a.slot_table v.slot_table,
    share-Attached a.pool a.slot_table key tokens v.attached,
  )
  step-IsSound a (frees key) v h = free_key-IsSound a key v
  step-IsSound a (pins key) v h = pin-IsSound a key v
  step-IsSound a (retains key priority) v h = retain-IsSound o a key priority v
  step-IsSound a (rewinds key tokens) v h = rewind-IsSound o a key tokens v
  step-IsSound a (configures policy cap_pages) v h = configure-IsSound o a policy cap_pages v
  step-IsSound a (pops_victim keep) v h = victim-IsSound o a keep v

  abbrev pub AreAllowed : PageArena K P → List (Call K P) → Type 0
  AreAllowed a [] = Unit
  AreAllowed a (c ∷ cs) = IsAllowed a c × AreAllowed (step o a c) cs

  run-IsSound :
      (a : PageArena K P) (cs : List (Call K P))
      → IsSound a
      → AreAllowed a cs
      → IsSound (run o a cs)
  unfolding run
  run-IsSound a [] v h = v
  run-IsSound a (c ∷ cs) v h = run-IsSound (step o a c) cs (step-IsSound a c v h.0) h.1

  -- From a new arena with a positive page size, every sequence of calls in which `grow_pages` is asked
  -- for resident keys only keeps the invariant: every page is free or in as many tables as it has
  -- holders, every slot is free or held once, each retained key has one entry that counts in the
  -- heap, and only resident keys hold slots or are retained.
  pub run-init-IsSound :
      (num_pages page_tokens num_slots : ℕ) (cs : List (Call K P))
      → 0 < page_tokens
      → AreAllowed (init num_pages page_tokens num_slots) cs
      → IsSound (run o (init num_pages page_tokens num_slots) cs)
  run-init-IsSound num_pages page_tokens num_slots cs h allowed =
      run-IsSound _ cs (init-IsSound num_pages page_tokens num_slots h) allowed
