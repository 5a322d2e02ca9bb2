-- ===== src/KvArena/Policy.antt =====
-- quail/backends/quail/executor/arena.py: the retention policy, the cap on retained pages, and the
-- counters of evictions.
use quail.Prelude.{ℕ, Option, Eq}
use quail.Pages.Heap.{Priorities}
use quail.Pages.Arena
use quail.KvArena.State.{KvArena, M, on_full}

module _ {K P : Type 0} where
  -- `retention_cap_pages`, as it is set.
  abbrev pub set_retention_cap : Option ℕ → KvArena K P → KvArena K P
  set_retention_cap pages s = record s {
    accounting = record s.accounting {
      retention = record s.accounting.retention { cap_pages = pages };
    };
  }

  abbrev pub reset_stats : KvArena K P → KvArena K P
  reset_stats s = record s { evicted_keys = 0; evicted_pages = 0; evicted_prefix_tokens = 0 }

module _ {K P : Type 0} ⦃e : Eq K⦄ (o : Priorities P) where
  abbrev pub configure_retention : Option (K → ℕ → ℕ → P) → ℕ → M K P (Unit {0})
  configure_retention policy cap_pages =
      on_full (λ a. Arena.configure_retention o a policy cap_pages)
