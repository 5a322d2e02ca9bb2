-- ===== src/KvArena/Run.antt =====
-- quail/backends/quail/executor/arena.py: the invariant of the KV arena over sequences of calls.
use quail.Prelude.{
  ℕ, zero, suc, subst, ◌==◌, Bool-cases, inl, inr, ◌<◌, ◌≡◌, Bool, true, false, if◌then◌else◌,
  Option, none, some, List, [], ◌∷◌, Eq,
}
use quail.Result.{ok}
use quail.Dict.{Dict}
use quail.Pages.Heap.{Priorities, IsOrdered}
use quail.Pages.Arena
use quail.Pages.Arena.{PageArena}
use quail.Pages.Sound
use quail.Pages.Sound.{slots-IsSound}
use quail.KvArena.State.{KvArena, on_full}
use quail.KvArena.Holds
use quail.KvArena.Evict
use quail.KvArena.Admit
use quail.KvArena.Activate
use quail.KvArena.Checkpoints
use quail.KvArena.Resize
use quail.KvArena.Policy
use quail.KvArena.State
use quail.KvArena.Resize.{blank}
use quail.KvArena.Sound.{IsSound, on_full-Keeps, refresh_rows-IsSound}
use quail.Pages.Configure.{configure-IsSound}
use quail.Pages.Retention.{among}
use quail.KvArena.Waiting.{
  release-Keeps, hold-IsSound, read_state-IsSound, done_reading-Keeps, drop_holds-Keeps,
}
use quail.KvArena.Freeing.{trim_window-Keeps, free_key-Keeps}
use quail.KvArena.Evicting.{
  evict_key-Keeps, evict_retained-Keeps, retain-Keeps, checkpoint_slot-Keeps, extension_slot-Keeps,
  share_slot-Keeps,
}
use quail.KvArena.Allocating.{alloc-Keeps}
use quail.KvArena.Admitting.{
  pin-Keeps, activate-Keeps, reserve-Keeps, resize-Keeps, grow_pages-IsSound, build-IsSound,
}
use quail.KvArena.Active.{Active, with_room-Resident}

-- A call of one of the arena's methods that change its state.
pub data Call (K P : Type 0) : Type 0 where
  alloc : K → ℕ → Option ℕ → Option ℕ → Option ℕ → Option (K × ℕ) → Call K P
  activate : K → ℕ → Option ℕ → Option ℕ → Option (K × ℕ) → Call K P
  reserve : K → ℕ → ℕ → Option (K × ℕ) → Bool → List ℕ → Call K P
  grow_pages : List K → Call K P
  pin free_key release trim_window checkpoint_slot extension_slot : K → Call K P
  share_slot keep_window hold record_checkpoint record_extension : K → ℕ → Call K P
  retain : K → ℕ → Option P → Call K P
  evict_key capacity_rows : K → Call K P
  configure_retention : Option (K → ℕ → ℕ → P) → ℕ → Call K P
  set_retention_cap : Option ℕ → Call K P
  reset_stats : Call K P
  evict_retained : ℕ → Call K P
  read_state done_reading : List K → Call K P
  drop_holds : Option (List K) → Call K P
  resize : ℕ → ℕ → Bool → ℕ → Call K P

module _ {K P : Type 0} ⦃e : Eq K⦄ (o : Priorities P) where
  -- The arena after a call, whether it returns or raises.
  unfoldable pub step : KvArena K P → Call K P → KvArena K P
  step s (alloc key tokens capacity base sliding borrow) =
      (Admit.alloc key tokens capacity base sliding borrow s).1
  step s (activate key tokens capacity base borrow) =
      (Activate.activate o key tokens capacity base borrow s).1
  step s (reserve key tokens capacity borrow extension share_points) =
      (Activate.reserve o key tokens capacity borrow extension share_points s).1
  step s (grow_pages keys) = (Activate.grow_pages o keys s).1
  step s (pin key) = (on_full {K = K} {P = P} (λ a. Arena.pin a key) s).1
  step s (free_key key) = (Holds.free_key key s).1
  step s (release key) = (Holds.release key s).1
  step s (trim_window key) = (Holds.trim_window key s).1
  step s (checkpoint_slot key) = (Evict.checkpoint_slot o key s).1
  step s (extension_slot key) = (Evict.extension_slot o key s).1
  step s (share_slot key tokens) = (Evict.share_slot o key tokens s).1
  step s (keep_window key shared) = Holds.keep_window key shared s
  step s (hold key borrowers) = Holds.hold key borrowers s
  step s (record_checkpoint key tokens) = Checkpoints.record_checkpoint key tokens s
  step s (record_extension key tokens) = Checkpoints.record_extension key tokens s
  step s (retain key tokens priority) = (Evict.retain o key tokens priority s).1
  step s (evict_key key) = (Evict.evict_key key s).1
  step s (capacity_rows key) = (State.capacity_rows key s).1
  step s (configure_retention policy cap_pages) =
      (Policy.configure_retention o policy cap_pages s).1
  step s (set_retention_cap pages) = Policy.set_retention_cap pages s
  step s reset_stats = Policy.reset_stats s
  step s (evict_retained pages_needed) = (Evict.evict_retained o pages_needed s).1
  step s (read_state keys) = Holds.read_state keys s
  step s (done_reading keys) = (Holds.done_reading keys s).1
  step s (drop_holds keys) = (Holds.drop_holds keys s).1
  step s (resize num_pages num_sliding_pages free_resident num_state_slots) =
      (Resize.resize num_pages num_sliding_pages free_resident num_state_slots s).1

  unfoldable pub run : KvArena K P → List (Call K P) → KvArena K P
  run s [] = s
  run s (c ∷ cs) = run (step s c) cs

module _ {K P : Type 0} ⦃e : Eq K⦄ where
  -- `grow_pages` is called for keys that are resident in both pools and not retained.
  abbrev pub IsAllowed : KvArena K P → Call K P → Type 0
  IsAllowed s (grow_pages keys) = Active keys s
  IsAllowed s _ = Unit

  slots_kept :
      (s : KvArena K P) (a : PageArena K P)
      → IsSound s
      → Sound.IsSound a
      → IsSound (record s { accounting = a })
  slots_kept s a v w = record {
    parts = record {
      full_pool = w;
      sliding_pool = v.parts.sliding_pool;
      waiting = v.parts.waiting;
      held = v.parts.held;
      read = v.parts.read;
    };
  }

  -- The cap on retained pages is no part of the invariant.
  capped-IsSound :
      (s : KvArena K P) (pages : Option ℕ) → IsSound s → IsSound (Policy.set_retention_cap pages s)
  capped-IsSound s pages v =
      let full = v.parts.full_pool in
      slots_kept s _ v (record {
        pages = full.pages;
        slot_table = full.slot_table;
        tracked = record {
          uniq_sizes = full.tracked.uniq_sizes;
          summed = full.tracked.summed;
          sized = full.tracked.sized;
          versioned = full.tracked.versioned;
          queued = full.tracked.queued;
          issued = full.tracked.issued;
          recent = full.tracked.recent;
          unpinned = full.tracked.unpinned;
        };
        attached = full.attached;
        retained = full.retained;
      })

  stale_or_not-IsSound :
      (b : Bool) (s t : KvArena K P) → IsSound s → IsSound t → IsSound (if b then t else s)
  stale_or_not-IsSound true s t v w = w
  stale_or_not-IsSound false s t v w = v

  -- What the slots are recorded to cover is no part of the invariant.
  recorded-IsSound :
      (s : KvArena K P) (slot_tokens ext_tokens : Dict K ℕ)
      → IsSound s
      → IsSound (record s {
        accounting = record s.accounting {
          slot_table = record s.accounting.slot_table {
            slot_tokens = slot_tokens;
            ext_tokens = ext_tokens;
          };
        };
      })
  recorded-IsSound s slot_tokens ext_tokens v =
      let full = v.parts.full_pool in
      slots_kept s _ v (
        slots-IsSound s.accounting _ full (
          record {
            uniq_slots = full.slot_table.uniq_slots;
            uniq_ext = full.slot_table.uniq_ext;
            placed = full.slot_table.placed;
          },
          record {
            slots = full.attached.slots;
            extensions = full.attached.extensions;
            shares = full.attached.shares;
          },
        ))

module _ {K P : Type 0} ⦃e : Eq K⦄ {o : Priorities P} (ord : IsOrdered o) where
  step-IsSound : (s : KvArena K P) (c : Call K P) → IsSound s → IsAllowed s c → IsSound (step o s c)
  unfolding step
  step-IsSound s (alloc key tokens capacity base sliding borrow) v h =
      alloc-Keeps key tokens capacity base sliding borrow s v
  step-IsSound s (activate key tokens capacity base borrow) v h =
      activate-Keeps o key tokens capacity base borrow s v
  step-IsSound s (reserve key tokens capacity borrow extension share_points) v h =
      reserve-Keeps o key tokens capacity borrow extension share_points s v
  step-IsSound s (grow_pages keys) v h =
      grow_pages-IsSound o keys s (with_room-Resident ord keys s v h) v
  step-IsSound s (pin key) v h = pin-Keeps key s v
  step-IsSound s (free_key key) v h = free_key-Keeps key s v
  step-IsSound s (release key) v h = release-Keeps key s v
  step-IsSound s (trim_window key) v h = trim_window-Keeps key s v
  step-IsSound s (checkpoint_slot key) v h = checkpoint_slot-Keeps o key s v
  step-IsSound s (extension_slot key) v h = extension_slot-Keeps o key s v
  step-IsSound s (share_slot key tokens) v h = share_slot-Keeps o key tokens s v
  step-IsSound s (keep_window key shared) v h =
      unfold Holds.keep_window in record { parts = v.parts }
  step-IsSound s (hold key borrowers) v h = hold-IsSound key borrowers s v
  step-IsSound s (record_checkpoint key tokens) v h =
      unfold Checkpoints.record_checkpoint in
      recorded-IsSound s _ s.accounting.slot_table.ext_tokens v
  step-IsSound s (record_extension key tokens) v h =
      unfold Checkpoints.record_extension in
      recorded-IsSound s s.accounting.slot_table.slot_tokens _ v
  step-IsSound s (retain key tokens priority) v h = retain-Keeps o key tokens priority s v
  step-IsSound s (evict_key key) v h = evict_key-Keeps key s v
  step-IsSound s (capacity_rows key) v h =
      unfold State.capacity_rows in
      stale_or_not-IsSound (among key s.stale_rows) s _ v (refresh_rows-IsSound key none s v)
  step-IsSound s (configure_retention policy cap_pages) v h =
      on_full-Keeps (λ a. Arena.configure_retention o a policy cap_pages)
        (λ a. configure-IsSound o a policy cap_pages) s v
  step-IsSound s (set_retention_cap pages) v h = capped-IsSound s pages v
  step-IsSound s reset_stats v h = record { parts = v.parts }
  step-IsSound s (evict_retained pages_needed) v h = evict_retained-Keeps o pages_needed s v
  step-IsSound s (read_state keys) v h = read_state-IsSound keys s v
  step-IsSound s (done_reading keys) v h = done_reading-Keeps keys s v
  step-IsSound s (drop_holds keys) v h = drop_holds-Keeps keys s v
  step-IsSound s (resize num_pages num_sliding_pages free_resident num_state_slots) v h =
      resize-Keeps num_pages num_sliding_pages free_resident num_state_slots s v

  abbrev pub AreAllowed : KvArena K P → List (Call K P) → Type 0
  AreAllowed s [] = Unit
  AreAllowed s (c ∷ cs) = IsAllowed s c × AreAllowed (step o s c) cs

  run-IsSound :
      (s : KvArena K P) (cs : List (Call K P)) → IsSound s → AreAllowed s cs → IsSound (run o s cs)
  unfolding run
  run-IsSound s [] v h = v
  run-IsSound s (c ∷ cs) v h = run-IsSound (step o s c) cs (step-IsSound s c v h.0) h.1

  made-IsSound : (s t : KvArena K P) → IsSound s → ok s ≡ ok t → IsSound t
  made-IsSound s t v made = let same : s ≡ t = cc in subst IsSound same v

  started-IsSound :
      (num_pages page_tokens : ℕ) (sliding : Option (ℕ × ℕ)) (num_state_slots : ℕ) (s : KvArena K P)
      → 0 < page_tokens
      → Resize.init num_pages page_tokens sliding num_state_slots ≡ ok s
      → IsSound s
  unfolding Resize.init
  started-IsSound num_pages page_tokens none num_state_slots s positive made =
      made-IsSound _ s
        (build-IsSound num_pages page_tokens 0 num_state_slots (blank none 0) positive) made
  started-IsSound num_pages page_tokens (some (zero, n)) num_state_slots s positive made =
      made-IsSound _ s
        (build-IsSound num_pages page_tokens 0 num_state_slots (blank none 0) positive) made
  started-IsSound num_pages page_tokens (some (suc window, n)) num_state_slots s positive made =
      elim (Bool-cases (n == 0)) [
        | inl nothing ↦ absurd (let refused = rw nothing at made in cc)
        | inr some_pages ↦
            made-IsSound _ s
              (build-IsSound num_pages page_tokens n num_state_slots
                (blank (some (Arena.init 0 0 0)) (suc window)) positive)
              (rw some_pages at made)
      ]

  -- From a new arena with a positive page size, every sequence of calls of the methods that change the
  -- arena keeps its invariant, whether they return or raise, where `grow_pages` is asked for keys that
  -- are resident in both pools and not retained: the page accounting of the full and of the sliding
  -- pool is sound, no count of a hold or of a reader is 0, and a freed key whose pages wait is held by
  -- a borrower or a reader.
  pub started_run-IsSound :
      (num_pages page_tokens : ℕ) (sliding : Option (ℕ × ℕ)) (num_state_slots : ℕ) (s : KvArena K P)
      (cs : List (Call K P))
      → 0 < page_tokens
      → Resize.init num_pages page_tokens sliding num_state_slots ≡ ok s
      → AreAllowed s cs
      → IsSound (run o s cs)
  started_run-IsSound num_pages page_tokens sliding num_state_slots s cs positive made allowed =
      run-IsSound s cs
        (started-IsSound num_pages page_tokens sliding num_state_slots s positive made) allowed
