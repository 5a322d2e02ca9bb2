-- ===== src/KvArena/Evicting.antt =====
-- quail/backends/quail/executor/arena.py: evictions, `retain` and the checkpoint slots keep the
-- invariant.
use quail.Prelude.{
  ℕ, zero, suc, ◌+◌, ◌-◌, Bool, Option, none, some, List, Eq, Bool-cases, Option-cases, inl, inr,
  length, ltb, leb,
}
use quail.Result.{Result}
use quail.Dict.{lookup}
use quail.Pages.Slots
use quail.Pages.Heap.{Priorities}
use quail.Pages.Retention.{pop_retained_victim}
use quail.Pages.Attached.{slot-Attached, extension-Attached, share-Attached, dropped-Attached}
use quail.Pages.Arena
use quail.Pages.Arena.{PageArena}
use quail.Pages.Sound
use quail.Pages.Sound.{slots-IsSound, victim-IsSound, rewind-IsSound, retain-IsSound}
use quail.KvArena.State.{KvArena, M, ◌>>◌, pure, raise, on_full, on_sliding, start_of, free_pages}
use quail.KvArena.Holds.{free_key}
use quail.KvArena.Evict.{
  evict_key, keep_of, evict_while, evict_until, evict_retained, evict_for_pages, evict_to_cap,
  below_base, rewind_both, make_retained, keep_to_cap, on_slots, ask_slot, ask_extension, ask_share,
  retain, slot_or_evict, checkpoint_slot, extension_slot, share_slot, both_have,
}
use quail.KvArena.Sound.{
  IsSound, Keeps, bind-Keeps, on_full-Keeps, on_sliding-Keeps, refresh_rows-IsSound, given-IsSound,
  given-Keeps,
}
use quail.KvArena.Freeing.{free_key-Keeps}

module _ {K P : Type 0} ⦃e : Eq K⦄ where
  pub evict_key-Keeps : (key : K) → Keeps (evict_key {P = P} key)
  unfolding evict_key
  evict_key-Keeps key s v =
      given-IsSound (lookup key s.accounting.pool.tokens) _ _ (λ _. v)
        (λ tokens _.
          bind-Keeps (free_key key) _ (free_key-Keeps key) (λ _ t w. record { parts = w.parts }) s
            v)

  on_slots-Keeps :
      {A : Type 0} (f : Bool → Slots.Slots K → Result A × Slots.Slots K) (key : K)
      → ((a : PageArena K P)
          → Sound.IsSound a
          → Sound.IsSound (record a { slot_table = (f (Arena.is_resident a key) a.slot_table).1 }))
      → Keeps (on_slots {P = P} f key)
  on_slots-Keeps f key h =
      on_full-Keeps
        (λ a.
          let (r, slot_table) = f (Arena.is_resident a key) a.slot_table in
          (r, record a { slot_table = slot_table }))
        h

  pub take_slot-Keeps : (key : K) → Keeps (ask_slot {P = P} key)
  take_slot-Keeps key =
      on_slots-Keeps (λ resident. Slots.alloc_slot resident key) key
        (λ a v. slots-IsSound a _ v (
          Slots.alloc_slot-IsValid _ key a.slot_table v.slot_table,
          slot-Attached a.pool a.slot_table key v.attached,
        ))

  pub take_extension-Keeps : (key : K) → Keeps (ask_extension {P = P} key)
  take_extension-Keeps key =
      on_slots-Keeps (λ resident. Slots.alloc_extension resident key) key
        (λ a v. slots-IsSound a _ v (
          Slots.alloc_extension-IsValid _ key a.slot_table v.slot_table,
          extension-Attached a.pool a.slot_table key v.attached,
        ))

  pub take_share-Keeps : (key : K) (tokens : ℕ) → Keeps (ask_share {P = P} key tokens)
  take_share-Keeps key tokens =
      on_slots-Keeps (λ resident. Slots.alloc_share resident key tokens) key
        (λ a v. slots-IsSound a _ v (
          Slots.alloc_share-IsValid _ key tokens a.slot_table v.slot_table,
          share-Attached a.pool a.slot_table key tokens v.attached,
        ))

module _ {K P : Type 0} ⦃e : Eq K⦄ (o : Priorities P) where
  -- The heap of the retained keys after a victim is taken.
  pub popped-IsSound :
      (keep : List K) (s : KvArena K P)
      → IsSound s
      → IsSound (record s {
        accounting = record s.accounting {
          retention = (pop_retained_victim o keep s.accounting.retention).1;
        };
      })
  popped-IsSound keep s v = record {
    parts = record {
      full_pool = victim-IsSound o s.accounting keep v.parts.full_pool;
      sliding_pool = v.parts.sliding_pool;
      waiting = v.parts.waiting;
      held = v.parts.held;
      read = v.parts.read;
    };
  }

  pub evict_while-Keeps :
      (fuel : ℕ) (keep : List K) (satisfied : KvArena K P → Bool)
      → Keeps (evict_while o fuel keep satisfied)
  unfolding evict_while
  evict_while-Keeps zero keep satisfied s v = v
  evict_while-Keeps (suc fuel) keep satisfied s v = elim (Bool-cases (satisfied s)) [
    | inl done ↦ rw (done, evict_while) v
    | inr more ↦ elim (Option-cases (pop_retained_victim o keep s.accounting.retention).0) [
      | inl empty ↦ rw (more, evict_while, empty) (popped-IsSound keep s v)
      | inr (victim, found) ↦
          rw (more, evict_while, found)
            (bind-Keeps (evict_key victim.key >> evict_while o fuel keep satisfied) _
              (bind-Keeps (evict_key victim.key) _ (evict_key-Keeps victim.key)
                (λ _. evict_while-Keeps fuel keep satisfied))
              (λ keys t w. w) _ (popped-IsSound keep s v))
    ]
  ]

  pub evict_until-Keeps : (satisfied : KvArena K P → Bool) → Keeps (evict_until o satisfied)
  unfolding evict_until
  evict_until-Keeps satisfied s v =
      evict_while-Keeps (suc (length s.accounting.retention.retained)) (keep_of s) satisfied s v

  pub evict_retained-Keeps : (pages_needed : ℕ) → Keeps (evict_retained {K = K} o pages_needed)
  unfolding evict_retained
  evict_retained-Keeps pages_needed s v =
      evict_until-Keeps (λ s'. leb (free_pages s + pages_needed) (free_pages s')) s v

  pub evict_for_pages-Keeps :
      (need need_sliding : ℕ) → Keeps (evict_for_pages {K = K} o need need_sliding)
  unfolding evict_for_pages
  evict_for_pages-Keeps need need_sliding = evict_until-Keeps (both_have need need_sliding)

  evict_to_cap-Keeps : (pages : Option ℕ) → Keeps (evict_to_cap {K = K} o pages)
  evict_to_cap-Keeps none s v = v
  evict_to_cap-Keeps (some pages) s v = evict_retained-Keeps _ s v

  rewind_both-Keeps : (key : K) (tokens : ℕ) → Keeps (rewind_both o key tokens)
  unfolding rewind_both
  rewind_both-Keeps key tokens s v =
      bind-Keeps
        (on_full (λ a. Arena.rewind o a key tokens)
          >> on_sliding 0 (λ b. Arena.rewind o b key (tokens - start_of s key)))
        _
        (bind-Keeps (on_full (λ a. Arena.rewind o a key tokens)) _
          (on_full-Keeps (λ a. Arena.rewind o a key tokens) (λ a. rewind-IsSound o a key tokens))
          (λ _.
            on_sliding-Keeps 0 (λ b. Arena.rewind o b key (tokens - start_of s key))
              (λ b. rewind-IsSound o b key _)))
        (λ _ t w. refresh_rows-IsSound key (some tokens) t w) s v

  make_retained-Keeps :
      (key : K) (priority : Option P) → Keeps (on_full (make_retained o key priority))
  make_retained-Keeps key priority = on_full-Keeps (make_retained o key priority) (λ a v.
      retain-IsSound o _ key priority (
        slots-IsSound a (Slots.drop_extension key a.slot_table) v (
          Slots.drop_extension-IsValid key a.slot_table v.slot_table,
          dropped-Attached a.pool a.slot_table key v.attached,
        )))

  keep_to_cap-Keeps : Keeps (keep_to_cap {K = K} o)
  unfolding keep_to_cap
  keep_to_cap-Keeps s v =
      bind-Keeps (evict_to_cap o s.accounting.retention.cap_pages) _
        (evict_to_cap-Keeps s.accounting.retention.cap_pages) (λ _ t w. w) s v

  pub retain-Keeps :
      (key : K) (tokens : ℕ) (priority : Option P) → Keeps (retain o key tokens priority)
  unfolding retain
  retain-Keeps key tokens priority s v =
      bind-Keeps (raise (below_base key tokens s)) _ (λ t w. w)
        (λ _. bind-Keeps (rewind_both o key tokens) _ (rewind_both-Keeps key tokens) (λ _.
          bind-Keeps (on_full (make_retained o key priority)) _ (make_retained-Keeps key priority)
            (λ _. keep_to_cap-Keeps)))
        s v

  slot_or_evict-Keeps : (ask : M K P (Option ℕ)) → Keeps ask → Keeps (slot_or_evict o ask)
  slot_or_evict-Keeps ask h = bind-Keeps ask _ h (λ slot.
      given-Keeps slot _ (λ n. pure (some n))
        (bind-Keeps (evict_until o (λ t. ltb 0 (length t.accounting.slot_table.free_slots))) _
          (evict_until-Keeps (λ t. ltb 0 (length t.accounting.slot_table.free_slots))) (λ _. h))
        (λ n _ s v. v))

  pub checkpoint_slot-Keeps : (key : K) → Keeps (checkpoint_slot o key)
  unfolding checkpoint_slot
  checkpoint_slot-Keeps key = slot_or_evict-Keeps (ask_slot key) (take_slot-Keeps key)

  pub extension_slot-Keeps : (key : K) → Keeps (extension_slot o key)
  unfolding extension_slot
  extension_slot-Keeps key = slot_or_evict-Keeps (ask_extension key) (take_extension-Keeps key)

  pub share_slot-Keeps : (key : K) (tokens : ℕ) → Keeps (share_slot o key tokens)
  unfolding share_slot
  share_slot-Keeps key tokens =
      slot_or_evict-Keeps (ask_share key tokens) (take_share-Keeps key tokens)
