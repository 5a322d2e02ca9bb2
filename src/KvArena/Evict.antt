-- ===== src/KvArena/Evict.antt =====
-- quail/backends/quail/executor/arena.py: the eviction of retained prefixes.
use quail.Prelude.{
  given, ℕ, zero, suc, ◌+◌, ◌-◌, Bool, true, false, ◌&&◌, Option, none, some, List, [], ◌∷◌, ◌++◌,
  ltb, leb, if◌then◌else◌, Eq, length, map,
}
use quail.Result.{Result, ok, err, key_error, value_error}
use quail.Dict.{lookup}
use quail.Pages.Slots
use quail.Pages.Heap.{Priorities}
use quail.Pages.Retention.{pop_retained_victim}
use quail.Pages.Arena
use quail.Pages.Arena.{PageArena}
use quail.KvArena.State.{
  KvArena, M, ◌>>=◌, ◌>>◌, pure, raise, on_full, on_sliding, free_pages, free_count, refresh_rows,
  start_of,
}
use quail.KvArena.Holds.{free_key}

module _ {K P : Type 0} where
  -- Both pools have the pages: `_evict_for_pages` waits for it, and `activate` and `grow_pages`
  -- test it again.
  unfoldable pub both_have : ℕ → ℕ → KvArena K P → Bool
  both_have need need_sliding s =
      leb need (free_count s.accounting)
      && ((given s.sliding true λ b. leb need_sliding (free_count b)))

  -- The counters of an eviction; the log and the answer sink are left out.
  abbrev pub count_eviction : ℕ → M K P ℕ → M K P ℕ
  count_eviction prefix_tokens m = m >>= λ pages s. (
    ok pages,
    record s {
      evicted_keys = s.evicted_keys + 1;
      evicted_pages = s.evicted_pages + pages;
      evicted_prefix_tokens = s.evicted_prefix_tokens + prefix_tokens;
    },
  )

module _ {K P : Type 0} ⦃e : Eq K⦄ where
  unfoldable pub evict_key : K → M K P ℕ
  unfolding free_key
  evict_key key s =
      (given (lookup key s.accounting.pool.tokens) (err key_error, s)
        λ prefix_tokens. count_eviction prefix_tokens (free_key key) s)

  -- `set(self._holds) | set(self._reading)`
  abbrev pub keep_of : KvArena K P → List K
  keep_of s = map (λ entry. entry.0) s.holds ++ map (λ entry. entry.0) s.reading

  abbrev pub on_slots :
      {A : Type 0} → (Bool → Slots.Slots K → Result A × Slots.Slots K) → K → M K P A
  on_slots f key = on_full λ a.
      let (r, slot_table) = f (Arena.is_resident a key) a.slot_table in
      (r, record a { slot_table = slot_table })

  -- A key's sliding window is not rewound below its base.
  abbrev pub below_base : K → ℕ → KvArena K P → Result (Unit {0})
  below_base key tokens s =
      (given s.sliding (ok tt) λ b.
        (given (lookup key s.base) (err key_error)
          λ base. if ltb tokens base then err value_error else ok tt))

  -- The calls of the accounting that take a checkpoint slot.
  abbrev pub ask_slot : K → M K P (Option ℕ)
  ask_slot key = on_slots (λ resident. Slots.alloc_slot resident key) key

  abbrev pub ask_extension : K → M K P (Option ℕ)
  ask_extension key = on_slots (λ resident. Slots.alloc_extension resident key) key

  abbrev pub ask_share : K → ℕ → M K P (Option ℕ)
  ask_share key tokens = on_slots (λ resident. Slots.alloc_share resident key tokens) key

module _ {K P : Type 0} ⦃e : Eq K⦄ (o : Priorities P) where
  -- The loop of `_evict_until`: `satisfied` is tested, then a victim is taken and evicted. The
  -- answer is the list of the evicted keys.
  unfoldable pub evict_while : ℕ → List K → (KvArena K P → Bool) → M K P (List K)
  unfolding evict_key pop_retained_victim
  evict_while zero keep satisfied s = (ok [], s)
  evict_while (suc fuel) keep satisfied s = elim (satisfied s) [
    | true ↦ (ok [], s)
    | false ↦
        let retention = (pop_retained_victim o keep s.accounting.retention).1 in
        let s' = record s { accounting = record s.accounting { retention = retention } } in
        elim (pop_retained_victim o keep s.accounting.retention).0 [
          | none ↦ (ok [], s')
          | some victim ↦
              (evict_key victim.key >> evict_while fuel keep satisfied >>= λ keys.
              pure (victim.key ∷ keys))
                s'
        ]
  ]

  -- A round for every retained key, and one to find none.
  unfoldable pub evict_until : (KvArena K P → Bool) → M K P (List K)
  unfolding evict_while
  evict_until satisfied s =
      evict_while (suc (length s.accounting.retention.retained)) (keep_of s) satisfied s

  unfoldable pub evict_retained : ℕ → M K P (List K)
  unfolding evict_until free_pages
  evict_retained pages_needed s =
      evict_until (λ s'. leb (free_pages s + pages_needed) (free_pages s')) s

  unfoldable pub evict_for_pages : ℕ → ℕ → M K P (List K)
  unfolding evict_until both_have
  evict_for_pages need need_sliding = evict_until (both_have need need_sliding)

  -- `self.accounting.retention_cap_pages`, where one is set
  abbrev pub evict_to_cap : Option ℕ → M K P (List K)
  evict_to_cap none s = (ok [], s)
  evict_to_cap (some pages) s = evict_retained (s.accounting.retention.total - pages) s

  -- Both pools rewind the key to its first tokens.
  unfoldable pub rewind_both : K → ℕ → M K P (Unit {0})
  unfolding refresh_rows
  rewind_both key tokens s =
      (on_full (λ a. Arena.rewind o a key tokens)
          >> on_sliding 0 (λ b. Arena.rewind o b key (tokens - start_of s key))
          >> λ s1. (ok tt, refresh_rows key (some tokens) s1))
        s

  -- The state past the document goes, and the key may be evicted from now on.
  abbrev pub make_retained : K → Option P → PageArena K P → Result (Unit {0}) × PageArena K P
  make_retained key priority a =
      Arena.retain o (record a { slot_table = Slots.drop_extension key a.slot_table }) key priority

  -- The free pages that the cap on retained pages brings.
  unfoldable pub keep_to_cap : M K P ℕ
  unfolding evict_retained free_pages
  keep_to_cap s =
      (evict_to_cap s.accounting.retention.cap_pages >>= λ _ s'.
      (ok (free_pages s' - free_pages s), s'))
        s

  unfoldable pub retain : K → ℕ → Option P → M K P ℕ
  unfolding rewind_both keep_to_cap
  retain key tokens priority s =
      (raise (below_base key tokens s)
          >> (rewind_both key tokens >> (on_full (make_retained key priority) >> keep_to_cap)))
        s

  -- A slot that is short at first is asked for again after evictions.
  abbrev pub slot_or_evict : M K P (Option ℕ) → M K P (Option ℕ)
  slot_or_evict ask = ask >>= λ slot.
      given slot (evict_until (λ s. ltb 0 (length s.accounting.slot_table.free_slots)) >> ask)
        λ n. pure (some n)

  unfoldable pub checkpoint_slot : K → M K P (Option ℕ)
  unfolding evict_until
  checkpoint_slot key = slot_or_evict (ask_slot key)

  unfoldable pub extension_slot : K → M K P (Option ℕ)
  unfolding evict_until
  extension_slot key = slot_or_evict (ask_extension key)

  unfoldable pub share_slot : K → ℕ → M K P (Option ℕ)
  unfolding evict_until
  share_slot key tokens = slot_or_evict (ask_share key tokens)
