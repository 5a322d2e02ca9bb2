-- ===== src/KvArena/Checkpoints.antt =====
-- quail/backends/quail/executor/arena.py: what a checkpoint slot covers.
use quail.Prelude.{
  ℕ, ◌+◌, ◌==◌, Option, none, some, List, Eq, given, if◌then◌else◌, length, keep_if, nat_eq,
  pair_eq,
}
use quail.Dict.{lookup, put}
use quail.Pages.Slots.{Slots}
use quail.Pages.Pool.{tokens_of}
use quail.Pages.Retention.{among}
use quail.KvArena.State.{KvArena}

module _ {K P : Type 0} ⦃e : Eq K⦄ where
  abbrev slots_of : KvArena K P → Slots K
  slots_of s = s.accounting.slot_table

  abbrev with_slots : KvArena K P → Slots K → KvArena K P
  with_slots s t = record s { accounting = record s.accounting { slot_table = t } }

  unfoldable pub record_checkpoint : K → ℕ → KvArena K P → KvArena K P
  record_checkpoint key tokens s =
      with_slots s
        (record (slots_of s) { slot_tokens = put key tokens s.accounting.slot_table.slot_tokens })

  unfoldable pub record_extension : K → ℕ → KvArena K P → KvArena K P
  record_extension key tokens s =
      with_slots s
        (record (slots_of s) { ext_tokens = put key tokens s.accounting.slot_table.ext_tokens })

  unfoldable pub checkpoint_tokens : KvArena K P → K → ℕ
  checkpoint_tokens s key = tokens_of (lookup key s.accounting.slot_table.slot_tokens)

  -- The checkpoint at the end of the document serves the key's own length.
  abbrev own_state : KvArena K P → K → ℕ → Option ℕ → Option ℕ
  own_state s key tokens none = none
  own_state s key tokens (some covered) =
      if covered == tokens then lookup key s.accounting.slot_table.slots else none

  unfoldable pub shared_state : KvArena K P → K → ℕ → Option ℕ
  shared_state s key tokens =
      given (lookup (key, tokens) s.accounting.slot_table.share_slots)
        (own_state s key tokens (lookup key s.accounting.slot_table.slot_tokens)) λ slot. some slot

  -- The second checkpoint, with the tokens that it covers.
  unfoldable pub extension : KvArena K P → K → Option (ℕ × ℕ)
  extension s key = given (lookup key s.accounting.slot_table.ext_slots) none λ slot.
      given (lookup key s.accounting.slot_table.ext_tokens) none λ tokens. some (slot, tokens)

  -- The checkpoint slots that keys hold, of all three kinds.
  unfoldable pub slots_held : KvArena K P → List K → ℕ
  slots_held s keys =
      let t = s.accounting.slot_table in
      length (keep_if (λ entry. among entry.0 keys) t.slots)
      + length (keep_if (λ entry. among entry.0 keys) t.ext_slots)
      + length (keep_if (λ entry. among entry.0.0 keys) t.share_slots)
