-- ===== src/KvArena/Resize.antt =====
-- quail/backends/quail/executor/arena.py: `resize`, which builds the pools anew.
use quail.Prelude.{
  given, ℕ, zero, suc, Bool, true, false, ◌&&◌, Option, none, some, List, [], ◌∷◌, if◌then◌else◌,
  Eq, map, ◌==◌, nat_eq, pair_eq,
}
use quail.Result.{Result, ok, err, value_error, runtime_error}
use quail.Pages.Arena
use quail.Pages.Arena.{PageArena, is_resident}
use quail.KvArena.State.{KvArena, M, ◌>>◌, pure, page_tokens, num_pages}
use quail.KvArena.Holds.{free_key, drop_holds, any}

module _ {K P : Type 0} ⦃e : Eq K⦄ where
  -- `for key in keys: self.free_key(key)`
  unfoldable pub free_each : List K → M K P (Unit {0})
  unfolding free_key
  free_each [] = pure tt
  free_each (key ∷ keys) = free_key key >> free_each keys

  -- `_build`: new pools, with nothing in them.
  unfoldable pub build : ℕ → ℕ → ℕ → ℕ → KvArena K P → KvArena K P
  build num_pages page_tokens num_sliding_pages num_state_slots s = record s {
    accounting = Arena.init num_pages page_tokens num_state_slots;
    sliding = (given s.sliding none λ b. some (Arena.init num_sliding_pages page_tokens 0));
    rows = [];
    kept_rows = [];
    stale_rows = [];
    sliding_rows = [];
    base = [];
    sliding_start = [];
    holds = [];
    reading = [];
    deferred = [];
    window_floor = [];
    trimmed = [];
  }

  abbrev pub num_sliding_pages : KvArena K P → ℕ
  num_sliding_pages s = (given s.sliding 0 λ b. b.pool.num_pages)

  abbrev pub resident_keys : KvArena K P → List K
  resident_keys s = map (λ entry. entry.0) s.accounting.pool.owned

  abbrev pub free_residents : Bool → M K P (Unit {0})
  free_residents false = pure tt
  free_residents true = drop_holds none >> λ s. free_each (resident_keys s) s

  unfoldable pub resize : ℕ → ℕ → Bool → ℕ → M K P (Unit {0})
  unfolding free_each build
  resize num_pages' num_sliding_pages' free_resident num_state_slots =
      free_residents free_resident >> λ s.
      if any (resident_keys s)
      then (err runtime_error, s)
      else if (num_pages' == num_pages s)
          && (num_sliding_pages' == num_sliding_pages s)
          && (num_state_slots == s.accounting.slot_table.num_slots)
      then (ok tt, s)
      else (ok tt, build num_pages' (page_tokens s) num_sliding_pages' num_state_slots s)

-- `__init__`: the sliding layers' window and pages, where the model has any with a window.
abbrev pub blank : {K P : Type 0} → Option (PageArena K P) → ℕ → KvArena K P
blank sliding window = record {
  accounting = Arena.init 0 0 0;
  sliding = sliding;
  window = window;
  rows = [];
  kept_rows = [];
  stale_rows = [];
  sliding_rows = [];
  base = [];
  sliding_start = [];
  holds = [];
  reading = [];
  deferred = [];
  window_floor = [];
  trimmed = [];
  evicted_keys = 0;
  evicted_pages = 0;
  evicted_prefix_tokens = 0;
}

unfoldable pub init : {K P : Type 0} ⦃e : Eq K⦄ → ℕ → ℕ → Option (ℕ × ℕ) → ℕ → Result (KvArena K P)
unfolding build
init num_pages page_tokens none num_state_slots =
    ok (build num_pages page_tokens 0 num_state_slots (blank none 0))
init num_pages page_tokens (some (zero, num_sliding_pages)) num_state_slots =
    ok (build num_pages page_tokens 0 num_state_slots (blank none 0))
init num_pages page_tokens (some (suc window, num_sliding_pages)) num_state_slots =
    if num_sliding_pages == 0
    then err value_error
    else ok (
        build num_pages page_tokens num_sliding_pages num_state_slots
          (blank (some (Arena.init 0 0 0)) (suc window)))
