-- ===== src/Pages/Attached.antt =====
-- quail/backends/quail/executor/pages.py: the slots that keys hold under the arena's methods.
use quail.Prelude.{ℕ, ◌≡◌, refl, true, false, Option, none, some, List, Eq, nat_eq, pair_eq, arith}
use quail.Result.{ok}
use quail.Dict.{lookup, has, lookup-put, lookup-pop}
use quail.Pages.Pool.{Pool}
use quail.Pages.Holding
use quail.Pages.Alloc.{Lends, shared_pages-Lends}
use quail.Pages.Resident.{lookup-share_except}
use quail.Pages.Slots
use quail.Pages.Slots.{Slots}
use quail.Pages.Arena.{borrow_plan}

module _ {K : Type 0} ⦃e : Eq K⦄ where
  -- Only resident keys hold slots.
  pub record Attached (pool : Pool K) (t : Slots K) : Type 0 where
    pub slots : (k : K) → has k t.slots ≡ true → has k pool.owned ≡ true
    pub extensions : (k : K) → has k t.ext_slots ≡ true → has k pool.owned ≡ true
    pub shares :
        (k : K) (tokens : ℕ) → has (k, tokens) t.share_slots ≡ true → has k pool.owned ≡ true

  pub freed-Attached :
      (pool pool' : Pool K) (t : Slots K) (key : K)
      → Attached pool t
      → ((k : K) → e.same key k ≡ false → has k pool.owned ≡ true → has k pool'.owned ≡ true)
      → Attached pool' (Slots.free_slots_of key t)
  unfolding Slots.free_slots_of
  freed-Attached pool pool' t key v stays = record {
    slots = λ k h. ground (arith, lookup-pop key k t.slots, v.slots k, stays k);
    extensions = λ k h. ground (arith, lookup-pop key k t.ext_slots, v.extensions k, stays k);
    shares =
        λ k n h. ground (arith, lookup-share_except key k n t.share_slots, v.shares k n, stays k);
  }

  pub dropped-Attached :
      (pool : Pool K) (t : Slots K) (key : K)
      → Attached pool t
      → Attached pool (Slots.drop_extension key t)
  unfolding Slots.drop_extension
  dropped-Attached pool t key v = record {
    slots = v.slots;
    extensions = λ k h. ground (arith, lookup-pop key k t.ext_slots, v.extensions k);
    shares = v.shares;
  }

  pub slot-Attached :
      (pool : Pool K) (t : Slots K) (key : K)
      → Attached pool t
      → Attached pool (Slots.alloc_slot (has key pool.owned) key t).1
  slot-Attached pool t key v =
      unfold Slots.alloc_slot in
      Slots.take_slot_cases (Attached pool) (has key pool.owned) (lookup key t.slots) _ t
        t.free_slots refl v
        λ slot rest resident fresh top. record {
          slots = λ k h. ground (arith, lookup-put key k slot t.slots, e.same_iff key k, v.slots k);
          extensions = v.extensions;
          shares = v.shares;
        }

  pub extension-Attached :
      (pool : Pool K) (t : Slots K) (key : K)
      → Attached pool t
      → Attached pool (Slots.alloc_extension (has key pool.owned) key t).1
  extension-Attached pool t key v =
      unfold Slots.alloc_extension in
      Slots.take_slot_cases (Attached pool) (has key pool.owned) (lookup key t.ext_slots) _ t
        t.free_slots refl v
        λ slot rest resident fresh top. record {
          slots = v.slots;
          extensions = λ k h.
              ground (arith, lookup-put key k slot t.ext_slots, e.same_iff key k, v.extensions k);
          shares = v.shares;
        }

  pub share-Attached :
      (pool : Pool K) (t : Slots K) (key : K) (tokens : ℕ)
      → Attached pool t
      → Attached pool (Slots.alloc_share (has key pool.owned) key tokens t).1
  share-Attached pool t key tokens v =
      unfold Slots.alloc_share in
      Slots.take_slot_cases (Attached pool) (has key pool.owned)
        (lookup (key, tokens) t.share_slots) _ t t.free_slots refl v
        λ slot rest resident fresh top. record {
          slots = v.slots;
          extensions = v.extensions;
          shares = λ k n h. ground (
            arith,
            lookup-put (key, tokens) (k, n) slot t.share_slots,
            e.same_iff key k,
            v.shares k n,
          );
        }

  pub borrow_plan-Lends :
      (pool : Pool K) (borrow : Option (K × ℕ × ℕ)) (pages : List ℕ)
      → Holding.IsValid pool
      → borrow_plan pool borrow ≡ ok pages
      → Lends pool pages
  borrow_plan-Lends pool none pages v h = λ p. ground arith
  borrow_plan-Lends pool (some (parent, shared, start)) pages v h =
      shared_pages-Lends pool parent shared start pages v h
