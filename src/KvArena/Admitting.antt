-- ===== src/KvArena/Admitting.antt =====
-- quail/backends/quail/executor/arena.py: `activate`, `grow_pages`, `reserve` and `resize` keep the
-- invariant.
use quail.Prelude.{
  ℕ, ◌-◌, ◌<◌, Bool, true, false, Option, none, some, List, [], ◌∷◌, Eq, given, length,
}
use quail.Result.{ok}
use quail.Dict.{lookup}
use quail.Pages.Pool
use quail.Pages.Pool.{Pool, or_default}
use quail.Pages.Heap.{Priorities}
use quail.Pages.Growth.{Resident, grow_pages-IsValid}
use quail.Pages.Resident.{grow_pages_resident}
use quail.Pages.Arena
use quail.Pages.Arena.{PageArena, is_resident}
use quail.Pages.Sound
use quail.Pages.Sound.{pool-IsSound, pin-IsSound}
use quail.Pages.Run.{init-IsSound}
use quail.KvArena.State.{
  KvArena, ◌>>◌, pure, on_full, on_sliding, on_pool, start_of, lacking, has_slots, page_tokens,
}
use quail.KvArena.Holds.{free_key, done_reading, drop_holds, any}
use quail.KvArena.Evict.{
  both_have, evict_until, evict_for_pages, ask_slot, ask_extension, ask_share,
}
use quail.KvArena.Admit.{borrow_plan, alloc, lacking_sliding}
use quail.KvArena.Activate.{
  wanted, activate_resident, activate_fresh, activate, grow_pages, give_pages, has_room, share_each,
  extend_if, take_slots, reserve_wants, slots_wanted, reserve_body, protected_by, reserve,
}
use quail.KvArena.Resize.{free_each, build, free_residents, resize, resident_keys}
use quail.KvArena.Sound.{
  IsSound, Keeps, SlidingIsSound, bind-Keeps, finally-Keeps, on_full-Keeps, given-Keeps, if-IsSound,
}
use quail.KvArena.Waiting.{done_reading-Keeps, read_state-IsSound, drop_holds-Keeps}
use quail.KvArena.Freeing.{free_key-Keeps}
use quail.KvArena.Evicting.{
  evict_until-Keeps, evict_for_pages-Keeps, take_slot-Keeps, take_extension-Keeps, take_share-Keeps,
}
use quail.KvArena.Allocating.{resume_plan-IsSound, alloc-Keeps, grow_both-Keeps}
use quail.KvArena.Lending.{
  Sliding, Sliding-zip, borrow_plan-Lending, resume-IsSound, full-IsSound, on_sliding-IsSound,
}

module _ {K P : Type 0} ⦃e : Eq K⦄ where
  pub pin-Keeps : (key : K) → Keeps {P = P} (on_full (λ a. Arena.pin a key))
  pin-Keeps key = on_full-Keeps (λ a. Arena.pin a key) (λ a. pin-IsSound a key)

  share_each-Keeps : (key : K) (points : List ℕ) → Keeps {P = P} (share_each key points)
  share_each-Keeps key [] s v = v
  share_each-Keeps key (point ∷ points) s v =
      bind-Keeps (ask_share key point) _ (take_share-Keeps key point)
        (λ _. share_each-Keeps key points) s v

  extend_if-Keeps : (extension : Bool) (key : K) → Keeps {P = P} (extend_if extension key)
  extend_if-Keeps false key s v = v
  extend_if-Keeps true key s v =
      bind-Keeps (ask_extension key) _ (take_extension-Keeps key) (λ _ t w. w) s v

  take_slots-Keeps :
      (slots : Bool) (key : K) (extension : Bool) (share_points : List ℕ)
      → Keeps {P = P} (take_slots slots key extension share_points)
  take_slots-Keeps false key extension share_points s v = v
  take_slots-Keeps true key extension share_points s v =
      bind-Keeps (ask_slot key >> extend_if extension key) _
        (bind-Keeps (ask_slot key) _ (take_slot-Keeps key) (λ _. extend_if-Keeps extension key))
        (λ _. share_each-Keeps key share_points) s v

  pub free_each-Keeps : (keys : List K) → Keeps {P = P} (free_each keys)
  unfolding free_each
  free_each-Keeps [] s v = v
  free_each-Keeps (key ∷ keys) s v =
      bind-Keeps (free_key key) _ (free_key-Keeps key) (λ _. free_each-Keeps keys) s v

  free_residents-Keeps :
      (free_resident : Bool) → Keeps {K = K} {P = P} (free_residents free_resident)
  free_residents-Keeps false s v = v
  free_residents-Keeps true s v =
      bind-Keeps (drop_holds none) _ (drop_holds-Keeps none)
        (λ _ t w. free_each-Keeps (resident_keys t) t w) s v

  pub build-IsSound :
      (num_pages page_tokens num_sliding_pages num_state_slots : ℕ) (s : KvArena K P)
      → 0 < page_tokens
      → IsSound (build num_pages page_tokens num_sliding_pages num_state_slots s)
  unfolding build lookup
  build-IsSound num_pages page_tokens num_sliding_pages num_state_slots s positive = record {
    parts = record {
      full_pool = init-IsSound num_pages page_tokens num_state_slots positive;
      sliding_pool =
          given_sliding s.sliding (init-IsSound num_sliding_pages page_tokens 0 positive);
      waiting = λ k w. cc;
      held = λ k n w. cc;
      read = λ k n w. cc;
    };
  }
    where
      given_sliding :
          (pool : Option (PageArena K P)) {b : PageArena K P}
          → Sound.IsSound b
          → SlidingIsSound (given pool none λ _. some b)
      given_sliding none h = tt
      given_sliding (some c) h = h

  pub resize-Keeps :
      (num_pages num_sliding_pages : ℕ) (free_resident : Bool) (num_state_slots : ℕ)
      → Keeps {K = K} {P = P} (resize num_pages num_sliding_pages free_resident num_state_slots)
  unfolding resize
  resize-Keeps num_pages num_sliding_pages free_resident num_state_slots =
      bind-Keeps (free_residents free_resident) _ (free_residents-Keeps free_resident) (λ _ t w.
        if-IsSound (any (resident_keys t)) _ _ (λ _. w)
          (λ _.
            if-IsSound _ (ok tt, t) (ok tt, _) (λ _. w)
              (λ _.
                build-IsSound num_pages (page_tokens t) num_sliding_pages num_state_slots t
                  w.parts.full_pool.pages.positive)))

  -- The keys are resident in both pools.
  abbrev pub ResidentIn : List K → KvArena K P → Type 0
  ResidentIn keys s =
      Resident keys s.accounting.pool.owned × Sliding (λ b. Resident keys b.pool.owned) s.sliding

module _ {K P : Type 0} ⦃e : Eq K⦄ (o : Priorities P) where
  pub activate_resident-Keeps :
      (key : K) (tokens capacity : ℕ) → Keeps (activate_resident o key tokens capacity)
  unfolding activate_resident
  activate_resident-Keeps key tokens capacity =
      bind-Keeps (on_full (λ a. Arena.pin a key)) _ (pin-Keeps key) (λ _ t w.
        let need = lacking t.accounting.pool key capacity in
        let need_s = lacking_sliding t key (capacity - start_of t key) in
        bind-Keeps (evict_for_pages o need need_s) _ (evict_for_pages-Keeps o need need_s)
          (λ _ u q.
            if-IsSound (both_have need need_s u) _ _ (λ _. grow_both-Keeps key tokens capacity u q)
              (λ _. q))
          t w)

  activate_fresh-Keeps :
      (key : K) (tokens capacity : ℕ) (base_tokens : Option ℕ) (borrow : Option (K × ℕ))
      → Keeps (activate_fresh o key tokens capacity base_tokens borrow)
  unfolding activate_fresh
  activate_fresh-Keeps key tokens capacity base_tokens borrow s v =
      resume_plan-IsSound (borrow_plan s borrow) s _ v (borrow_plan-Lending s borrow v) (λ plan _.
        let (need, need_s) = wanted s capacity plan in
        bind-Keeps
          (evict_for_pages o need need_s
            >> alloc key tokens (some capacity) base_tokens none borrow)
          _
          (bind-Keeps (evict_for_pages o need need_s) _ (evict_for_pages-Keeps o need need_s)
            (λ _. alloc-Keeps key tokens (some capacity) base_tokens none borrow))
          (λ pages.
            given-Keeps pages (pure none) _ (λ t w. w)
              (λ taken _.
                bind-Keeps (on_full (λ a. Arena.pin a key)) _ (pin-Keeps key) (λ _ t w. w)))
          s v)

  pub activate-Keeps :
      (key : K) (tokens : ℕ) (capacity_tokens base_tokens : Option ℕ) (borrow : Option (K × ℕ))
      → Keeps (activate o key tokens capacity_tokens base_tokens borrow)
  unfolding activate
  activate-Keeps key tokens capacity_tokens base_tokens borrow s v =
      if-IsSound (is_resident s.accounting key) _ _ (λ _. activate_resident-Keeps key tokens _ s v)
        (λ _. activate_fresh-Keeps key tokens _ base_tokens borrow s v)

  reserve_body-Keeps :
      (key : K) (tokens capacity : ℕ) (borrow : Option (K × ℕ)) (extension : Bool)
      (share_points : List ℕ) (wants : ℕ × ℕ) (slots : ℕ)
      → Keeps (reserve_body o key tokens capacity borrow extension share_points wants slots)
  unfolding reserve_body
  reserve_body-Keeps key tokens capacity borrow extension share_points (need, need_s) slots =
      bind-Keeps (evict_until o (has_room need need_s slots)) _
        (evict_until-Keeps o (has_room need need_s slots))
        (λ _ s v.
          if-IsSound (has_room need need_s slots s) _ _
            (λ _.
              bind-Keeps
                (activate o key tokens (some capacity) none borrow
                  >> take_slots (has_slots s) key extension share_points)
                _
                (bind-Keeps (activate o key tokens (some capacity) none borrow) _
                  (activate-Keeps key tokens (some capacity) none borrow)
                  (λ _. take_slots-Keeps (has_slots s) key extension share_points))
                (λ _ t w. w) s v)
            (λ _. v))

  pub reserve-Keeps :
      (key : K) (tokens capacity_tokens : ℕ) (borrow : Option (K × ℕ)) (extension : Bool)
      (share_points : List ℕ)
      → Keeps (reserve o key tokens capacity_tokens borrow extension share_points)
  unfolding reserve
  reserve-Keeps key tokens capacity_tokens borrow extension share_points s v =
      resume_plan-IsSound (borrow_plan s borrow) s _ v (borrow_plan-Lending s borrow v) (λ plan _.
        finally-Keeps
          (reserve_body o key tokens capacity_tokens borrow extension share_points
            (reserve_wants s key capacity_tokens plan) (slots_wanted s key extension share_points))
          (done_reading (protected_by key borrow))
          (reserve_body-Keeps key tokens capacity_tokens borrow extension share_points _ _)
          (done_reading-Keeps (protected_by key borrow)) _
          (read_state-IsSound (protected_by key borrow) s v))

  -- The state after the evictions of `grow_pages`.
  abbrev pub with_room : List K → KvArena K P → KvArena K P
  with_room keys s = (evict_for_pages o (length keys) (length keys) s).1

  pages-IsSound :
      (keys : List K) (a : PageArena K P)
      → Resident keys a.pool.owned
      → Sound.IsSound a
      → Sound.IsSound (on_pool (λ pool. Pool.grow_pages pool keys) a).1
  pages-IsSound keys a r v =
      pool-IsSound a _ v (grow_pages-IsValid a.pool keys v.pages r).0
        (λ k h. grow_pages_resident a.pool keys k h)

  give_pages-IsSound :
      (keys : List K) (s : KvArena K P)
      → ResidentIn keys s
      → IsSound s
      → IsSound (give_pages o keys s).1
  unfolding give_pages
  give_pages-IsSound keys s r v =
      let w = full-IsSound s _ v (pages-IsSound keys s.accounting r.0 v.parts.full_pool) in
      let u =
        (on_sliding-IsSound none (on_pool λ pool. Pool.grow_pages pool keys)
          (on_full {K = K} {P = P} (on_pool λ pool. Pool.grow_pages pool keys) s).1 (λ b. Unit) w
          (Sliding-zip s.sliding r.1 v.parts.sliding_pool
            (λ b q t. (pages-IsSound keys b q t, λ _ _. tt)))).0 in
      resume-IsSound (on_full (on_pool λ pool. Pool.grow_pages pool keys) s) _ w (λ added _.
        resume-IsSound
          (on_sliding none (on_pool λ pool. Pool.grow_pages pool keys)
            (on_full {K = K} {P = P} (on_pool λ pool. Pool.grow_pages pool keys) s).1)
          _ u (λ _ _. record { parts = u.parts }))

  pub grow_pages-IsSound :
      (keys : List K) (s : KvArena K P)
      → ResidentIn keys (with_room keys s)
      → IsSound s
      → IsSound (grow_pages o keys s).1
  unfolding grow_pages
  grow_pages-IsSound keys s r v =
      let w = evict_for_pages-Keeps o (length keys) (length keys) s v in
      resume-IsSound (evict_for_pages o (length keys) (length keys) s) _ w (λ _ _.
        if-IsSound (both_have (length keys) (length keys) (with_room keys s)) _ _
          (λ _. give_pages-IsSound keys (with_room keys s) r w) (λ _. w))
