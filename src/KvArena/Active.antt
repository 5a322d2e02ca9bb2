-- ===== src/KvArena/Active.antt =====
-- quail/backends/quail/executor/arena.py: `grow_pages` evicts none of the keys that it grows.
use quail.Prelude.{
  ◌≡◌, ap, true, false, ◌∙◌, Option, none, some, List, [], ◌∷◌, Eq, length, inr, is_some,
}
use quail.Dict.{has}
use quail.Pages.Heap.{Priorities, IsOrdered}
use quail.Pages.Growth.{Resident}
use quail.Pages.Arena.{PageArena, is_resident}
use quail.KvArena.State.{KvArena}
use quail.KvArena.Evict.{both_have, evict_for_pages}
use quail.KvArena.Sound.{IsSound}
use quail.KvArena.Lending.{Sliding}
use quail.KvArena.Admitting.{with_room, ResidentIn}
use quail.KvArena.Frame.{evict_until-Stays}
use quail.KvArena.Stays.{AgreeSliding, Stays}

module _ {K P : Type 0} ⦃e : Eq K⦄ where
  -- The keys are resident in both pools, and none is retained.
  abbrev pub Active : List K → KvArena K P → Type 0
  Active [] s = Unit
  Active (k ∷ ks) s =
      (is_resident s.accounting k ≡ true)
      × Sliding (λ b. is_resident b k ≡ true) s.sliding
      × (has k s.accounting.retention.retained ≡ false)
      × Active ks s

  pub agree_resident :
      (k : K) (a b : Option (PageArena K P))
      → AgreeSliding k a b
      → Sliding (λ c. is_resident c k ≡ true) a
      → Sliding (λ c. is_resident c k ≡ true) b
  agree_resident k none none h r = tt
  agree_resident k (some a) (some b) h r = ap is_some h.0.0 ∙ r
  agree_resident k none (some b) h r = absurd h
  agree_resident k (some a) none h r = tt

  Sliding-cons :
      (k : K) (ks : List K) (b : Option (PageArena K P))
      → Sliding (λ c. is_resident c k ≡ true) b
      → Sliding (λ c. Resident ks c.pool.owned) b
      → Sliding (λ c. Resident (k ∷ ks) c.pool.owned) b
  Sliding-cons k ks none h g = tt
  Sliding-cons k ks (some b) h g = (h, g)

  Sliding-nil : (b : Option (PageArena K P)) → Sliding (λ c. Resident [] c.pool.owned) b
  Sliding-nil none = tt
  Sliding-nil (some b) = tt

  stay-Resident :
      (keys : List K) (s t : KvArena K P)
      → ((k : K) → has k s.accounting.retention.retained ≡ false → Stays k s t)
      → Active keys s
      → ResidentIn keys t
  stay-Resident [] s t h a = (tt, Sliding-nil t.sliding)
  stay-Resident (k ∷ ks) s t h a =
      let stays = h k a.2 in
      let rest = stay-Resident ks s t h a.3 in
      (
        (ap is_some stays.full.0.0 ∙ a.0, rest.0),
        Sliding-cons k ks t.sliding (agree_resident k s.sliding t.sliding stays.sliding a.1) rest.1,
      )

module _ {K P : Type 0} ⦃e : Eq K⦄ {o : Priorities P} (ord : IsOrdered o) where
  pub with_room-Resident :
      (keys : List K) (s : KvArena K P)
      → IsSound s
      → Active keys s
      → ResidentIn keys (with_room o keys s)
  unfolding evict_for_pages
  with_room-Resident keys s v a =
      stay-Resident keys s (with_room o keys s)
        (λ k free. evict_until-Stays ord (both_have (length keys) (length keys)) s k v (inr free)) a
