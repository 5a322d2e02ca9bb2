-- ===== src/Pages/Configure.antt =====
-- quail/backends/quail/executor/pages.py: `configure_retention` keeps the invariant of the arena.
use quail.Prelude.{
  ℕ, ◌≡◌, refl, true, Option, none, List, [], ◌∷◌, Eq, nat_eq, pair_eq, arith, ltb, Bool-cases, inl,
  inr, map,
}
use quail.Result.{ok}
use quail.Dict.{Dict, lookup, has}
use quail.Pages.Pool.{Pool}
use quail.Pages.Growth.{Resident}
use quail.Pages.Heap.{Priorities}
use quail.Pages.Retention.{among}
use quail.Pages.Arena.{PageArena, is_resident, retain, retain_all, configure_retention}
use quail.Pages.Sound.{Sound, IsSound, retain-Sound}

module _ {K : Type 0} ⦃e : Eq K⦄ where
  -- The keys of a dictionary.
  among-keys : (d : Dict K ℕ) (k : K) → among k (map (λ entry. entry.0) d) ≡ has k d
  unfolding lookup
  among-keys [] k = refl
  among-keys ((j, n) ∷ d) k = ground (arith, among-keys d k)

  Resident-keys :
      (keys : List K) (pool : Pool K)
      → ((k : K) → among k keys ≡ true → has k pool.owned ≡ true)
      → Resident keys pool.owned
  Resident-keys [] pool h = tt
  Resident-keys (key ∷ keys) pool h = (
    h key (ground (arith, e.same_iff key key)),
    Resident-keys keys pool (λ k r. h k (ground arith)),
  )

module _ {K P : Type 0} ⦃e : Eq K⦄ (o : Priorities P) where
  retain_resident :
      (a : PageArena K P) (key : K) (priority : Option P)
      → is_resident a key ≡ true
      → ((retain o a key priority).0 ≡ ok tt) × ((retain o a key priority).1.pool ≡ a.pool)
  unfolding retain
  retain_resident a key priority resident = rw resident (refl, refl)

  retain_all-IsSound :
      (keys : List K) (a : PageArena K P)
      → Sound keys a
      → Resident keys a.pool.owned
      → IsSound (retain_all o keys a).1
  unfolding retain_all
  retain_all-IsSound [] a v r = v
  retain_all-IsSound (key ∷ keys) a v r =
      let (done, same_pool) = retain_resident a key none r.0 in
      rw (done, retain_all)
        (retain_all-IsSound keys (retain o a key none).1 (retain-Sound o a key none v r.0)
          (rw same_pool r.1))

  pub configure-IsSound :
      (a : PageArena K P) (policy : Option (K → ℕ → ℕ → P)) (cap_pages : ℕ)
      → IsSound a
      → IsSound (configure_retention o a policy cap_pages).1
  configure-IsSound a policy cap_pages v = elim (Bool-cases (ltb a.pool.num_pages cap_pages)) [
    | inl over ↦ unfold configure_retention in rw over v
    | inr fits ↦
        unfold configure_retention in
        rw fits (
          retain_all-IsSound keys _
            (record {
              pages = v.pages;
              slot_table = v.slot_table;
              tracked = record {
                uniq_sizes = v.tracked.uniq_sizes;
                summed = v.tracked.summed;
                sized = v.tracked.sized;
                versioned = v.tracked.versioned;
                queued = λ k n done h.
                    absurd
                      (ground (arith, among-keys a.retention.retained k, v.tracked.versioned k));
                issued = v.tracked.issued;
                recent = λ k n h. refl;
                unpinned = v.tracked.unpinned;
              };
              attached = v.attached;
              retained = v.retained;
            })
            (Resident-keys keys a.pool
              (λ k h. v.retained k (ground (arith, among-keys a.retention.retained k)))))
  ]
    where
      keys : List K
      keys = map (λ entry. entry.0) a.retention.retained
