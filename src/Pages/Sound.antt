-- ===== src/Pages/Sound.antt =====
-- quail/backends/quail/executor/pages.py: the invariant of the whole arena, and the methods that
-- keep it.
use quail.Prelude.{
  ℕ, ◌≡◌, true, Option, none, some, List, [], ◌∷◌, if◌then◌else◌, Eq, nat_eq, pair_eq, arith,
  Bool-cases, inl, inr,
}
use quail.Result.{Result, ok, err}
use quail.Dict.{has, pop, lookup-put, lookup-pop}
use quail.Pages.Pool
use quail.Pages.Pool.{Pool, tokens_of}
use quail.Pages.Holding
use quail.Pages.Alloc.{alloc-IsValid}
use quail.Pages.Release.{rewind_pages-IsValid, free_pages_of-IsValid}
use quail.Pages.Resident.{alloc_resident, rewind_resident, free_resident}
use quail.Pages.Slots
use quail.Pages.Slots.{Slots}
use quail.Pages.Heap.{Priorities, Entry}
use quail.Pages.Retention.{
  Retention, forget_retained, pin_key, drop_key, retain_key, forget_victim, pop_retained_victim,
}
use quail.Pages.Tracking.{
  Tracked-weaken, Tracked, IsTracked, pin_key-IsTracked, drop_key-IsTracked, retain_key-Tracked,
}
use quail.Pages.Evicting.{pop_retained_victim-IsTracked}
use quail.Pages.Arena.{
  PageArena, is_resident, free_key, pin, retain, rewind, alloc_from, borrow_plan,
}
use quail.Pages.Attached.{Attached, freed-Attached, borrow_plan-Lends}

module _ {K P : Type 0} ⦃e : Eq K⦄ where
  abbrev pub RetainedResident : Pool K → Retention K P → Type 0
  RetainedResident pool r = (k : K) → has k r.retained ≡ true → has k pool.owned ≡ true

  -- The page, slot and retention invariants; only resident keys hold slots or are retained.
  -- The keys in `pending` wait for their heap entries.
  pub record Sound (pending : List K) (a : PageArena K P) : Type 0 where
    pub pages : Holding.IsValid a.pool
    pub slot_table : Slots.IsValid a.slot_table
    pub tracked : Tracked pending a.retention
    pub attached : Attached a.pool a.slot_table
    pub retained : RetainedResident a.pool a.retention

  abbrev pub IsSound : PageArena K P → Type 0
  IsSound a = Sound [] a

  -- A page operation under which every resident key stays.
  pub pool-IsSound :
      (a : PageArena K P) (pool : Pool K)
      → IsSound a
      → Holding.IsValid pool
      → ((k : K) → is_resident a k ≡ true → has k pool.owned ≡ true)
      → IsSound (record a { pool = pool })
  pool-IsSound a pool v pages stays = record {
    pages = pages;
    slot_table = v.slot_table;
    tracked = v.tracked;
    attached = record {
      slots = λ k h. stays k (v.attached.slots k h);
      extensions = λ k h. stays k (v.attached.extensions k h);
      shares = λ k n h. stays k (v.attached.shares k n h);
    };
    retained = λ k h. stays k (v.retained k h);
  }

  pub slots-IsSound :
      (a : PageArena K P) (t : Slots K)
      → IsSound a
      → Slots.IsValid t × Attached a.pool t
      → IsSound (record a { slot_table = t })
  slots-IsSound a t v w = record {
    pages = v.pages;
    slot_table = w.0;
    tracked = v.tracked;
    attached = w.1;
    retained = v.retained;
  }

  pub retention-IsSound :
      (a : PageArena K P) (r : Retention K P)
      → IsSound a
      → IsTracked r
      → RetainedResident a.pool r
      → IsSound (record a { retention = r })
  retention-IsSound a r v w s = record {
    pages = v.pages;
    slot_table = v.slot_table;
    tracked = w;
    attached = v.attached;
    retained = s;
  }

  pub alloc-IsSound :
      (a : PageArena K P) (key : K) (tokens : ℕ) (capacity_tokens : Option ℕ)
      (borrow : Option (K × ℕ × ℕ)) (plan : Result (List ℕ))
      → borrow_plan a.pool borrow ≡ plan
      → IsSound a
      → IsSound (record a { pool = alloc_from a.pool key tokens capacity_tokens plan })
  alloc-IsSound a key tokens capacity_tokens borrow (err x) h v = v
  alloc-IsSound a key tokens capacity_tokens borrow (ok borrowed) h v =
      pool-IsSound a _ v
        (alloc-IsValid a.pool key tokens capacity_tokens borrowed v.pages
          (borrow_plan-Lends a.pool borrow borrowed v.pages h))
        (λ k r. alloc_resident a.pool key k r tokens capacity_tokens borrowed)

  pub free_key-IsSound : (a : PageArena K P) (key : K) → IsSound a → IsSound (free_key a key).1
  unfolding free_key drop_key forget_retained
  free_key-IsSound a key v = elim (Bool-cases (is_resident a key)) [
    | inl resident ↦ rw resident (record {
      pages = free_pages_of-IsValid a.pool key v.pages;
      slot_table = Slots.free_slots_of-IsValid key a.slot_table v.slot_table;
      tracked = drop_key-IsTracked key a.retention v.tracked;
      attached =
          freed-Attached a.pool _ a.slot_table key v.attached
            (λ k other h. free_resident a.pool key k h other);
      retained = λ k h.
          free_resident a.pool key k
            (v.retained k (ground (arith, lookup-pop key k a.retention.retained)))
            (ground (arith, lookup-pop key k a.retention.retained));
    })
    | inr missing ↦ rw missing (
        slots-IsSound a _ v (
          Slots.free_slots_of-IsValid key a.slot_table v.slot_table,
          freed-Attached a.pool a.pool a.slot_table key v.attached (λ k _ h. h),
        ))
  ]

  pub pin-IsSound : (a : PageArena K P) (key : K) → IsSound a → IsSound (pin a key).1
  unfolding pin pin_key forget_retained
  pin-IsSound a key v = elim (Bool-cases (is_resident a key)) [
    | inl resident ↦ rw resident (
        retention-IsSound a _ v (pin_key-IsTracked key a.retention v.tracked)
          (λ k h. v.retained k (ground (arith, lookup-pop key k a.retention.retained))))
    | inr missing ↦ rw missing v
  ]

  retained-forget_victim :
      (victim : Option (Entry K P)) (r : Retention K P) (k : K)
      → has k (forget_victim victim r).retained ≡ true
      → has k r.retained ≡ true
  unfolding forget_retained
  retained-forget_victim none r k h = h
  retained-forget_victim (some x) r k h = ground (arith, lookup-pop x.key k r.retained)

  module _ (o : Priorities P) where
    pub retained_by :
        (pool : Pool K) (key : K) (tokens pages : ℕ) (priority : Option P) (r : Retention K P)
        → has key pool.owned ≡ true
        → RetainedResident pool r
        → RetainedResident pool (retain_key o key tokens pages priority r)
    unfolding retain_key forget_retained
    retained_by pool key tokens pages priority r resident v k h = ground (
      arith,
      e.same_iff key k,
      lookup-put key k tokens (pop key r.retained),
      lookup-pop key k r.retained,
      v k,
    )

    pub victim-IsSound :
        (a : PageArena K P) (keep : List K)
        → IsSound a
        → IsSound (record a { retention = (pop_retained_victim o keep a.retention).1 })
    victim-IsSound a keep v =
        retention-IsSound a _ v (pop_retained_victim-IsTracked o keep a.retention v.tracked) (λ k h.
          v.retained k (unfold pop_retained_victim in retained-forget_victim _ a.retention k h))

    pub retain-Sound :
        {pending : List K} (a : PageArena K P) (key : K) (priority : Option P)
        → Sound (key ∷ pending) a
        → is_resident a key ≡ true
        → Sound pending (retain o a key priority).1
    unfolding retain
    retain-Sound a key priority v resident = rw resident (record {
      pages = v.pages;
      slot_table = v.slot_table;
      tracked = retain_key-Tracked o key _ _ priority a.retention v.tracked;
      attached = v.attached;
      retained = retained_by a.pool key _ _ priority a.retention resident v.retained;
    })

    pub retain-IsSound :
        (a : PageArena K P) (key : K) (priority : Option P)
        → IsSound a
        → IsSound (retain o a key priority).1
    retain-IsSound a key priority v = elim (Bool-cases (is_resident a key)) [
      | inl resident ↦
          retain-Sound a key priority
            (record {
              pages = v.pages;
              slot_table = v.slot_table;
              tracked = Tracked-weaken v.tracked;
              attached = v.attached;
              retained = v.retained;
            })
            resident
      | inr missing ↦ unfold retain in rw missing v
    ]

    pub rewind-IsSound :
        (a : PageArena K P) (key : K) (tokens : ℕ) → IsSound a → IsSound (rewind o a key tokens).1
    rewind-IsSound a key tokens v = unfold rewind in go (Pool.rewind_pages a.pool key tokens).0
      where
        a' : PageArena K P
        a' = record a { pool = (Pool.rewind_pages a.pool key tokens).1 }

        w : IsSound a'
        w =
            pool-IsSound a _ v (rewind_pages-IsValid a.pool key tokens v.pages)
              (λ k r. rewind_resident a.pool key k r tokens)

        go :
            (freed : Result ℕ)
            → IsSound (
                let r : Result ℕ × PageArena K P = elim freed [
                  | err x ↦ (err x, a')
                  | ok n ↦
                      (ok n, if has key a.retention.retained then (retain o a' key none).1 else a')
                ] in
                r.1)
        go (err x) = w
        go (ok n) = elim (Bool-cases (has key a.retention.retained)) [
          | inl kept ↦ rw kept (retain-IsSound a' key none w)
          | inr forgotten ↦ rw forgotten w
        ]
