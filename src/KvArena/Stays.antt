-- ===== src/KvArena/Stays.antt =====
-- quail/backends/quail/executor/arena.py: two arenas that agree on a key.
use quail.Prelude.{
  ℕ, ◌≡◌, refl, ◌∙◌, false, ◌||◌, Option, none, some, List, [], ◌∷◌, Eq, arith, Bool-cases, inl,
  inr, ◌++◌, map, nat_eq, pair_eq,
}
use quail.Dict.{Dict, lookup, has, lookup-pop}
use quail.Pages.Pool.{Pool, free_pages_of}
use quail.Pages.Slots.{Slots, drop_extension, share_except, free_slots_of}
use quail.Pages.Retention.{among, discard, drop_key, forget_retained}
use quail.Pages.Tracking.{among-discard}
use quail.Pages.Arena
use quail.Pages.Arena.{PageArena, is_resident}
use quail.KvArena.State.{KvArena}
use quail.KvArena.Holds.{is_kept}
use quail.KvArena.Evict.{keep_of}

module _ {K : Type 0} ⦃e : Eq K⦄ where
  -- Two pools have the same table for a key.
  abbrev pub SameTable : K → Pool K → Pool K → Type 0
  SameTable k p q =
      (lookup k q.owned ≡ lookup k p.owned)
      × (lookup k q.borrowed ≡ lookup k p.borrowed)
      × (lookup k q.tokens ≡ lookup k p.tokens)

  free_pages_of-SameTable :
      (key k : K) (p : Pool K) → e.same key k ≡ false → SameTable k p (free_pages_of p key).1
  unfolding free_pages_of
  free_pages_of-SameTable key k p other =
      ground
        (arith, lookup-pop key k p.owned, lookup-pop key k p.borrowed, lookup-pop key k p.tokens)

  -- Two arenas have the same slots for a key, and the same tokens recorded for them.
  pub record SameSlots (k : K) (t u : Slots K) : Type 0 where
    pub slots : lookup k u.slots ≡ lookup k t.slots
    pub slot_tokens : lookup k u.slot_tokens ≡ lookup k t.slot_tokens
    pub ext_slots : lookup k u.ext_slots ≡ lookup k t.ext_slots
    pub ext_tokens : lookup k u.ext_tokens ≡ lookup k t.ext_tokens
    pub share_slots : (n : ℕ) → lookup (k, n) u.share_slots ≡ lookup (k, n) t.share_slots

  pub SameSlots-refl : (k : K) (t : Slots K) → SameSlots k t t
  SameSlots-refl k t = record {
    slots = refl;
    slot_tokens = refl;
    ext_slots = refl;
    ext_tokens = refl;
    share_slots = λ n. refl;
  }

  SameSlots-trans : (k : K) (t u v : Slots K) → SameSlots k t u → SameSlots k u v → SameSlots k t v
  SameSlots-trans k t u v h g = record {
    slots = g.slots ∙ h.slots;
    slot_tokens = g.slot_tokens ∙ h.slot_tokens;
    ext_slots = g.ext_slots ∙ h.ext_slots;
    ext_tokens = g.ext_tokens ∙ h.ext_tokens;
    share_slots = λ n. g.share_slots n ∙ h.share_slots n;
  }

  lookup-share_except :
      (key k : K) (n : ℕ) (d : Dict (K × ℕ) ℕ)
      → e.same key k ≡ false
      → lookup (k, n) (share_except key d) ≡ lookup (k, n) d
  unfolding share_except lookup
  lookup-share_except key k n [] other = refl
  lookup-share_except key k n (((j, m), slot) ∷ d) other = ground (
    arith,
    lookup-share_except key k n d other,
    e.same_iff key k,
    e.same_iff j k,
    e.same_iff j key,
  )

  free_slots_of-SameSlots :
      (key k : K) (t : Slots K) → e.same key k ≡ false → SameSlots k t (free_slots_of key t)
  unfolding free_slots_of drop_extension
  free_slots_of-SameSlots key k t other = record {
    slots = rw (lookup-pop key k t.slots, other) refl;
    slot_tokens = rw (lookup-pop key k t.slot_tokens, other) refl;
    ext_slots = rw (lookup-pop key k t.ext_slots, other) refl;
    ext_tokens = rw (lookup-pop key k t.ext_tokens, other) refl;
    share_slots = λ n. lookup-share_except key k n t.share_slots other;
  }

  pub among-discard_other :
      (key k : K) (ks : List K) → e.same key k ≡ false → among k (discard key ks) ≡ among k ks
  among-discard_other key k ks other = rw (among-discard key k ks, other) refl

  among-map : (k : K) (d : Dict K ℕ) → among k (map (λ entry. entry.0) d) ≡ has k d
  unfolding lookup
  among-map k [] = refl
  among-map k ((j, n) ∷ d) = ground (arith, among-map k d)

  among-append : (k : K) (xs ys : List K) → among k (xs ++ ys) ≡ (among k xs || among k ys)
  among-append k [] ys = refl
  among-append k (x ∷ xs) ys = ground (arith, among-append k xs ys)

module _ {K P : Type 0} ⦃e : Eq K⦄ where
  pub keep_of-is_kept : (s : KvArena K P) (k : K) → among k (keep_of s) ≡ is_kept s k
  keep_of-is_kept s k = ground (
    arith,
    among-append k (map (λ entry. entry.0) s.holds) (map (λ entry. entry.0) s.reading),
    among-map k s.holds,
    among-map k s.reading,
  )

  -- Two accountings agree on a key.
  abbrev pub Agree : K → PageArena K P → PageArena K P → Type 0
  Agree k a b =
      SameTable k a.pool b.pool
      × SameSlots k a.slot_table b.slot_table
      × (has k b.retention.retained ≡ has k a.retention.retained)

  pub free_key-Agree :
      (key k : K) (a : PageArena K P) → e.same key k ≡ false → Agree k a (Arena.free_key a key).1
  unfolding Arena.free_key drop_key forget_retained free_slots_of
  free_key-Agree key k a other = elim (Bool-cases (is_resident a key)) [
    | inl resident ↦ rw resident (
      free_pages_of-SameTable key k a.pool other,
      free_slots_of-SameSlots key k a.slot_table other,
      ground (arith, lookup-pop key k a.retention.retained),
    )
    | inr missing ↦
        rw missing ((refl, refl, refl), free_slots_of-SameSlots key k a.slot_table other, refl)
  ]

  pub Agree-refl : (k : K) (a : PageArena K P) → Agree k a a
  Agree-refl k a = ((refl, refl, refl), SameSlots-refl k a.slot_table, refl)

  Agree-trans : (k : K) (a b c : PageArena K P) → Agree k a b → Agree k b c → Agree k a c
  Agree-trans k a b c ((o, w, n), slots, r) ((o', w', n'), slots', r') = (
    (o' ∙ o, w' ∙ w, n' ∙ n),
    SameSlots-trans k a.slot_table b.slot_table c.slot_table slots slots',
    r' ∙ r,
  )

  abbrev pub AgreeSliding : K → Option (PageArena K P) → Option (PageArena K P) → Type 0
  AgreeSliding k none none = Unit
  AgreeSliding k (some a) (some b) = Agree k a b
  AgreeSliding k _ _ = ⊥

  -- The arena has the same of a key in both states, and the same holds and readers.
  pub record Stays (k : K) (s t : KvArena K P) : Type 0 where
    pub full : Agree k s.accounting t.accounting
    pub sliding : AgreeSliding k s.sliding t.sliding
    pub rows : lookup k t.rows ≡ lookup k s.rows
    pub kept_rows : lookup k t.kept_rows ≡ lookup k s.kept_rows
    pub stale : among k t.stale_rows ≡ among k s.stale_rows
    pub sliding_rows : lookup k t.sliding_rows ≡ lookup k s.sliding_rows
    pub floor : lookup k t.window_floor ≡ lookup k s.window_floor
    pub trimmed : among k t.trimmed ≡ among k s.trimmed
    pub base : lookup k t.base ≡ lookup k s.base
    pub start : lookup k t.sliding_start ≡ lookup k s.sliding_start
    pub holds : t.holds ≡ s.holds
    pub reading : t.reading ≡ s.reading

  pub AgreeSliding-refl : (k : K) (a : Option (PageArena K P)) → AgreeSliding k a a
  AgreeSliding-refl k none = tt
  AgreeSliding-refl k (some a) = Agree-refl k a

  AgreeSliding-trans :
      (k : K) (a b c : Option (PageArena K P))
      → AgreeSliding k a b
      → AgreeSliding k b c
      → AgreeSliding k a c
  AgreeSliding-trans k none none none h g = tt
  AgreeSliding-trans k (some a) (some b) (some c) h g = Agree-trans k a b c h g
  AgreeSliding-trans k none none (some c) h g = g
  AgreeSliding-trans k none (some b) c h g = absurd h
  AgreeSliding-trans k (some a) none c h g = absurd h
  AgreeSliding-trans k (some a) (some b) none h g = g

  pub Stays-refl : (k : K) (s : KvArena K P) → Stays k s s
  Stays-refl k s = record {
    full = Agree-refl k s.accounting;
    sliding = AgreeSliding-refl k s.sliding;
    rows = refl;
    kept_rows = refl;
    stale = refl;
    sliding_rows = refl;
    floor = refl;
    trimmed = refl;
    base = refl;
    start = refl;
    holds = refl;
    reading = refl;
  }

  pub Stays-trans : (k : K) (s t u : KvArena K P) → Stays k s t → Stays k t u → Stays k s u
  Stays-trans k s t u h g = record {
    full = Agree-trans k s.accounting t.accounting u.accounting h.full g.full;
    sliding = AgreeSliding-trans k s.sliding t.sliding u.sliding h.sliding g.sliding;
    rows = g.rows ∙ h.rows;
    kept_rows = g.kept_rows ∙ h.kept_rows;
    stale = g.stale ∙ h.stale;
    sliding_rows = g.sliding_rows ∙ h.sliding_rows;
    floor = g.floor ∙ h.floor;
    trimmed = g.trimmed ∙ h.trimmed;
    base = g.base ∙ h.base;
    start = g.start ∙ h.start;
    holds = g.holds ∙ h.holds;
    reading = g.reading ∙ h.reading;
  }
