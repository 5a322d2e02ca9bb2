-- ===== src/Pages/Slots.antt =====
-- quail/backends/quail/executor/pages.py: the checkpoint slots of the arena. `resident` is the
-- source's test `key in self.owned`; `Pages.Arena` makes it.
use quail.Prelude.{
  ℕ, ◌+◌, ◌≡◌, refl, Bool, true, false, Option, none, some, List, [], ◌∷◌, ◌++◌, ◌==◌,
  if◌then◌else◌, Eq, nat_eq, pair_eq, reverse, count, count-append, count-reverse, arith,
}
use quail.Result.{Result, ok, err, key_error}
use quail.Dict.{Dict, lookup, put, pop, weigh, Uniq, weigh-put, weigh-pop, put-Uniq, pop-Uniq}
use quail.Pages.Pool.{count_up}
use quail.Pages.Holding.{in_range, count-count_up}

pub record Slots {ℓ} (K : Type ℓ) : Type ℓ where
  pub num_slots : ℕ
  pub free_slots : List ℕ
  pub slots : Dict K ℕ
  pub slot_tokens : Dict K ℕ
  pub ext_slots : Dict K ℕ
  pub ext_tokens : Dict K ℕ
  pub share_slots : Dict (K × ℕ) ℕ

unfoldable pub init {ℓ} : {K : Type ℓ} → ℕ → Slots K
unfolding count_up
init num_slots = record {
  num_slots = num_slots;
  free_slots = count_up num_slots 0;
  slots = [];
  slot_tokens = [];
  ext_slots = [];
  ext_tokens = [];
  share_slots = [];
}

-- `self.free_slots.append(slot)` when there is a slot.
abbrev pub give_back : Option ℕ → List ℕ → List ℕ
give_back none free = free
give_back (some slot) free = slot ∷ free

module _ {ℓ} {K : Type ℓ} where
  -- What the three methods below share: a slot that is held already is answered, or else the top of
  -- the free stack is stored by `store`.
  unfoldable pub take_slot :
      Bool → Option ℕ → (ℕ → List ℕ → Slots K) → Slots K → Result (Option ℕ) × Slots K
  take_slot resident held store t =
      if resident
      then elim held [
        | some slot ↦ (ok (some slot), t)
        | none ↦ elim t.free_slots [
          | [] ↦ (ok none, t)
          | slot ∷ rest ↦ (ok (some slot), store slot rest)
        ]
      ]
      else (err key_error, t)

  pub take_slot_cases {κ} :
      (P : Slots K → Type κ) (resident : Bool) (held : Option ℕ) (store : ℕ → List ℕ → Slots K)
      (t : Slots K) (free : List ℕ)
      → t.free_slots ≡ free
      → P t
      → ((slot : ℕ) (rest : List ℕ)
          → resident ≡ true
          → held ≡ none
          → free ≡ slot ∷ rest
          → P (store slot rest))
      → P (take_slot resident held store t).1
  unfolding take_slot
  take_slot_cases P false held store t free f kept stored = kept
  take_slot_cases P true (some slot) store t free f kept stored = kept
  take_slot_cases P true none store t [] f kept stored = rw (f, take_slot) kept
  take_slot_cases P true none store t (slot ∷ rest) f kept stored =
      rw (f, take_slot) (stored slot rest refl refl refl)

module _ {ℓ} {K : Type ℓ} ⦃e : Eq K⦄ where
  unfoldable pub alloc_slot : Bool → K → Slots K → Result (Option ℕ) × Slots K
  unfolding take_slot
  alloc_slot resident key t =
      take_slot resident (lookup key t.slots)
        (λ slot rest. record t { free_slots = rest; slots = put key slot t.slots }) t

  unfoldable pub alloc_extension : Bool → K → Slots K → Result (Option ℕ) × Slots K
  unfolding take_slot
  alloc_extension resident key t =
      take_slot resident (lookup key t.ext_slots)
        (λ slot rest. record t { free_slots = rest; ext_slots = put key slot t.ext_slots }) t

  unfoldable pub alloc_share : Bool → K → ℕ → Slots K → Result (Option ℕ) × Slots K
  unfolding take_slot
  alloc_share resident key tokens t =
      take_slot resident (lookup (key, tokens) t.share_slots)
        (λ slot rest. record t {
          free_slots = rest;
          share_slots = put (key, tokens) slot t.share_slots;
        })
        t

  unfoldable pub drop_extension : K → Slots K → Slots K
  drop_extension key t = record t {
    ext_slots = pop key t.ext_slots;
    ext_tokens = pop key t.ext_tokens;
    free_slots = give_back (lookup key t.ext_slots) t.free_slots;
  }

  -- The slots at the key's points, and the entries at other points.
  unfoldable pub share_of : K → Dict (K × ℕ) ℕ → List ℕ
  share_of key [] = []
  share_of key (((k, tokens), slot) ∷ d) =
      let rest = share_of key d in if e.same k key then slot ∷ rest else rest

  unfoldable pub share_except : K → Dict (K × ℕ) ℕ → Dict (K × ℕ) ℕ
  share_except key [] = []
  share_except key (((k, tokens), slot) ∷ d) =
      let rest = share_except key d in if e.same k key then rest else ((k, tokens), slot) ∷ rest

  -- The slot part of `free_key`.
  unfoldable pub free_slots_of : K → Slots K → Slots K
  unfolding drop_extension
  free_slots_of key t =
      let without = record t { slots = pop key t.slots; slot_tokens = pop key t.slot_tokens } in
      let dropped = drop_extension key without in
      record dropped {
        share_slots = share_except key dropped.share_slots;
        free_slots =
            give_back (lookup key t.slots)
              (reverse (share_of key dropped.share_slots) ++ dropped.free_slots);
      }

-- 1 if the slot is this one.
abbrev pub is_slot : ℕ → ℕ → ℕ
is_slot s slot = if slot == s then 1 else 0

module _ {ℓ} {K : Type ℓ} ⦃e : Eq K⦄ where
  -- Each slot of the arena is free, or held by one key for one purpose.
  pub record IsValid (t : Slots K) : Type ℓ where
    pub uniq_slots : Uniq t.slots
    pub uniq_ext : Uniq t.ext_slots
    pub placed :
        (s : ℕ)
        → count s t.free_slots
            + weigh (is_slot s) t.slots
            + weigh (is_slot s) t.ext_slots
            + weigh (is_slot s) t.share_slots
          ≡ in_range s t.num_slots

  weigh-share_except :
      (s : ℕ) (key : K) (d : Dict (K × ℕ) ℕ)
      → weigh (is_slot s) (share_except key d) + count s (share_of key d) ≡ weigh (is_slot s) d
  unfolding share_except share_of weigh
  weigh-share_except s key [] = omega arith
  weigh-share_except s key (((k, tokens), slot) ∷ d) = ground (arith, weigh-share_except s key d)

  -- A key takes a free slot, or keeps the one that it has.
  pub alloc_slot-IsValid :
      (resident : Bool) (key : K) (t : Slots K) → IsValid t → IsValid (alloc_slot resident key t).1
  alloc_slot-IsValid resident key t v =
      unfold alloc_slot in
      take_slot_cases IsValid resident (lookup key t.slots) _ t t.free_slots refl v
        λ slot rest resident_key fresh top. record {
          uniq_slots = put-Uniq key slot t.slots v.uniq_slots;
          uniq_ext = v.uniq_ext;
          placed = λ s. ground (arith, v.placed s, weigh-put (is_slot s) key slot t.slots, top);
        }

  pub alloc_extension-IsValid :
      (resident : Bool) (key : K) (t : Slots K)
      → IsValid t
      → IsValid (alloc_extension resident key t).1
  alloc_extension-IsValid resident key t v =
      unfold alloc_extension in
      take_slot_cases IsValid resident (lookup key t.ext_slots) _ t t.free_slots refl v
        λ slot rest resident_key fresh top. record {
          uniq_slots = v.uniq_slots;
          uniq_ext = put-Uniq key slot t.ext_slots v.uniq_ext;
          placed = λ s. ground (arith, v.placed s, weigh-put (is_slot s) key slot t.ext_slots, top);
        }

  pub alloc_share-IsValid :
      (resident : Bool) (key : K) (tokens : ℕ) (t : Slots K)
      → IsValid t
      → IsValid (alloc_share resident key tokens t).1
  alloc_share-IsValid resident key tokens t v =
      unfold alloc_share in
      take_slot_cases IsValid resident (lookup (key, tokens) t.share_slots) _ t t.free_slots refl v
        λ slot rest resident_key fresh top. record {
          uniq_slots = v.uniq_slots;
          uniq_ext = v.uniq_ext;
          placed = λ s.
              ground
                (arith, v.placed s, weigh-put (is_slot s) (key, tokens) slot t.share_slots, top);
        }

  pub drop_extension-IsValid : (key : K) (t : Slots K) → IsValid t → IsValid (drop_extension key t)
  unfolding drop_extension
  drop_extension-IsValid key t v = record {
    uniq_slots = v.uniq_slots;
    uniq_ext = pop-Uniq key t.ext_slots v.uniq_ext;
    placed = λ s. ground (arith, v.placed s, weigh-pop (is_slot s) key t.ext_slots v.uniq_ext);
  }

  pub free_slots_of-IsValid : (key : K) (t : Slots K) → IsValid t → IsValid (free_slots_of key t)
  unfolding free_slots_of
  free_slots_of-IsValid key t v = record {
    uniq_slots = pop-Uniq key t.slots v.uniq_slots;
    uniq_ext = pop-Uniq key t.ext_slots v.uniq_ext;
    placed = λ s. ground (
      arith,
      v.placed s,
      weigh-pop (is_slot s) key t.slots v.uniq_slots,
      weigh-pop (is_slot s) key t.ext_slots v.uniq_ext,
      weigh-share_except s key t.share_slots,
      count-reverse s (share_of key t.share_slots),
      count-append s (reverse (share_of key t.share_slots))
          (give_back (lookup key t.ext_slots) t.free_slots),
    );
  }

-- A new arena has every slot free.
pub init-IsValid {ℓ} : {K : Type ℓ} ⦃e : Eq K⦄ (num_slots : ℕ) → IsValid (init {K = K} num_slots)
unfolding init weigh
init-IsValid num_slots = record {
  uniq_slots = tt;
  uniq_ext = tt;
  placed = λ s. ground (arith, count-count_up s num_slots 0);
}
