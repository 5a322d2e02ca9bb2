-- ===== src/Pages/Heap.antt =====
-- quail/backends/quail/executor/pages.py: the retained heap, whose entries are the tuples
-- `(priority, version, key, pages, prefix_tokens)`. Python's `heapq` is part of its standard
-- library: a push adds an entry and a pop takes a least one out, in the order of tuples. Versions
-- are never used twice, so the fields behind the version are never compared.
use quail.Prelude.{
  ℕ, suc, ◌+◌, ◌≡◌, ◌↔◌, refl, Bool, true, false, Option, none, some, List, [], ◌∷◌, if◌then◌else◌,
  arith, ltb, Option-cases, inl, inr, length,
}

-- Priorities are tuples of floats: their order, and the quotient of two integers as a priority.
pub record Priorities (P : Type 0) : Type 0 where
  pub before : P → P → Bool
  pub ratio : ℕ → ℕ → P

-- The order of floats that are no NaN is a strict weak order.
pub record IsOrdered {P : Type 0} (o : Priorities P) : Type 0 where
  pub asym : (a b : P) → o.before a b ≡ true → o.before b a ≡ false
  pub cotrans : (a b c : P) → o.before b a ≡ false → o.before c b ≡ false → o.before c a ≡ false

pub record Entry (K P : Type 0) : Type 0 where
  pub priority : P
  pub version : ℕ
  pub key : K
  pub pages : ℕ
  pub prefix_tokens : ℕ

module _ {K P : Type 0} (o : Priorities P) where
  -- `a < b` on tuples.
  unfoldable pub entry_lt : Entry K P → Entry K P → Bool
  entry_lt a b =
      if o.before a.priority b.priority
      then true
      else if o.before b.priority a.priority
      then false
      else ltb a.version b.version

  -- `heapq.heappop`: a least entry and the others; `none` on the empty heap.
  unfoldable pub heappop : List (Entry K P) → Option (Entry K P × List (Entry K P))
  unfolding entry_lt
  heappop [] = none
  heappop (x ∷ heap) = elim (heappop heap) [
    | none ↦ some (x, heap)
    | some (m, rest) ↦ if entry_lt m x then some (m, x ∷ rest) else some (x, m ∷ rest)
  ]

-- `for entry in passed: heapq.heappush(heap, entry)`
unfoldable pub heappush_all :
    {K P : Type 0} → List (Entry K P) → List (Entry K P) → List (Entry K P)
heappush_all [] heap = heap
heappush_all (x ∷ passed) heap = heappush_all passed (x ∷ heap)

abbrev pub All {ℓ κ} : {A : Type ℓ} → (A → Type κ) → List A → Type κ
All Q [] = Unit
All Q (x ∷ xs) = Q x × All Q xs

-- The number of entries that pass a test.
abbrev pub tally {ℓ} : {A : Type ℓ} → (A → Bool) → List A → ℕ
tally f [] = 0
tally f (x ∷ xs) = (if f x then 1 else 0) + tally f xs

module _ {K P : Type 0} (o : Priorities P) where
  pub heappop-none : (heap : List (Entry K P)) → heappop o heap ≡ none → heap ≡ []
  unfolding heappop
  heappop-none [] h = refl
  heappop-none (x ∷ heap) h = ground arith

  -- A pop moves one entry out of the heap and loses none.
  pub heappop-tally :
      (f : Entry K P → Bool) (heap rest : List (Entry K P)) (m : Entry K P)
      → heappop o heap ≡ some (m, rest)
      → tally f heap ≡ (if f m then 1 else 0) + tally f rest
  unfolding heappop
  heappop-tally f [] rest m h = cc
  heappop-tally f (x ∷ heap) rest m h = elim (Option-cases (heappop o heap)) [
    | inl e ↦ ground (arith, heappop-none heap e)
    | inr ((n, others), e) ↦ ground (arith, heappop-tally f heap others n e)
  ]

  pub length-heappop :
      (heap rest : List (Entry K P)) (m : Entry K P)
      → heappop o heap ≡ some (m, rest)
      → length heap ≡ suc (length rest)
  unfolding heappop
  length-heappop [] rest m h = cc
  length-heappop (x ∷ heap) rest m h = elim (Option-cases (heappop o heap)) [
    | inl e ↦ ground (arith, heappop-none heap e)
    | inr ((n, others), e) ↦ ground (arith, length-heappop heap others n e)
  ]

  -- What holds of the entry and the others holds of the whole heap, and the other way round.
  pub All-heappop {ℓ} :
      (Q : Entry K P → Type ℓ) (heap rest : List (Entry K P)) (m : Entry K P)
      → heappop o heap ≡ some (m, rest)
      → All Q heap ↔ (Q m × All Q rest)
  unfolding heappop
  All-heappop Q [] rest m h = cc
  All-heappop Q (x ∷ heap) rest m h = elim (Option-cases (heappop o heap)) [
    | inl e ↦ ground (arith, heappop-none heap e)
    | inr ((n, others), e) ↦ ground (arith, All-heappop Q heap others n e)
  ]

module _ {K P : Type 0} {o : Priorities P} (ord : IsOrdered o) where
  entry_lt_asym : (a b : Entry K P) → entry_lt o a b ≡ true → entry_lt o b a ≡ false
  unfolding entry_lt
  entry_lt_asym a b h =
      ground (arith, ord.asym a.priority b.priority, ord.asym b.priority a.priority)

  entry_le_trans :
      (a b c : Entry K P) → entry_lt o b a ≡ false → entry_lt o c b ≡ false → entry_lt o c a ≡ false
  unfolding entry_lt
  entry_le_trans a b c h k = ground (
    arith,
    ord.asym a.priority b.priority,
    ord.asym b.priority a.priority,
    ord.asym b.priority c.priority,
    ord.asym c.priority b.priority,
    ord.asym a.priority c.priority,
    ord.asym c.priority a.priority,
    ord.cotrans a.priority b.priority c.priority,
    ord.cotrans c.priority b.priority a.priority,
    ord.cotrans b.priority c.priority a.priority,
    ord.cotrans b.priority a.priority c.priority,
    ord.cotrans c.priority a.priority b.priority,
  )

  All-le :
      (a b : Entry K P) (heap : List (Entry K P))
      → entry_lt o b a ≡ false
      → All (λ y. entry_lt o y b ≡ false) heap
      → All (λ y. entry_lt o y a ≡ false) heap
  All-le a b [] h k = tt
  All-le a b (x ∷ heap) h k = (entry_le_trans a b x h k.0, All-le a b heap h k.1)

  -- No entry is before the one that a pop takes out.
  pub heappop-least :
      (heap rest : List (Entry K P)) (m : Entry K P)
      → heappop o heap ≡ some (m, rest)
      → All (λ y. entry_lt o y m ≡ false) rest
  unfolding heappop
  heappop-least [] rest m h = cc
  heappop-least (x ∷ heap) rest m h = elim (Option-cases (heappop o heap)) [
    | inl e ↦ ground (arith, heappop-none o heap e)
    | inr ((n, others), e) ↦
        ground (arith, heappop-least heap others n e, entry_lt_asym n x, All-le x n others)
  ]
