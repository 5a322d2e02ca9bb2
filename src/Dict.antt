-- ===== src/Dict.antt =====
-- Python's `dict`: its entries in insertion order. A write to a key that is there keeps its place.
use quail.Prelude.{
  ℕ, ◌+◌, ◌≡◌, refl, Bool, false, Option, none, some, List, [], ◌∷◌, arith, Eq, is_some,
  if◌then◌else◌,
}

abbrev pub Dict {ℓ κ} : Type ℓ → Type κ → Type (ℓ ⊔ κ)
Dict K V = List (K × V)

-- What the entry of a key weighs, 0 if there is none.
abbrev pub at {κ} : {V : Type κ} → (V → ℕ) → Option V → ℕ
at f none = 0
at f (some v) = f v

-- The sum of a weight over the values: `sum(f(v) for v in d.values())`.
unfoldable pub weigh {ℓ κ} : {K : Type ℓ} {V : Type κ} → (V → ℕ) → Dict K V → ℕ
weigh f [] = 0
weigh f ((k, v) ∷ d) = f v + weigh f d

module _ {ℓ κ} {K : Type ℓ} {V : Type κ} ⦃e : Eq K⦄ where
  -- d.get(k)
  unfoldable pub lookup : K → Dict K V → Option V
  lookup k [] = none
  lookup k ((j, v) ∷ d) = if e.same j k then some v else lookup k d

  -- k in d
  abbrev pub has : K → Dict K V → Bool
  has k d = is_some (lookup k d)

  -- d[k] = v
  unfoldable pub put : K → V → Dict K V → Dict K V
  put k v [] = (k, v) ∷ []
  put k v ((j, w) ∷ d) = if e.same j k then (j, v) ∷ d else (j, w) ∷ put k v d

  -- d.pop(k, None)
  unfoldable pub pop : K → Dict K V → Dict K V
  pop k [] = []
  pop k ((j, w) ∷ d) = let rest = pop k d in if e.same j k then rest else (j, w) ∷ rest

  pub lookup-put :
      (k j : K) (v : V) (d : Dict K V)
      → lookup j (put k v d) ≡ (if e.same k j then some v else lookup j d)
  unfolding lookup put
  lookup-put k j v [] = refl
  lookup-put k j v ((i, w) ∷ d) =
      ground (arith, e.same_iff k j, e.same_iff i k, e.same_iff i j, lookup-put k j v d)

  pub lookup-put_own : (k : K) (v : V) (d : Dict K V) → lookup k (put k v d) ≡ some v
  lookup-put_own k v d = rw (lookup-put k k v d, (e.same_iff k k).1 refl)

  pub lookup-put_other :
      (k j : K) (v : V) (d : Dict K V) → e.same k j ≡ false → lookup j (put k v d) ≡ lookup j d
  lookup-put_other k j v d apart = rw (lookup-put k j v d, apart)

  pub lookup-pop :
      (k j : K) (d : Dict K V) → lookup j (pop k d) ≡ (if e.same k j then none else lookup j d)
  unfolding lookup pop
  lookup-pop k j [] = ground arith
  lookup-pop k j ((i, w) ∷ d) =
      ground (arith, e.same_iff k j, e.same_iff i k, e.same_iff i j, lookup-pop k j d)

  -- Every key stands once.
  abbrev pub Uniq : Dict K V → Type κ
  Uniq [] = Unit
  Uniq ((k, v) ∷ d) = (lookup k d ≡ none) × Uniq d

  pub put-Uniq : (k : K) (v : V) (d : Dict K V) → Uniq d → Uniq (put k v d)
  unfolding lookup put
  put-Uniq k v [] u = (refl, tt)
  put-Uniq k v ((j, w) ∷ d) u =
      ground (arith, e.same_iff j k, e.same_iff k j, lookup-put k j v d, put-Uniq k v d u.1)

  pub pop-Uniq : (k : K) (d : Dict K V) → Uniq d → Uniq (pop k d)
  unfolding lookup pop
  pop-Uniq k [] u = tt
  pop-Uniq k ((j, w) ∷ d) u =
      ground (arith, e.same_iff j k, e.same_iff k j, lookup-pop k j d, pop-Uniq k d u.1)

  pub weigh-put :
      (f : V → ℕ) (k : K) (v : V) (d : Dict K V)
      → weigh f (put k v d) + at f (lookup k d) ≡ weigh f d + f v
  unfolding weigh put lookup
  weigh-put f k v [] = omega arith
  weigh-put f k v ((j, w) ∷ d) = ground (arith, weigh-put f k v d)

  pub pop_absent : (k : K) (d : Dict K V) → lookup k d ≡ none → pop k d ≡ d
  unfolding pop lookup
  pop_absent k [] h = refl
  pop_absent k ((j, w) ∷ d) h = ground (arith, pop_absent k d)

  pub weigh-pop :
      (f : V → ℕ) (k : K) (d : Dict K V)
      → Uniq d
      → weigh f (pop k d) + at f (lookup k d) ≡ weigh f d
  unfolding weigh pop lookup
  weigh-pop f k [] u = omega arith
  weigh-pop f k ((j, w) ∷ d) u = ground (arith, e.same_iff j k, weigh-pop f k d u.1, pop_absent k d)
