-- ===== src/PassGroups/Splits.antt =====
-- quail/cost/packing.py: the outer loop finds the cheapest split of every prefix of the chain.
use quail.Prelude.{
  ℕ, suc, ◌≤◌, ◌<◌, ◌≡◌, ◌⊎◌, inl, inr, refl, sym, ap, ◌∙◌, true, false, Option, some, List, [],
  ◌∷◌, arith, subst,
}
use quail.PassGroups.Choose.{Prices, Request, Table, set_at, fits, is_less, price_of, cost_of}
use quail.PassGroups.Scan.{AreOrdered, Chosen}

-- The table after a round.
abbrev pub written : {C : Type 0} → Table C → ℕ → Option C × ℕ → Table C
written t b found = record t { best = set_at b found.0 t.best; start = set_at b found.1 t.start }

module _ {C R : Type 0} (o : Prices C R) where
  -- A split of the first b questions into consecutive groups that fit, with its cost, and its groups
  -- from the last to the first as `bounds` has them.
  pub data Split (q : Request R) : ℕ → C → List (ℕ × ℕ) → Type 0 where
    nothing_left : Split q 0 o.nothing []
    one_more :
        (a b : ℕ) (cost : C) (bounds : List (ℕ × ℕ))
        → Split q a cost bounds
        → a < b
        → fits q a b ≡ true
        → Split q b (o.plus cost (price_of o q a b)) ((suc a, b) ∷ bounds)

  -- No split of the first b questions costs less.
  abbrev pub IsLeast : Request R → ℕ → C → Type 0
  IsLeast q b cost =
      (other : C) (bounds : List (ℕ × ℕ)) → Split q b other bounds → o.less other cost ≡ false

module _ {C R : Type 0} (o : Prices C R) (laws : AreOrdered o) where
  -- The table has the cost of a cheapest split at b, and the start of its last group.
  pub record Filled (q : Request R) (t : Table C) (b : ℕ) : Type 0 where
    pub cost : C
    pub is_best : t.best b ≡ some cost
    pub least : IsLeast o q b cost
    pub chosen : ((b ≡ 0) × (cost ≡ o.nothing)) ⊎ Chosen o laws q t.best b (t.best b, t.start b)

  pub Split-zero :
      (q : Request R) (b : ℕ) (cost : C) (bounds : List (ℕ × ℕ))
      → Split o q b cost bounds
      → b ≡ 0
      → cost ≡ o.nothing
  Split-zero q _ _ _ nothing_left h = refl
  Split-zero q _ _ _ (one_more a b cost bounds rest low short) h = absurd (omega arith)

  pub Split-least :
      (q : Request R) (t : Table C) (b : ℕ) (found : C) (other : C) (bounds : List (ℕ × ℕ))
      → ((k : ℕ) → k < b → Filled q t k)
      → 0 < b
      → ((k : ℕ)
          → k < b
          → fits q k b ≡ true
          → is_less o (cost_of o q k b (t.best k)) (some found) ≡ false)
      → Split o q b other bounds
      → o.less other found ≡ false
  Split-least q t _ found _ _ filled positive least nothing_left = absurd (omega arith)
  Split-least q t _ found _ _ filled positive least (one_more a b cost bounds rest low short) =
      let row = filled a low in
      let cheaper = laws.monotone cost row.cost (price_of o q a b) (row.least cost bounds rest) in
      let last : is_less o (cost_of o q a b (some row.cost)) (some found) ≡ false =
        subst (λ x. is_less o (cost_of o q a b x) (some found) ≡ false) row.is_best
          (least a low short) in
      laws.cotrans _ _ _ cheaper last

  set_other : {A : Type 0} (b k : ℕ) (x : A) (xs : ℕ → A) → k < b → set_at b x xs k ≡ xs k
  set_other b k x xs low = ground arith

  set_own : {A : Type 0} (b : ℕ) (x : A) (xs : ℕ → A) → set_at b x xs b ≡ x
  set_own b x xs = ground arith

  Chosen-set_at :
      (q : Request R) (best : ℕ → Option C) (b k : ℕ) (x : Option C) (found : Option C × ℕ)
      → k ≤ b
      → Chosen o laws q best k found
      → Chosen o laws q (set_at b x best) k found
  Chosen-set_at q best b k x found low h = record {
    first = h.first;
    cost = h.cost;
    is_early = h.is_early;
    is_short = h.is_short;
    before = let early = h.is_early in set_other b h.first x best (omega arith) ∙ h.before;
    is_found = h.is_found;
  }

  pub written_before :
      (q : Request R) (t : Table C) (b k : ℕ) (found : Option C × ℕ)
      → k < b
      → Filled q t k
      → Filled q (written t b found) k
  written_before q t b k found low h = record {
    cost = h.cost;
    is_best = set_other b k found.0 t.best low ∙ h.is_best;
    least = h.least;
    chosen = elim h.chosen [
      | inl first ↦ inl first
      | inr last ↦ inr (
          subst (λ row. Chosen o laws q (set_at b found.0 t.best) k row)
            (sym (
              ap (λ x. (x, set_at b found.1 t.start k)) (set_other b k found.0 t.best low)
              ∙ ap (λ n. (t.best k, n)) (set_other b k found.1 t.start low)))
            (Chosen-set_at q t.best b k found.0 _ (omega arith) last))
    ];
  }

  pub written_here :
      (q : Request R) (t : Table C) (b : ℕ) (cost : C) (start : ℕ)
      → IsLeast o q b cost
      → Chosen o laws q t.best b (some cost, start)
      → Filled q (written t b (some cost, start)) b
  written_here q t b cost start least last = record {
    cost = cost;
    is_best = set_own b (some cost) t.best;
    least = least;
    chosen = inr (
        subst (λ row. Chosen o laws q (set_at b (some cost) t.best) b row)
          (sym (
            ap (λ x. (x, set_at b start t.start b)) (set_own b (some cost) t.best)
            ∙ ap (λ n. (some cost, n)) (set_own b start t.start)))
          (Chosen-set_at q t.best b b (some cost) _ (omega arith) last));
  }
