-- ===== src/PassGroups/Rounds.antt =====
-- quail/cost/packing.py: the rounds of the outer loop, and the walk back over the groups.
use quail.Prelude.{
  ℕ, zero, suc, ◌+◌, ◌-◌, ◌≤◌, ◌<◌, ◌≡◌, inl, inr, refl, sym, ap, ◌∙◌, true, false, Option, none,
  some, [], ◌∷◌, given, given-all, arith, Bool-cases, ◌==◌, ==_iff, subst,
}
use quail.Result.{ok, err, value_error}
use quail.PassGroups.Choose.{
  Prices, Request, Table, fits, is_less, price_of, cost_of, scan, fill, trace,
}
use quail.PassGroups.Scan.{AreOrdered, Chosen, scan-suc, scan-Chosen, scan_least}
use quail.PassGroups.Splits.{
  Split, nothing_left, one_more, IsLeast, Filled, Split-least, written, written_before,
  written_here,
}

module _ {C R : Type 0} (o : Prices C R) where
  fill-suc :
      (q : Request R) (rounds b : ℕ) (t : Table C) (found : Option C × ℕ)
      → scan o q t.best b b (none, 0) ≡ found
      → fill o q (suc rounds) b t
        ≡ given found.0 (err value_error) λ cost. fill o q rounds (suc b) (written t b found)
  unfolding fill
  fill-suc q rounds b t found h = rw h refl

  -- A question that does not fit alone ends the loop with an error.
  pub fill_raises :
      (q : Request R) (rounds b k : ℕ) (t : Table C)
      → b ≤ k
      → k < b + rounds
      → fits q k (suc k) ≡ false
      → fill o q rounds (suc b) t ≡ err value_error
  unfolding fill
  fill_raises q zero b k t low high long = absurd (omega arith)
  fill_raises q (suc rounds) b k t low high long = elim (Bool-cases (k == b)) [
    | inl same ↦
        let here : fits q b (suc b) ≡ false =
          subst (λ n. fits q n (suc n) ≡ false) ((==_iff k b).0 same) long in
        fill-suc q rounds (suc b) t (none, 0)
          (scan-suc o q t.best (suc b) b (none, 0) ∙ rw here refl)
    | inr apart ↦
        let found = scan o q t.best (suc b) (suc b) (none, 0) in
        fill-suc q rounds (suc b) t found refl
        ∙ given-all (λ r. r ≡ err value_error) found.0 (err value_error)
            (λ cost. fill o q rounds (suc (suc b)) (written t (suc b) found)) (λ h. refl)
            (λ cost h.
              fill_raises q rounds (suc b) k (written t (suc b) found) (ground arith) (omega arith)
                long)
  ]

module _ {C R : Type 0} (o : Prices C R) (laws : AreOrdered o) where
  abbrev pub Rows : Request R → Table C → ℕ → Type 0
  Rows q t b = (k : ℕ) → k < b → Filled o laws q t k

  -- Where the last question fits alone, the inner loop finds a cheapest split.
  scan_finds :
      (q : Request R) (t : Table C) (b : ℕ)
      → Rows q t (suc b)
      → fits q b (suc b) ≡ true
      → (cost : C) × IsLeast o q (suc b) cost
        × Chosen o laws q t.best (suc b) (scan o q t.best (suc b) (suc b) (none, 0))
        × ((scan o q t.best (suc b) (suc b) (none, 0)).0 ≡ some cost)
  scan_finds q t b rows alone =
      let r = scan o q t.best (suc b) (suc b) (none, 0) in
      let (start_less, least) = scan_least o laws q t.best (suc b) (suc b) (none, 0) in
      let here = rows b (omega arith) in
      let some_cost = least b (omega arith) alone in
      let cheap : is_less o (cost_of o q b (suc b) (some here.cost)) r.0 ≡ false =
        subst (λ x. is_less o (cost_of o q b (suc b) x) r.0 ≡ false) here.is_best some_cost in
      elim (scan-Chosen o laws q t.best (suc b) (suc b) (none, 0) (omega arith) (inl refl)) [
        | inl absent ↦ absurd (
            ground (
              arith,
              subst (λ x. is_less o (cost_of o q b (suc b) (some here.cost)) x ≡ false) absent
                  cheap,
            ))
        | inr chosen ↦
            let found = ap (λ p. p.0) chosen.is_found in
            (
              o.plus chosen.cost (price_of o q chosen.first (suc b)),
              (λ other bounds split.
                  Split-least o laws q t (suc b) _ other bounds rows (omega arith)
                    (λ k low short.
                      subst (λ x. is_less o (cost_of o q k (suc b) (t.best k)) x ≡ false) found
                        (least k low short))
                    split),
              chosen,
              found,
            )
      ]

  -- A round writes a row that is right.
  Rows-written :
      (q : Request R) (t : Table C) (b : ℕ) (found : Option C × ℕ)
      → Rows q t (suc b)
      → fits q b (suc b) ≡ true
      → scan o q t.best (suc b) (suc b) (none, 0) ≡ found
      → Rows q (written t (suc b) found) (suc (suc b)) × ((cost : C) × (found.0 ≡ some cost))
  Rows-written q t b found rows alone is =
      let (cost, least, chosen, some_cost) = scan_finds q t b rows alone in
      let here : found.0 ≡ some cost = sym (ap (λ p. p.0) is) ∙ some_cost in
      let whole : found ≡ (some cost, found.1) = ap (λ x. (x, found.1)) here in
      (
        (λ k low. elim (Bool-cases (k == suc b)) [
          | inr apart ↦
              written_before o laws q t (suc b) k found (ground arith) (rows k (ground arith))
          | inl same ↦
              subst (λ n. Filled o laws q (written t (suc b) found) n)
                (sym ((==_iff k (suc b)).0 same))
                (subst (λ p. Filled o laws q (written t (suc b) p) (suc b)) (sym whole)
                  (written_here o laws q t (suc b) cost found.1 least
                    (subst (λ p. Chosen o laws q t.best (suc b) p) (is ∙ whole) chosen)))
        ]),
        (cost, here),
      )

  -- Where every question fits alone, the outer loop fills the whole table.
  pub fill-Rows :
      (q : Request R) (rounds b : ℕ) (t : Table C)
      → Rows q t (suc b)
      → ((k : ℕ) → b ≤ k → k < b + rounds → fits q k (suc k) ≡ true)
      → (after : Table C) × (fill o q rounds (suc b) t ≡ ok after) × Rows q after (suc (b + rounds))
  unfolding fill
  fill-Rows q zero b t rows alone = (t, refl, λ k low. rows k (omega arith))
  fill-Rows q (suc rounds) b t rows alone =
      let found = scan o q t.best (suc b) (suc b) (none, 0) in
      let (more, (cost, is)) =
        Rows-written q t b found rows (alone b (omega arith) (omega arith)) refl in
      let (after, done, all) =
        fill-Rows q rounds (suc b) (written t (suc b) found) more
          (λ k low high. alone k (omega arith) (omega arith)) in
      (
        after,
        fill-suc o q rounds (suc b) t found refl
            ∙ ap
                (λ x.
                  given x (err value_error)
                    λ c. fill o q rounds (suc (suc b)) (written t (suc b) found))
                is
            ∙ done,
        λ k low. all k (omega arith),
      )

  some_inj : {A : Type 0} {x y : A} → some x ≡ some y → x ≡ y
  some_inj h = cc h

  start_row :
      (q : Request R) (t : Table C) (cost : C)
      → Rows q t 1
      → t.best 0 ≡ some cost
      → Split o q 0 cost []
  start_row q t cost rows is =
      let row = rows 0 (omega arith) in
      let same : row.cost ≡ cost = some_inj (sym row.is_best ∙ is) in
      elim row.chosen [
        | inl (here, nothing) ↦ subst (λ c. Split o q 0 c []) (sym nothing ∙ same) nothing_left
        | inr last ↦ let early = last.is_early in absurd (omega arith)
      ]

  -- The walk back from a row gives a split that costs what the row says.
  pub trace-Split :
      (q : Request R) (t : Table C) (rounds b : ℕ) (cost : C)
      → Rows q t (suc b)
      → b ≤ rounds
      → t.best b ≡ some cost
      → Split o q b cost (trace t.start rounds b)
  unfolding trace
  trace-Split q t zero zero cost rows low is = start_row q t cost rows is
  trace-Split q t (suc rounds) zero cost rows low is = start_row q t cost rows is
  trace-Split q t zero (suc b) cost rows low is = absurd (omega arith)
  trace-Split q t (suc rounds) (suc b) cost rows low is = elim (rows (suc b) (omega arith)).chosen [
    | inl (empty, none_left) ↦ absurd (omega arith)
    | inr last ↦
        let early = last.is_early in
        let before =
          trace-Split q t rounds last.first last.cost (λ k less. rows k (omega arith)) (omega arith)
            last.before in
        let same : some (o.plus last.cost (price_of o q last.first (suc b))) ≡ some cost =
          sym (ap (λ p. p.0) last.is_found) ∙ is in
        let start : suc last.first ≡ t.start (suc b) = sym (ap (λ p. p.1) last.is_found) in
        let back : last.first ≡ suc last.first - 1 = omega arith in
        subst (λ c. Split o q (suc b) c (trace t.start (suc rounds) (suc b))) (some_inj same)
          (subst
            (λ n.
              Split o q (suc b) (o.plus last.cost (price_of o q last.first (suc b)))
                ((n, suc b) ∷ trace t.start rounds (n - 1)))
            start
            (one_more last.first (suc b) last.cost _
              (subst (λ n. Split o q last.first last.cost (trace t.start rounds n)) back before)
              early last.is_short))
  ]
