-- ===== src/PassGroups/Least.antt =====
-- quail/cost/packing.py: `choose_pass_groups` gives a cheapest split, or raises.
use quail.Prelude.{
  ℕ, zero, suc, ◌+◌, ◌<◌, ◌≡◌, inl, refl, sym, ap, ◌∙◌, true, false, some, List, arith, length, map,
  reverse, subst,
}
use quail.Result.{ok, err, chain, value_error}
use quail.PassGroups.Choose.{
  Prices, Request, range, fits, empty_table, trace, label_all, choose_pass_groups,
}
use quail.PassGroups.Scan.{AreOrdered, is_less_self}
use quail.PassGroups.Splits.{Split, IsLeast, Filled, Split-zero}
use quail.PassGroups.Rounds.{Rows, fill-Rows, trace-Split, fill_raises}
use quail.PassGroups.Labels.{ended, label_all-ended}

map-range :
    (f g : ℕ → ℕ) (first n : ℕ)
    → ((k : ℕ) → k < first + n → f k ≡ g k)
    → map f (range first n) ≡ map g (range first n)
map-range f g first zero h = refl
map-range f g first (suc n) h =
    let here = h first (omega arith) in
    let rest = map-range f g (suc first) n (λ k low. h k (omega arith)) in cc

module _ {C R : Type 0} (o : Prices C R) (laws : AreOrdered o) where
  start-Rows : (q : Request R) → Rows o laws q (empty_table o) 1
  start-Rows q k low =
      let zero_k : 0 ≡ k = omega arith in
      subst (Filled o laws q (empty_table o)) zero_k (record {
        cost = o.nothing;
        is_best = refl;
        least = λ other bounds split.
            subst (λ c. o.less c o.nothing ≡ false)
              (sym (Split-zero o laws q 0 other bounds split refl))
              (is_less_self o laws (some o.nothing));
        chosen = inl (refl, refl);
      })

  -- With costs that are ordered as floats that are no NaN, and questions that each fit a pass alone:
  -- `choose_pass_groups` returns, and its labels are those of a split of the chain into consecutive
  -- groups that fit, each position with the number of groups before its own. No such split costs less.
  pub choose_pass_groups-IsLeast :
      (q : Request R)
      → ((k : ℕ) → k < length q.questions → fits q k (suc k) ≡ true)
      → (cost : C) × (bounds : List (ℕ × ℕ)) × Split o q (length q.questions) cost bounds
        × (choose_pass_groups o q
            ≡ ok (map (λ position. ended position bounds) (range 0 (length q.questions))))
        × IsLeast o q (length q.questions) cost
  unfolding choose_pass_groups
  choose_pass_groups-IsLeast q alone =
      let m = length q.questions in
      let (t, done, rows) =
        fill-Rows o laws q m 0 (empty_table o) (start-Rows q)
          (λ k low high. alone k (omega arith)) in
      let row = rows m (omega arith) in
      let bounds = trace t.start m m in
      let split =
        trace-Split o laws q t m m row.cost (λ k low. rows k (omega arith)) (omega arith)
          row.is_best in
      (
        row.cost,
        bounds,
        split,
        ap
              (λ r. chain r λ t.
                ok (map (label_all 0 (reverse (trace t.start m m)) (λ position. 0)) (range 0 m)))
              done
            ∙ ap ok (
                map-range (label_all 0 (reverse bounds) (λ position. 0)) (λ p. ended p bounds) 0 m
                  (λ k low. label_all-ended o q m row.cost bounds k split (omega arith))),
        row.least,
      )

module _ {C R : Type 0} (o : Prices C R) where
  -- `choose_pass_groups` raises ValueError where a question does not fit a pass alone.
  pub choose_pass_groups_raises :
      (q : Request R) (k : ℕ)
      → k < length q.questions
      → fits q k (suc k) ≡ false
      → choose_pass_groups o q ≡ err value_error
  unfolding choose_pass_groups
  choose_pass_groups_raises q k low long =
      ap
        (λ r. chain r λ t. ok (
          map
            (label_all 0 (reverse (trace t.start (length q.questions) (length q.questions)))
              (λ position. 0))
            (range 0 (length q.questions))))
        (fill_raises o q (length q.questions) 0 k (empty_table o) (omega arith) (omega arith) long)
