-- ===== src/PassGroups/Labels.antt =====
-- quail/cost/packing.py: the last loop numbers the groups in chain order.
use quail.Prelude.{
  ℕ, zero, suc, ◌+◌, ◌-◌, ◌≤◌, ◌<◌, ◌≡◌, inl, inr, refl, ap, ◌∙◌, ◌&&◌, List, [], ◌∷◌, ◌++◌, leb,
  ltb, if◌then◌else◌, arith, Bool-cases, length, reverse, length-append,
}
use mathlib.Core.List.{reverse-cons}
use quail.PassGroups.Choose.{Prices, Request, set_at, range, label_each, label_all}
use quail.PassGroups.Splits.{Split, nothing_left, one_more}

-- The number of groups that end at or before a position, whose end b comes after it.
abbrev pub ended : ℕ → List (ℕ × ℕ) → ℕ
ended position [] = 0
ended position ((a, b) ∷ bounds) = (if leb b position then 1 else 0) + ended position bounds

label_each-range :
    (first n index : ℕ) (groups : ℕ → ℕ) (position : ℕ)
    → label_each (range first n) index groups position
      ≡ (if leb first position && ltb position (first + n) then index else groups position)
unfolding label_each
label_each-range first zero index groups position = ground arith
label_each-range first (suc n) index groups position =
    label_each-range (suc first) n index (set_at first index groups) position ∙ ground arith

label_all-append :
    (index : ℕ) (bounds : List (ℕ × ℕ)) (a b : ℕ) (groups : ℕ → ℕ)
    → label_all index (bounds ++ (a, b) ∷ []) groups
      ≡ label_each
          (range (a - 1) (b - (a - 1)))
          (index + length bounds)
          (label_all index bounds groups)
unfolding label_all
label_all-append index [] a b groups =
    let same : index ≡ index + 0 = omega arith in
    ap (λ n. label_each (range (a - 1) (b - (a - 1))) n groups) same
label_all-append index ((c, d) ∷ bounds) a b groups =
    let first = label_each (range (c - 1) (d - (c - 1))) index groups in
    let same : suc index + length bounds ≡ index + suc (length bounds) = omega arith in
    label_all-append (suc index) bounds a b first
    ∙ ap (λ n. label_each (range (a - 1) (b - (a - 1))) n (label_all (suc index) bounds first)) same

length-reverse : {A : Type 0} (xs : List A) → length (reverse xs) ≡ length xs
length-reverse [] = refl
length-reverse (x ∷ xs) =
    rw (reverse-cons x xs) (omega (arith, length-append (reverse xs) (x ∷ []), length-reverse xs))

module _ {C R : Type 0} (o : Prices C R) (q : Request R) where
  ended_all :
      (b : ℕ) (cost : C) (bounds : List (ℕ × ℕ)) (position : ℕ)
      → Split o q b cost bounds
      → b ≤ position
      → ended position bounds ≡ length bounds
  ended_all _ _ _ position nothing_left low = refl
  ended_all _ _ _ position (one_more a b cost bounds rest early short) low =
      let before = ended_all a cost bounds position rest (omega arith) in ground arith

  -- A position has the number of the groups before its own.
  pub label_all-ended :
      (b : ℕ) (cost : C) (bounds : List (ℕ × ℕ)) (position : ℕ)
      → Split o q b cost bounds
      → position < b
      → label_all 0 (reverse bounds) (λ p. 0) position ≡ ended position bounds
  label_all-ended _ _ _ position nothing_left low = absurd (omega arith)
  label_all-ended _ _ _ position (one_more a b cost bounds rest early short) low =
      let groups = label_all 0 (reverse bounds) (λ p. 0) in
      ap (λ bs. label_all 0 bs (λ p. 0) position) (reverse-cons (suc a, b) bounds)
      ∙ ap (λ f. f position) (label_all-append 0 (reverse bounds) (suc a) b (λ p. 0))
      ∙ label_each-range (suc a - 1) (b - (suc a - 1)) (0 + length (reverse bounds)) groups position
      ∙ elim (Bool-cases (leb a position)) [
        | inl inside ↦
            let all = ended_all a cost bounds position rest (ground arith) in
            let size = length-reverse bounds in ground arith
        | inr outside ↦
            let before = label_all-ended a cost bounds position rest (ground arith) in ground arith
      ]
