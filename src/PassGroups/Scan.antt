-- ===== src/PassGroups/Scan.antt =====
-- quail/cost/packing.py: the inner loop finds a cheapest last group.
use quail.Prelude.{
  ℕ, zero, suc, ◌+◌, ◌-◌, ◌≤◌, ◌<◌, ◌≡◌, ◌⊎◌, inl, inr, refl, sym, ap, ◌∙◌, true, false, Option,
  none, some, List, [], ◌∷◌, if◌then◌else◌, length, take, drop, map, arith, Bool-cases,
  Option-cases, ◌==◌, ==_iff, subst,
}
use quail.PassGroups.Choose.{
  Prices, Request, sum, with_headers, group_of, fits, is_less, price_of, cost_of, scan,
}

-- Floats that are no NaN: `<` is a strict weak order, and a sum keeps it.
pub record AreOrdered {C R : Type 0} (o : Prices C R) : Type 0 where
  pub asym : (a b : C) → o.less a b ≡ true → o.less b a ≡ false
  pub cotrans : (a b c : C) → o.less a b ≡ false → o.less b c ≡ false → o.less a c ≡ false
  pub monotone : (a b c : C) → o.less a b ≡ false → o.less (o.plus a c) (o.plus b c) ≡ false

drop-suc : (a : ℕ) (xs : List ℕ) → drop (suc a) xs ≡ drop 1 (drop a xs)
drop-suc zero xs = refl
drop-suc (suc a) [] = refl
drop-suc (suc a) (x ∷ xs) = drop-suc a xs

shorter :
    (header : ℕ) (ns : List ℕ)
    → (length (with_headers header (drop 1 ns)) ≤ length (with_headers header ns))
      × (sum (with_headers header (drop 1 ns)) ≤ sum (with_headers header ns))
shorter header [] = (omega arith, omega arith)
shorter header (n ∷ []) = (omega arith, omega arith)
shorter header (n ∷ k ∷ ns) = (omega arith, omega arith)

module _ {R : Type 0} (q : Request R) where
  group_suc :
      (a b : ℕ)
      → group_of q (suc a) b
        ≡ with_headers q.header (drop 1 (drop a (take b (map (λ x. x.tokens) q.questions))))
  group_suc a b = ap (with_headers q.header) (drop-suc a (take b (map (λ x. x.tokens) q.questions)))

  pub fits_later : (a b : ℕ) → fits q a b ≡ true → fits q (suc a) b ≡ true
  fits_later a b h =
      let less = shorter q.header (drop a (take b (map (λ x. x.tokens) q.questions))) in
      rw (group_suc a b) (ground (arith, less))

  fits_above : (n a b : ℕ) → fits q a b ≡ true → fits q (n + a) b ≡ true
  fits_above zero a b h = let same : 0 + a ≡ a = omega arith in ap (λ k. fits q k b) same ∙ h
  fits_above (suc n) a b h =
      let same : suc n + a ≡ suc (n + a) = omega arith in
      ap (λ k. fits q k b) same ∙ fits_later (n + a) b (fits_above n a b h)

  -- No group that starts earlier fits where one does not.
  too_long : (a k b : ℕ) → fits q a b ≡ false → k ≤ a → fits q k b ≡ true → false ≡ true
  too_long a k b long low short =
      let same : (a - k) + k ≡ a = omega arith in
      sym long ∙ sym (ap (λ n. fits q n b) same) ∙ fits_above (a - k) k b short

module _ {C R : Type 0} (o : Prices C R) where
  -- The best that is found so far, after the group that starts at a is looked at.
  abbrev pub next_found : Request R → (ℕ → Option C) → ℕ → ℕ → Option C × ℕ → Option C × ℕ
  next_found q best b a found =
      let cost = cost_of o q a b (best a) in if is_less o cost found.0 then (cost, suc a) else found

  pub scan-suc :
      (q : Request R) (best : ℕ → Option C) (b a : ℕ) (found : Option C × ℕ)
      → scan o q best b (suc a) found
        ≡ (if fits q a b then scan o q best b a (next_found q best b a found) else found)
  unfolding scan
  scan-suc q best b a found = refl

module _ {C R : Type 0} (o : Prices C R) (laws : AreOrdered o) where
  is_less_asym : (x y : Option C) → is_less o x y ≡ true → is_less o y x ≡ false
  is_less_asym none y h = absurd (ground arith)
  is_less_asym (some a) none h = refl
  is_less_asym (some a) (some b) h = laws.asym a b h

  pub is_less_trans :
      (x y z : Option C) → is_less o x y ≡ false → is_less o y z ≡ false → is_less o x z ≡ false
  is_less_trans none y z h g = refl
  is_less_trans (some a) none z h g = absurd (ground arith)
  is_less_trans (some a) (some b) none h g = absurd (ground arith)
  is_less_trans (some a) (some b) (some c) h g = laws.cotrans a b c h g

  pub is_less_self : (x : Option C) → is_less o x x ≡ false
  is_less_self x = elim (Bool-cases (is_less o x x)) [
    | inl less ↦ is_less_asym x x less
    | inr kept ↦ kept
  ]

  -- A group that ends at b, with the cost and the start that the loop writes for it.
  pub record Chosen (q : Request R) (best : ℕ → Option C) (b : ℕ) (found : Option C × ℕ)
      : Type 0 where
    pub first : ℕ
    pub cost : C
    pub is_early : first < b
    pub is_short : fits q first b ≡ true
    pub before : best first ≡ some cost
    pub is_found : found ≡ (some (o.plus cost (price_of o q first b)), suc first)

  next_found-Chosen :
      (q : Request R) (best : ℕ → Option C) (b a : ℕ) (found : Option C × ℕ)
      → a < b
      → fits q a b ≡ true
      → (found.0 ≡ none) ⊎ Chosen q best b found
      → ((next_found o q best b a found).0 ≡ none) ⊎ Chosen q best b (next_found o q best b a found)
  next_found-Chosen q best b a found early short h =
      elim (Bool-cases (is_less o (cost_of o q a b (best a)) found.0)) [
        | inr kept ↦ rw kept h
        | inl less ↦ elim (Option-cases (best a)) [
          | inl absent ↦ rw (less, absent) (inl refl)
          | inr (c, before) ↦ rw less (
              inr (record {
                first = a;
                cost = c;
                is_early = early;
                is_short = short;
                before = before;
                is_found = rw before refl;
              }))
        ]
      ]

  pub scan-Chosen :
      (q : Request R) (best : ℕ → Option C) (b a : ℕ) (found : Option C × ℕ)
      → a ≤ b
      → (found.0 ≡ none) ⊎ Chosen q best b found
      → ((scan o q best b a found).0 ≡ none) ⊎ Chosen q best b (scan o q best b a found)
  unfolding scan
  scan-Chosen q best b zero found low h = h
  scan-Chosen q best b (suc a) found low h = elim (Bool-cases (fits q a b)) [
    | inr long ↦ rw (scan-suc o q best b a found, long) h
    | inl short ↦
        rw (scan-suc o q best b a found, short)
          (scan-Chosen q best b a (next_found o q best b a found) (omega arith)
            (next_found-Chosen q best b a found (omega arith) short h))
  ]

  next_found_least :
      (q : Request R) (best : ℕ → Option C) (b a : ℕ) (found : Option C × ℕ)
      → (is_less o found.0 (next_found o q best b a found).0 ≡ false)
        × (is_less o (cost_of o q a b (best a)) (next_found o q best b a found).0 ≡ false)
  next_found_least q best b a found =
      elim (Bool-cases (is_less o (cost_of o q a b (best a)) found.0)) [
        | inr kept ↦ rw kept (is_less_self found.0, kept)
        | inl less ↦ rw less (is_less_asym _ found.0 less, is_less_self _)
      ]

  -- What the loop finds is no more than what it had found, and no more than any group that fits.
  pub scan_least :
      (q : Request R) (best : ℕ → Option C) (b a : ℕ) (found : Option C × ℕ)
      → (is_less o found.0 (scan o q best b a found).0 ≡ false)
        × ((k : ℕ)
            → k < a
            → fits q k b ≡ true
            → is_less o (cost_of o q k b (best k)) (scan o q best b a found).0 ≡ false)
  unfolding scan
  scan_least q best b zero found = (is_less_self found.0, λ k low. absurd (omega arith))
  scan_least q best b (suc a) found = elim (Bool-cases (fits q a b)) [
    | inr long ↦
        rw (scan-suc o q best b a found, long)
          (
            is_less_self found.0,
            λ k low short. absurd (ground (arith, too_long q a k b long (omega arith) short)),
          )
    | inl short ↦
        let next = next_found o q best b a found in
        let (here, mine) = next_found_least q best b a found in
        let (later, others) = scan_least q best b a next in
        rw (scan-suc o q best b a found, short)
          (
            is_less_trans found.0 next.0 _ here later,
            λ k low fit. elim (Bool-cases (k == a)) [
              | inl is_a ↦
                  let same : a ≡ k = sym ((==_iff k a).0 is_a) in
                  subst
                    (λ n. is_less o (cost_of o q n b (best n)) (scan o q best b a next).0 ≡ false)
                    same (is_less_trans _ next.0 _ mine later)
              | inr apart ↦ others k (ground arith) fit
            ],
          )
  ]
