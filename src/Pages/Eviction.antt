-- ===== src/Pages/Eviction.antt =====
-- quail/backends/quail/executor/pages.py: what `pop_retained_victim` answers.
use quail.Prelude.{
  ℕ, zero, suc, ◌≤◌, ◌≡◌, Bool, true, false, not, ◌&&◌, Option, none, some, List, [], ◌∷◌, ◌++◌, Eq,
  arith, length, Bool-cases, Option-cases, inl, inr,
}
use quail.Dict.{Dict}
use quail.Pages.Heap.{
  Priorities, IsOrdered, Entry, entry_lt, heappop, All, heappop-none, length-heappop, All-heappop,
  heappop-least,
}
use quail.Pages.Retention.{among, is_live, pick_victim}

module _ {K P : Type 0} ⦃e : Eq K⦄ where
  -- An entry that counts, and whose key the caller does not keep.
  abbrev pub is_candidate : List K → Dict K ℕ → Entry K P → Bool
  is_candidate keep versions x = is_live versions x && not (among x.key keep)

  abbrev pub Chosen :
      Priorities P → List K → Dict K ℕ → List (Entry K P) → Option (Entry K P) → Type 0
  Chosen o keep versions heap none = All (λ y. is_candidate keep versions y ≡ false) heap
  Chosen o keep versions heap (some x) =
      (is_candidate keep versions x ≡ true)
      × All (λ y. is_candidate keep versions y ≡ true → entry_lt o y x ≡ false) heap

  module _ {o : Priorities P} (ord : IsOrdered o) (keep : List K) (versions : Dict K ℕ) where
    weaken :
        (x : Entry K P) (heap : List (Entry K P))
        → All (λ y. entry_lt o y x ≡ false) heap
        → All (λ y. is_candidate keep versions y ≡ true → entry_lt o y x ≡ false) heap
    weaken x [] h = tt
    weaken x (y ∷ heap) h = (λ _. h.0, weaken x heap h.1)

    -- An entry that is no candidate changes no choice.
    skip :
        (m : Entry K P) (heap rest : List (Entry K P)) (chosen : Option (Entry K P))
        → heappop o heap ≡ some (m, rest)
        → is_candidate keep versions m ≡ false
        → Chosen o keep versions rest chosen
        → Chosen o keep versions heap chosen
    skip m heap rest none popped no_candidate c =
        (All-heappop o _ heap rest m popped).1 (no_candidate, c)
    skip m heap rest (some x) popped no_candidate c =
        (c.0, (All-heappop o _ heap rest m popped).1 ((λ t. cc), c.1))

    entry_lt_irrefl : (x : Entry K P) → entry_lt o x x ≡ false
    unfolding entry_lt
    entry_lt_irrefl x = ground (arith, ord.asym x.priority x.priority)

    pub pick_victim-Chosen :
        (fuel : ℕ) (passed heap : List (Entry K P))
        → length heap ≤ fuel
        → Chosen o keep versions heap (pick_victim o fuel keep versions passed heap).victim
    unfolding pick_victim
    pick_victim-Chosen zero passed [] h = tt
    pick_victim-Chosen zero passed (x ∷ heap) h = absurd (omega arith)
    pick_victim-Chosen (suc fuel) passed heap h = elim (Option-cases (heappop o heap)) [
      | inl empty ↦ rw (empty, pick_victim) (rw (heappop-none o heap empty) tt)
      | inr ((x, rest), popped) ↦
          let shorter : length rest ≤ fuel = omega (arith, length-heappop o heap rest x popped) in
          elim (Bool-cases (is_live versions x)) [
            | inr stale ↦
                rw (popped, pick_victim, stale)
                  (skip x heap rest _ popped (rw stale)
                    (pick_victim-Chosen fuel passed rest shorter))
            | inl live ↦ elim (Bool-cases (among x.key keep)) [
              | inl kept ↦
                  rw (popped, pick_victim, live, kept)
                    (skip x heap rest _ popped (rw (live, kept))
                      (pick_victim-Chosen fuel (passed ++ x ∷ []) rest shorter))
              | inr wanted ↦
                  rw (popped, pick_victim, live, wanted)
                    (
                      rw (live, wanted),
                      (All-heappop o _ heap rest x popped).1 (
                        (λ _. entry_lt_irrefl x),
                        weaken x rest (heappop-least ord heap rest x popped),
                      ),
                    )
            ]
          ]
    ]
