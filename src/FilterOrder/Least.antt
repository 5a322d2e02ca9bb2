-- ===== src/FilterOrder/Least.antt =====
-- quail/planner/search/filter_order.py: no predicate starts a sequence that costs less.
use quail.Prelude.{
  ℕ, ◌≤◌, ◌≡◌, refl, sym, ap, subst, Bool, true, false, List, [], ◌∷◌, arith, ltb, length, map,
  if◌then◌else◌, keep_if, Bool-cases, inl, inr,
}
use quail.Pages.Heap.{All}
use quail.FilterOrder.Choose.{
  Floats, Predicate, by_cost, Residency, Candidate, is_before, candidate_of, least_candidate,
  starters, best_from, order_filters_indexed,
}
use quail.FilterOrder.Permutes.{least_candidate-All}
use quail.Search.Levels
use quail.Search.Levels.{Among}

-- Floats that are no NaN.
pub record IsOrdered {F : Type 0} (o : Floats F) : Type 0 where
  pub asym : (a b : F) → o.less a b ≡ true → o.less b a ≡ false
  pub cotrans : (a b c : F) → o.less b a ≡ false → o.less c b ≡ false → o.less c a ≡ false

module _ {F : Type 0} (o : Floats F) (ord : IsOrdered o) where
  -- No candidate costs less than c.
  abbrev NoneLess : F → List (Candidate F) → Type 0
  NoneLess total candidates = All (λ d. o.less d.total total ≡ false) candidates

  less_self : (a : F) → o.less a a ≡ false
  less_self a = elim (Bool-cases (o.less a a)) [ inl less ↦ ord.asym a a less | inr kept ↦ kept ]

  -- One that is not before c costs no less than c.
  before_or_kept :
      (c d : Candidate F) (b : Bool)
      → is_before o d.total d.first c.total c.first ≡ b
      → (o.less c.total (if b then d else c).total ≡ false)
        × (o.less d.total (if b then d else c).total ≡ false)
  before_or_kept c d true h = (ground (arith, ord.asym d.total c.total, h), less_self d.total)
  before_or_kept c d false h = (less_self c.total, ground (arith, h))

  least_candidate-NoneLess :
      (c : Candidate F) (candidates : List (Candidate F))
      → NoneLess (least_candidate o c candidates).total (c ∷ candidates)
  unfolding least_candidate
  least_candidate-NoneLess c [] = (less_self c.total, tt)
  least_candidate-NoneLess c (d ∷ candidates) =
      let b = is_before o d.total d.first c.total c.first in
      let next = if b then d else c in
      let final = least_candidate o next candidates in
      let (kept, rest) = least_candidate-NoneLess next candidates in
      let (left, right) = before_or_kept c d b refl in
      (
        ord.cotrans final.total next.total c.total kept left,
        (ord.cotrans final.total next.total d.total kept right, rest),
      )

  module _ (resident : Residency) (rows : F) (predicates : List (Predicate F)) where
    -- The walk from one of the starters.
    pub record Started (some_of : List (Predicate F)) (c : Candidate F) : Type 0 where
      pub start : Predicate F
      pub among : Among start some_of
      pub rejects : o.less start.selectivity o.one ≡ true
      pub is_walk : c ≡ candidate_of o resident rows predicates start

    All-Started :
        (all some_of : List (Predicate F))
        → ((p : Predicate F) → Among p some_of → Among p all)
        → All (λ p. o.less p.selectivity o.one ≡ true) some_of
        → All (Started all) (map (candidate_of o resident rows predicates) some_of)
    All-Started all [] within rejects = tt
    All-Started all (p ∷ some_of) within rejects = (
      record {
        start = p;
        among = within p (Levels.first some_of);
        rejects = rejects.0;
        is_walk = refl;
      },
      All-Started all some_of (λ q among. within q (Levels.later p some_of among)) rejects.1,
    )

    starters_reject :
        (some_of : List (Predicate F))
        → All
            (λ p. o.less p.selectivity o.one ≡ true)
            (keep_if (λ p. o.less p.selectivity o.one) some_of)
    starters_reject [] = tt
    starters_reject (p ∷ some_of) = elim (Bool-cases (o.less p.selectivity o.one)) [
      | inl rejects ↦ rw rejects (rejects, starters_reject some_of)
      | inr keeps ↦ rw keeps (starters_reject some_of)
    ]

    -- The walk from one of the starters that costs no more than those from all of them.
    pub record IsCheapest (order : List ℕ) (some_of : List (Predicate F)) : Type 0 where
      pub start : Predicate F
      pub among : Among start some_of
      pub rejects : o.less start.selectivity o.one ≡ true
      pub is_order : order ≡ (candidate_of o resident rows predicates start).ordered
      pub no_less :
          All
            (λ d. o.less d.total (candidate_of o resident rows predicates start).total ≡ false)
            (map (candidate_of o resident rows predicates) some_of)

    best_from-IsCheapest :
        (p : Predicate F) (some_of : List (Predicate F))
        → All (λ q. o.less q.selectivity o.one ≡ true) (p ∷ some_of)
        → IsCheapest (best_from o resident rows predicates (p ∷ some_of)) (p ∷ some_of)
    best_from-IsCheapest p some_of rejects =
        let first = candidate_of o resident rows predicates p in
        let others = map (candidate_of o resident rows predicates) some_of in
        let walks = All-Started (p ∷ some_of) (p ∷ some_of) (λ q among. among) rejects in
        let won = least_candidate-All o (Started (p ∷ some_of)) first others walks.0 walks.1 in
        record {
          start = won.start;
          among = won.among;
          rejects = won.rejects;
          is_order = ap (λ c. c.ordered) won.is_walk;
          no_less =
              subst (λ c. NoneLess c.total (first ∷ others)) won.is_walk
                (least_candidate-NoneLess first others);
        }

    -- Where floats are no NaN, with the rule "by_cost", and at least two predicates of which one
    -- rejects something: the order is the walk from one of the predicates that reject something, and
    -- the walk from no other such predicate has a lower total.
    pub order_filters_indexed-IsCheapest :
        (p : Predicate F) (some_of : List (Predicate F))
        → 2 ≤ length predicates
        → starters o predicates ≡ p ∷ some_of
        → IsCheapest
            (order_filters_indexed o predicates by_cost rows resident)
            (starters o predicates)
    unfolding order_filters_indexed
    order_filters_indexed-IsCheapest p some_of several is =
        let long : ltb (length predicates) 2 ≡ false = ground arith in
        let rejects =
          subst (All (λ q. o.less q.selectivity o.one ≡ true)) is (starters_reject predicates) in
        rw long (
          subst (λ ps. IsCheapest (best_from o resident rows predicates ps) ps) (sym is)
            (best_from-IsCheapest p some_of rejects))
