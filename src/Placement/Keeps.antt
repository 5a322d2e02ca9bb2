-- ===== src/Placement/Keeps.antt =====
-- quail/logical/placement.py: the placed parts together accept the rows that the conditions accept.
use quail.Prelude.{
  ℕ, suc, ◌≡◌, inl, inr, refl, sym, ap, subst, ◌∙◌, Bool, true, false, ◌&&◌, Option, none, some,
  List, [], ◌∷◌, ◌++◌, nat_eq, is_some, member, Bool-cases, Option-cases, arith,
}
use quail.Dict.{Dict, lookup, put}
use quail.Result.{Result, ok, err, Result-cases}
use quail.Conditions.Syntax.{Condition, Conditions, nil, cons, conjuncts}
use quail.Conditions.Kleene.{Truth, and_kleene, and_all, evaluate, evaluate_each}
use quail.Conditions.Normal.{depth}
use quail.Conditions.Negation.{and_all_cons}
use quail.Conditions.Meaning.{conjuncts-evaluate, normal_form-evaluate}
use quail.Conditions.Fuel.{normalize_total}
use quail.Placement.Place.{
  Expression, Owner, PlacedConditions, nothing_placed, append_to, normalized, one_alias, one_kind,
  reads_label, several, references_of, is_empty, place_on_rows, place_on_table, place_part,
  parts_of, place_parts, place_each, place_conditions,
}

-- A row is accepted just if the condition is true on it.
abbrev pub is_true : Truth → Bool
is_true none = false
is_true (some b) = b

is_true-and_kleene : (x y : Truth) → is_true (and_kleene x y) ≡ (is_true x && is_true y)
unfolding and_kleene
is_true-and_kleene (some true) y = refl
is_true-and_kleene (some false) y = refl
is_true-and_kleene none (some true) = refl
is_true-and_kleene none (some false) = refl
is_true-and_kleene none none = refl

unfoldable pub all_of : {A : Type 0} → (A → Bool) → List A → Bool
all_of f [] = true
all_of f (x ∷ xs) = f x && all_of f xs

all_of-append :
    {A : Type 0} (f : A → Bool) (xs : List A) (x : A)
    → all_of f (xs ++ x ∷ []) ≡ (all_of f xs && f x)
unfolding all_of
all_of-append f [] x = ground arith
all_of-append f (y ∷ ys) x = ground (arith, all_of-append f ys x)

unfoldable pub all_in : {A : Type 0} → (A → Bool) → Dict ℕ (List A) → Bool
all_in f [] = true
all_in f ((key, xs) ∷ d) = all_of f xs && all_in f d

all_in-append_to :
    {A : Type 0} (f : A → Bool) (key : ℕ) (x : A) (d : Dict ℕ (List A))
    → all_in f (append_to key x d) ≡ (all_in f d && f x)
unfolding all_in append_to put lookup all_of
all_in-append_to f key x [] = ground arith
all_in-append_to f key x ((k, xs) ∷ d) =
    ground (arith, all_in-append_to f key x d, all_of-append f xs x)

-- What the tested expressions and the comparisons are on the row.
module _ {V : Type 0} (has_null : Expression → Bool) (compare : Expression → V → Truth) where
  abbrev pub accepts : Condition Expression V → Bool
  accepts c = is_true (evaluate has_null compare c)

  -- The scans, the filters on computed columns and the filter on result rows all accept.
  unfoldable pub all_accept : PlacedConditions V → Bool
  all_accept placed =
      all_in accepts placed.scans
      && (all_in (λ part. accepts part.0) placed.computed && all_of accepts placed.rows)

  unfoldable pub conditions_accept : List (Condition Expression V × Option ℕ) → Bool
  conditions_accept [] = true
  conditions_accept ((c, selectivity) ∷ cs) = accepts c && conditions_accept cs

  unfoldable parts_accept : Conditions Expression V → Bool
  parts_accept nil = true
  parts_accept (cons c cs) = accepts c && parts_accept cs

  parts_accept_all :
      (cs : Conditions Expression V)
      → parts_accept cs ≡ is_true (and_all (evaluate_each has_null compare cs))
  unfolding parts_accept and_all evaluate
  parts_accept_all nil = refl
  parts_accept_all (cons c cs) = rw (parts_accept_all cs) (
      sym (
        ap is_true (and_all_cons (evaluate has_null compare c) (evaluate_each has_null compare cs))
        ∙ is_true-and_kleene (evaluate has_null compare c)
            (and_all (evaluate_each has_null compare cs))))

  normalized-accepts : (c : Condition Expression V) → accepts (normalized c) ≡ accepts c
  normalized-accepts c =
      rw (normalize_total (suc (depth c)) c (omega arith), normalized)
        (ap is_true (normal_form-evaluate has_null compare c))

  parts_of-accept :
      (selectivity : Option ℕ) (c : Condition Expression V)
      → parts_accept (parts_of selectivity c) ≡ accepts c
  parts_of-accept none c =
      parts_accept_all (conjuncts c) ∙ ap is_true (conjuncts-evaluate has_null compare c)
  parts_of-accept (some s) c = unfold parts_accept in ground arith

  module _ (validates : Condition Expression V → Bool) (computed : Dict (ℕ × ℕ) Owner)
      (unnested : List ℕ) where
    -- What placing a part adds to what the placed parts accept.
    Adds : Bool → PlacedConditions V → Result (PlacedConditions V) → Type 0
    Adds b placed (ok after) = all_accept after ≡ (all_accept placed && b)
    Adds b placed (err e) = Unit {0}

    Adds-next :
        (b c : Bool) (placed after : PlacedConditions V) (r : Result (PlacedConditions V))
        → all_accept after ≡ (all_accept placed && b)
        → Adds c after r
        → Adds (b && c) placed r
    unfolding Adds
    Adds-next b c placed after (ok x) h k = ground arith
    Adds-next b c placed after (err x) h k = tt

    nothing_accepts : (b : Bool) → (all_accept nothing_placed && b) ≡ b
    unfolding all_accept all_in all_of
    nothing_accepts b = refl

    on_rows-Adds :
        (selectivity : Option ℕ) (part : Condition Expression V) (owners : List Owner)
        (placed : PlacedConditions V)
        → Adds
            (accepts part)
            placed
            (place_on_rows validates computed unnested selectivity part owners placed)
    unfolding place_on_rows Adds all_accept
    on_rows-Adds selectivity part owners placed =
        elim (Bool-cases (reads_label owners && several owners)) [
          | inl h ↦ rw (h, place_on_rows) tt
          | inr h ↦ elim (Bool-cases (is_some selectivity)) [
            | inl k ↦ rw (h, place_on_rows, k) tt
            | inr k ↦
                rw (h, place_on_rows, k) (ground (arith, all_of-append accepts placed.rows part))
          ]
        ]

    on_table-Adds :
        (table : ℕ) (selectivity : Option ℕ) (part : Condition Expression V) (owners : List Owner)
        (placed : PlacedConditions V)
        → Adds
            (accepts part)
            placed
            (place_on_table validates computed unnested table selectivity part owners placed)
    unfolding place_on_table Adds all_accept
    on_table-Adds table selectivity part owners placed = elim (Bool-cases (member table unnested)) [
      | inl h ↦ rw (h, place_on_table) (on_rows-Adds selectivity part owners placed)
      | inr h ↦ elim (Bool-cases (is_empty owners)) [
        | inl k ↦ elim (Bool-cases (is_some selectivity)) [
          | inl s ↦ rw (h, place_on_table, k, s) tt
          | inr s ↦
              rw (h, place_on_table, k, s)
                (ground (arith, all_in-append_to accepts table part placed.scans))
        ]
        | inr k ↦ elim (Bool-cases (one_kind owners)) [
          | inl o ↦
              rw (h, place_on_table, k, o)
                (ground (
                  arith,
                  all_in-append_to (λ p. accepts p.0) table (part, selectivity) placed.computed,
                ))
          | inr o ↦ rw (h, place_on_table, k, o) (on_rows-Adds selectivity part owners placed)
        ]
      ]
    ]

    part-Adds :
        (selectivity : Option ℕ) (part : Condition Expression V) (placed : PlacedConditions V)
        → Adds
            (accepts part)
            placed
            (place_part validates computed unnested selectivity part placed)
    unfolding place_part Adds
    part-Adds selectivity part placed = elim (Bool-cases (validates part)) [
      | inr h ↦ rw (h, place_part) tt
      | inl h ↦ elim (Option-cases (one_alias (references_of part))) [
        | inl none_is ↦ rw (h, place_part, none_is) (on_rows-Adds selectivity part _ placed)
        | inr (table, is) ↦ rw (h, place_part, is) (on_table-Adds table selectivity part _ placed)
      ]
    ]

    parts-Adds :
        (selectivity : Option ℕ) (parts : Conditions Expression V) (placed : PlacedConditions V)
        → Adds
            (parts_accept parts)
            placed
            (place_parts validates computed unnested selectivity parts placed)
    unfolding place_parts Adds parts_accept
    parts-Adds selectivity nil placed = ground arith
    parts-Adds selectivity (cons part parts) placed =
        elim (Result-cases (place_part validates computed unnested selectivity part placed)) [
          | inr (x, e) ↦ rw (e, place_parts) tt
          | inl (after, e) ↦
              let first : all_accept after ≡ (all_accept placed && accepts part) =
                subst (Adds (accepts part) placed) e (part-Adds selectivity part placed) in
              rw (e, place_parts)
                (Adds-next (accepts part) (parts_accept parts) placed after
                  (place_parts validates computed unnested selectivity parts after) first
                  (parts-Adds selectivity parts after))
        ]

    each-Adds :
        (conditions : List (Condition Expression V × Option ℕ)) (placed : PlacedConditions V)
        → Adds
            (conditions_accept conditions)
            placed
            (place_each validates computed unnested conditions placed)
    unfolding place_each Adds conditions_accept
    each-Adds [] placed = ground arith
    each-Adds ((condition, selectivity) ∷ conditions) placed =
        let parts = parts_of selectivity (normalized condition) in
        elim (Result-cases (place_parts validates computed unnested selectivity parts placed)) [
          | inr (x, e) ↦ rw (e, place_each) tt
          | inl (after, e) ↦
              let whole =
                parts_of-accept selectivity (normalized condition) ∙ normalized-accepts condition in
              let added : all_accept after ≡ (all_accept placed && parts_accept parts) =
                subst (Adds (parts_accept parts) placed) e (parts-Adds selectivity parts placed) in
              rw (e, place_each)
                (Adds-next (accepts condition) (conditions_accept conditions) placed after
                  (place_each validates computed unnested conditions after)
                  (added ∙ ap (λ b. all_accept placed && b) whole) (each-Adds conditions after))
        ]

    -- When `place_conditions` raises nothing, a row that all the conditions accept is one that all the
    -- placed parts accept, those at the scans, those on computed columns and those on result rows,
    -- and the other way round: nothing is lost, added or weakened, whatever is computed or unnested.
    pub place_conditions-accept :
        (conditions : List (Condition Expression V × Option ℕ)) (placed : PlacedConditions V)
        → place_conditions validates computed unnested conditions ≡ ok placed
        → all_accept placed ≡ conditions_accept conditions
    unfolding Adds
    place_conditions-accept conditions placed e =
        subst (Adds (conditions_accept conditions) nothing_placed) e
          (each-Adds conditions nothing_placed)
        ∙ nothing_accepts (conditions_accept conditions)
