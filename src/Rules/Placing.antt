-- ===== src/Rules/Placing.antt =====
-- quail/planner/rules/tree_transforms.py: a filter that `_place_filter` moves keeps the rows.
use quail.Prelude.{
  ℕ, ◌≡◌, refl, ap, subst, ◌∙◌, Bool, true, false, Option, none, some, List, [], ◌∷◌, ◌++◌, ==_iff,
  if◌then◌else◌, given, arith, keep_if, map, member,
}
use quail.Rules.Nodes.{
  Node, scan, join, semantic_join, semantic_column, semantic_filter, filter, project, unnest, above,
  full, exists_join, anti_join, Condition, Call, one_table, joined_rows, aliases_of,
}
use quail.Rules.PushDown.{call_lets_through, all_others, is_other, place_filter}
use quail.Rules.Meaning.{Row, World, pairs, answered, passes_all, rows_of, ReadsOneTable}
use quail.Rules.Pairs.{keep_if_comm, keep_if-map, pairs-left, pairs-right}

module _ {D L : Type 0} (w : World D L) (c : Condition) where
  -- The node has the tables of the other, and the rows of it that pass the condition.
  abbrev pub Placed : Node → Node → Type 0
  Placed node placed =
      (aliases_of placed ≡ aliases_of node)
      × (rows_of w placed ≡ keep_if (w.test c) (rows_of w node))

  abbrev pub PlacedIf : Node → Option Node → Type 0
  PlacedIf node o = (placed : Node) → o ≡ some placed → Placed node placed

  -- A node with one child, which lets the filter through where b is true.
  below-Placed :
      (b : Bool) (o : Option Node) (input : Node) (f : Node → Node)
      → PlacedIf input o
      → (b ≡ true → (below : Node) → Placed input below → Placed (f input) (f below))
      → PlacedIf (f input) (if b then given o none (λ below. some (f below)) else none)
  below-Placed true none input f h g placed is = absurd (ground arith)
  below-Placed true (some below) input f h g placed is =
      subst (Placed (f input)) (cc is) (g refl below (h below refl))
  below-Placed false o input f h g placed is = absurd (ground arith)

  either-Placed :
      (b : Bool) (node x y : Node)
      → (b ≡ true → Placed node x)
      → (b ≡ false → Placed node y)
      → PlacedIf node (if b then some x else some y)
  either-Placed true node x y h g placed is = subst (Placed node) (cc is) (h refl)
  either-Placed false node x y h g placed is = subst (Placed node) (cc is) (g refl)

  -- A child of a join, where the filter is placed in it or on top of it.
  child-Placed :
      (o : Option Node) (child : Node)
      → PlacedIf child o
      → Placed child (given o (filter child c) (λ placed. placed))
  unfolding aliases_of rows_of
  child-Placed none child h = (refl, refl)
  child-Placed (some placed) child h = h placed refl

  module _ (alias : ℕ) (one : c.aliases ≡ alias ∷ []) (local : ReadsOneTable w) where
    left-Placed :
        (left below right : Node) (on : ℕ)
        → member alias (aliases_of left) ≡ true
        → Placed left below
        → Placed (join left right on) (join below right on)
    unfolding aliases_of rows_of
    left-Placed left below right on inside (same, rows) = (
      ap (λ names. names ++ aliases_of right) same,
      ap (λ names. keep_if (w.is_equal on) (pairs names (rows_of w below) (rows_of w right))) same
          ∙ ap (λ xs. keep_if (w.is_equal on) (pairs (aliases_of left) xs (rows_of w right))) rows
          ∙ ap (keep_if (w.is_equal on)) (
              pairs-left (w.test c) (aliases_of left) (rows_of w left) (rows_of w right)
                (λ x y. local c alias _ _ one (rw inside refl)))
          ∙ keep_if_comm (w.is_equal on) (w.test c)
              (pairs (aliases_of left) (rows_of w left) (rows_of w right)),
    )

    right-Placed :
        (left right below : Node) (on : ℕ)
        → member alias (aliases_of left) ≡ false
        → Placed right below
        → Placed (join left right on) (join left below on)
    unfolding aliases_of rows_of
    right-Placed left right below on outside (same, rows) = (
      ap (λ names. aliases_of left ++ names) same,
      ap (λ ys. keep_if (w.is_equal on) (pairs (aliases_of left) (rows_of w left) ys)) rows
          ∙ ap (keep_if (w.is_equal on)) (
              pairs-right (w.test c) (aliases_of left) (rows_of w left) (rows_of w right)
                (λ x y. local c alias _ _ one (rw outside refl)))
          ∙ keep_if_comm (w.is_equal on) (w.test c)
              (pairs (aliases_of left) (rows_of w left) (rows_of w right)),
    )

    -- A test that is made before another one, and a test before an answer is added.
    under_test :
        (f : Row D L → Bool) (xs ys : List (Row D L))
        → ys ≡ keep_if (w.test c) xs
        → keep_if f ys ≡ keep_if (w.test c) (keep_if f xs)
    under_test f xs ys rows = ap (keep_if f) rows ∙ keep_if_comm f (w.test c) xs

    answered_same :
        (call : Call) (x : Row D L)
        → call_lets_through call alias ≡ true
        → w.test c (answered w call x) ≡ w.test c x
    answered_same (one_table table prompt) x through =
        local c alias _ _ one (ground (arith, ==_iff table alias, ==_iff alias table))
    answered_same (joined_rows table other prompt) x through = local c alias _ _ one refl

    pub place_filter-Placed : (node : Node) → PlacedIf node (place_filter c node alias)
    unfolding place_filter aliases_of rows_of
    place_filter-Placed (scan table source) placed is = absurd (ground arith)
    place_filter-Placed (join left right on) placed is =
        let in_left = given (place_filter c left alias) (filter left c) (λ below. below) in
        let in_right = given (place_filter c right alias) (filter right c) (λ below. below) in
        either-Placed (member alias (aliases_of left)) (join left right on) (join in_left right on)
          (join left in_right on)
          (λ inside.
            left-Placed left in_left right on inside
              (child-Placed (place_filter c left alias) left (place_filter-Placed left)))
          (λ outside.
            right-Placed left right in_right on outside
              (child-Placed (place_filter c right alias) right (place_filter-Placed right)))
          placed is
    place_filter-Placed (semantic_join input predicate full) placed is =
        below-Placed true (place_filter c input alias) input (λ n. semantic_join n predicate full)
          (place_filter-Placed input)
          (λ b below (same, rows).
            (same, under_test (w.is_asked predicate) (rows_of w input) _ rows))
          placed is
    place_filter-Placed (semantic_join input predicate exists_join) placed is =
        absurd (ground arith)
    place_filter-Placed (semantic_join input predicate anti_join) placed is = absurd (ground arith)
    place_filter-Placed (semantic_column input call) placed is =
        below-Placed (call_lets_through call alias) (place_filter c input alias) input
          (λ n. semantic_column n call) (place_filter-Placed input)
          (λ through below (same, rows). (
            same,
            ap (map (answered w call)) rows
                ∙ keep_if-map (w.test c) (w.test c) (answered w call) (rows_of w input)
                    (λ x. answered_same call x through),
          ))
          placed is
    place_filter-Placed (semantic_filter input predicates) placed is =
        below-Placed (all_others predicates alias) (place_filter c input alias) input
          (λ n. semantic_filter n predicates) (place_filter-Placed input)
          (λ b below (same, rows).
            (same, under_test (passes_all w predicates) (rows_of w input) _ rows))
          placed is
    place_filter-Placed (filter input other) placed is =
        below-Placed (is_other other alias) (place_filter c input alias) input (λ n. filter n other)
          (place_filter-Placed input)
          (λ b below (same, rows). (same, under_test (w.test other) (rows_of w input) _ rows))
          placed is
    place_filter-Placed (project input columns) placed is = absurd (ground arith)
    place_filter-Placed (unnest input columns) placed is = absurd (ground arith)
    place_filter-Placed (above input fields) placed is = absurd (ground arith)
