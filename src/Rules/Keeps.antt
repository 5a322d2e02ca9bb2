-- ===== src/Rules/Keeps.antt =====
-- quail/planner/rules/tree_transforms.py: `push_down_filters` keeps the rows of a plan.
use quail.Prelude.{
  ℕ, ◌≡◌, inl, inr, refl, sym, ap, subst, ◌∙◌, Bool, true, false, none, some, List, [], ◌∷◌,
  if◌then◌else◌, given, arith, keep_if, map, Bool-cases, Option-cases,
}
use quail.Result.{Result, Result-cases, chain, ok, err}
use quail.Rules.Nodes.{
  Node, scan, join, semantic_join, semantic_column, semantic_filter, filter, project, unnest, above,
  Condition, aliases_of, reads_projection, alias_of, only_one,
}
use quail.Rules.PushDown.{place_filter, visit_filter, visit, push_down_filters}
use quail.Rules.Meaning.{World, pairs, answered, passes_all, joined_by, rows_of, ReadsOneTable}
use quail.Rules.Placing.{Placed, place_filter-Placed}

pub ok_fst : {A B : Type 0} (x : A) (y : B) (r : A × B) → ok (x, y) ≡ ok r → x ≡ r.0
ok_fst x y (a, b) h = ground (arith, h)

pub moved_node :
    (moved : Bool) (node rewritten : Node)
    → ok (if moved then some node else none) ≡ ok (some rewritten)
    → node ≡ rewritten
moved_node true node rewritten h = ground (arith, h)
moved_node false node rewritten h = absurd (ground arith)

only_one_of : (aliases : List ℕ) (alias : ℕ) → only_one aliases ≡ ok alias → aliases ≡ alias ∷ []
only_one_of [] alias h = absurd (ground arith)
only_one_of (a ∷ []) alias h = ground (arith, h)
only_one_of (a ∷ b ∷ rest) alias h = absurd (ground arith)

module _ {D L : Type 0} (w : World D L) (c : Condition) where
  stays-Placed : (input : Node) (r : Node × Bool) → filter input c ≡ r.0 → Placed w c input r.0
  unfolding aliases_of rows_of
  stays-Placed input r same = subst (Placed w c input) same (refl, refl)

  visit_filter-rows :
      (input : Node) (moved : Bool) (r : Node × Bool)
      → ReadsOneTable w
      → visit_filter c input moved ≡ ok r
      → Placed w c input r.0
  unfolding visit_filter
  visit_filter-rows input moved r local is = elim (Bool-cases (reads_projection input)) [
    | inl above_project ↦
        stays-Placed input r (ok_fst (filter input c) moved r (rw above_project at is))
    | inr below_project ↦ elim (Result-cases (alias_of c)) [
      | inr (e, wrong) ↦ absurd (ground (arith, rw (below_project, wrong) at is))
      | inl (alias, one) ↦
          let moves : given {B = Result (Node × Bool)} (place_filter c input alias)
                (ok (filter input c, moved)) (λ placed. ok (placed, true))
              ≡ ok r =
            rw (below_project, one) at is in
          elim (Option-cases (place_filter c input alias)) [
            | inl stuck ↦ stays-Placed input r (ok_fst (filter input c) moved r (rw stuck at moves))
            | inr (placed, is_placed) ↦
                subst (Placed w c input) (ok_fst placed true r (rw is_placed at moves)) (
                  place_filter-Placed w c alias (only_one_of c.aliases alias one) local input placed
                    is_placed)
          ]
    ]
  ]

module _ {D L : Type 0} (w : World D L) (local : ReadsOneTable w) where
  -- A visited node has the tables and the rows that it had.
  abbrev SameRows : Node → Result (Node × Bool) → Type 0
  SameRows node result =
      (r : Node × Bool)
      → result ≡ ok r
      → (aliases_of r.0 ≡ aliases_of node) × (rows_of w r.0 ≡ rows_of w node)

  visited-SameRows :
      (result : Result (Node × Bool)) (input : Node) (f : Node → Node)
      → SameRows input result
      → ((below : Node)
          → aliases_of below ≡ aliases_of input
          → rows_of w below ≡ rows_of w input
          → (aliases_of (f below) ≡ aliases_of (f input))
            × (rows_of w (f below) ≡ rows_of w (f input)))
      → SameRows (f input) (chain result λ r. ok (f r.0, r.1))
  visited-SameRows (ok x) input f h g r is =
      let (names, rows) = h x refl in
      subst
        (λ node. (aliases_of node ≡ aliases_of (f input)) × (rows_of w node ≡ rows_of w (f input)))
        (ok_fst (f x.0) x.1 r is) (g x.0 names rows)
  visited-SameRows (err e) input f h g r is = absurd (ground arith)

  filter-SameRows :
      (result : Result (Node × Bool)) (input : Node) (c : Condition)
      → SameRows input result
      → SameRows (filter input c) (chain result λ r. visit_filter c r.0 r.1)
  unfolding rows_of aliases_of
  filter-SameRows (ok x) input c h r is =
      let (names, rows) = h x refl in
      let (names', rows') = visit_filter-rows w c x.0 x.1 r local is in
      (names' ∙ names, rows' ∙ ap (keep_if (w.test c)) rows)
  filter-SameRows (err e) input c h r is = absurd (ground arith)

  join-SameRows :
      (l : Node × Bool) (left right : Node) (on : ℕ) (right_result : Result (Node × Bool))
      → SameRows left (ok l)
      → SameRows right right_result
      → SameRows (join left right on) (chain right_result λ r. ok (join l.0 r.0 on, r.1))
  unfolding rows_of aliases_of
  join-SameRows l left right on (ok n) h g r is =
      let (names, rows) = h l refl in
      let (names', rows') = g n refl in
      let same = ok_fst (join l.0 n.0 on) n.1 r is in
      (
        sym (ap aliases_of same) ∙ cc (names, names'),
        sym (ap (rows_of w) same)
            ∙ ap (λ a. keep_if (w.is_equal on) (pairs a (rows_of w l.0) (rows_of w n.0))) names
            ∙ ap (λ xs. keep_if (w.is_equal on) (pairs (aliases_of left) xs (rows_of w n.0))) rows
            ∙ ap (λ ys. keep_if (w.is_equal on) (pairs (aliases_of left) (rows_of w left) ys))
                rows',
      )
  join-SameRows l left right on (err e) h g r is = absurd (ground arith)

  both-SameRows :
      (left right : Node) (on : ℕ) (left_result : Result (Node × Bool))
      (right_result : Bool → Result (Node × Bool))
      → SameRows left left_result
      → ((moved : Bool) → SameRows right (right_result moved))
      → SameRows
          (join left right on)
          (chain left_result λ l. chain (right_result l.1) λ r. ok (join l.0 r.0 on, r.1))
  both-SameRows left right on (ok l) right_result h g =
      join-SameRows l left right on (right_result l.1) h (g l.1)
  both-SameRows left right on (err e) right_result h g = λ r is. absurd (ground arith)

  visit-SameRows : (node : Node) (moved : Bool) → SameRows node (visit node moved)
  unfolding visit rows_of aliases_of
  visit-SameRows (scan table source) moved = λ r is.
      let same = ok_fst (scan table source) moved r is in
      (ap aliases_of (sym same), ap (rows_of w) (sym same))
  visit-SameRows (join left right on) moved =
      both-SameRows left right on (visit left moved) (visit right) (visit-SameRows left moved)
        (visit-SameRows right)
  visit-SameRows (semantic_join input predicate semantics) moved =
      visited-SameRows (visit input moved) input (λ n. semantic_join n predicate semantics)
        (visit-SameRows input moved)
        (λ below names rows. (names, ap (joined_by w semantics predicate) rows))
  visit-SameRows (semantic_column input call) moved =
      visited-SameRows (visit input moved) input (λ n. semantic_column n call)
        (visit-SameRows input moved) (λ below names rows. (names, ap (map (answered w call)) rows))
  visit-SameRows (semantic_filter input predicates) moved =
      visited-SameRows (visit input moved) input (λ n. semantic_filter n predicates)
        (visit-SameRows input moved)
        (λ below names rows. (names, ap (keep_if (passes_all w predicates)) rows))
  visit-SameRows (filter input c) moved =
      filter-SameRows (visit input moved) input c (visit-SameRows input moved)
  visit-SameRows (project input columns) moved =
      visited-SameRows (visit input moved) input (λ n. project n columns)
        (visit-SameRows input moved) (λ below names rows. (names, ap (w.result_rows columns) rows))
  visit-SameRows (unnest input columns) moved =
      visited-SameRows (visit input moved) input (λ n. unnest n columns)
        (visit-SameRows input moved) (λ below names rows. (names, ap (w.result_rows columns) rows))
  visit-SameRows (above input fields) moved =
      visited-SameRows (visit input moved) input (λ n. above n fields) (visit-SameRows input moved)
        (λ below names rows. (names, ap (w.result_rows fields) rows))

  -- Where a condition on one table reads that table's document only: a plan that `push_down_filters`
  -- returns has the rows of the plan it was given, in the same order, whatever the tables hold and
  -- the model answers.
  pub push_down_filters-rows_of :
      (root rewritten : Node)
      → push_down_filters root ≡ ok (some rewritten)
      → rows_of w rewritten ≡ rows_of w root
  unfolding push_down_filters
  push_down_filters-rows_of root rewritten is = elim (Result-cases (visit root false)) [
    | inr (e, raises) ↦ absurd (ground (arith, rw raises at is))
    | inl (r, returns) ↦
        let (names, rows) = visit-SameRows root false r returns in
        let same = moved_node r.1 r.0 rewritten (rw returns at is) in
        ap (rows_of w) (sym same) ∙ rows
  ]
