-- ===== src/Rules/Once.antt =====
-- quail/planner/rules/tree_transforms.py: a second `push_down_filters` moves nothing.
use quail.Prelude.{
  ℕ, ◌≡◌, inl, inr, refl, ap, subst, ◌∙◌, Bool, true, false, none, some, given, arith, Bool-cases,
  Option-cases, if◌then◌else◌,
}
use quail.Result.{Result, Result-cases, chain, ok, err}
use quail.Rules.Nodes.{
  Node, scan, join, semantic_join, semantic_column, semantic_filter, filter, project, unnest, above,
  Condition, reads_projection, alias_of,
}
use quail.Rules.PushDown.{place_filter, visit_filter, visit, push_down_filters}
use quail.Rules.Keeps.{ok_fst, moved_node}
use quail.Rules.Settled.{IsStuck, Settled, place_filter-Settled}

abbrev Settles : Result (Node × Bool) → Type 0
Settles result = (r : Node × Bool) → result ≡ ok r → Settled r.0

visited-Settled :
    (result : Result (Node × Bool)) (f : Node → Node)
    → ((n : Node) → Settled n → Settled (f n))
    → Settles result
    → Settles (chain result λ r. ok (f r.0, r.1))
visited-Settled (ok x) f h g r is = subst Settled (ok_fst (f x.0) x.1 r is) (h x.0 (g x refl))
visited-Settled (err e) f h g r is = absurd (ground arith)

visit_filter-Settled :
    (c : Condition) (input : Node) (moved : Bool)
    → Settled input
    → Settles (visit_filter c input moved)
unfolding visit_filter Settled
visit_filter-Settled c input moved settled r is = elim (Bool-cases (reads_projection input)) [
  | inl projected ↦
      subst Settled (ok_fst (filter input c) moved r (rw projected at is)) (settled, inl projected)
  | inr below_project ↦ elim (Result-cases (alias_of c)) [
    | inr (e, wrong) ↦ absurd (ground (arith, rw (below_project, wrong) at is))
    | inl (alias, one) ↦
        let moves : given {B = Result (Node × Bool)} (place_filter c input alias)
              (ok (filter input c, moved)) (λ placed. ok (placed, true))
            ≡ ok r =
          rw (below_project, one) at is in
        elim (Option-cases (place_filter c input alias)) [
          | inl stuck ↦
              subst Settled (ok_fst (filter input c) moved r (rw stuck at moves))
                (settled, inr (alias, one, stuck))
          | inr (placed, is_placed) ↦
              subst Settled (ok_fst placed true r (rw is_placed at moves))
                (place_filter-Settled c input placed alias one settled is_placed)
        ]
  ]
]

filter-Settled :
    (result : Result (Node × Bool)) (c : Condition)
    → Settles result
    → Settles (chain result λ r. visit_filter c r.0 r.1)
filter-Settled (ok x) c h = visit_filter-Settled c x.0 x.1 (h x refl)
filter-Settled (err e) c h = λ r is. absurd (ground arith)

join-Settled :
    (on : ℕ) (left_result : Result (Node × Bool)) (right_result : Bool → Result (Node × Bool))
    → Settles left_result
    → ((moved : Bool) → Settles (right_result moved))
    → Settles (chain left_result λ l. chain (right_result l.1) λ r. ok (join l.0 r.0 on, r.1))
unfolding Settled
join-Settled on (ok l) right_result h g =
    visited-Settled (right_result l.1) (λ n. join l.0 n on) (λ n settled. (h l refl, settled))
      (g l.1)
join-Settled on (err e) right_result h g = λ r is. absurd (ground arith)

visit-Settled : (node : Node) (moved : Bool) → Settles (visit node moved)
unfolding visit Settled
visit-Settled (scan table source) moved =
    λ r is. subst Settled (ok_fst (scan table source) moved r is) tt
visit-Settled (join left right on) moved =
    join-Settled on (visit left moved) (visit right) (visit-Settled left moved)
      (visit-Settled right)
visit-Settled (semantic_join input predicate semantics) moved =
    visited-Settled (visit input moved) (λ n. semantic_join n predicate semantics) (λ n s. s)
      (visit-Settled input moved)
visit-Settled (semantic_column input call) moved =
    visited-Settled (visit input moved) (λ n. semantic_column n call) (λ n s. s)
      (visit-Settled input moved)
visit-Settled (semantic_filter input predicates) moved =
    visited-Settled (visit input moved) (λ n. semantic_filter n predicates) (λ n s. s)
      (visit-Settled input moved)
visit-Settled (filter input c) moved =
    filter-Settled (visit input moved) c (visit-Settled input moved)
visit-Settled (project input columns) moved =
    visited-Settled (visit input moved) (λ n. project n columns) (λ n s. s)
      (visit-Settled input moved)
visit-Settled (unnest input columns) moved =
    visited-Settled (visit input moved) (λ n. unnest n columns) (λ n s. s)
      (visit-Settled input moved)
visit-Settled (above input fields) moved =
    visited-Settled (visit input moved) (λ n. above n fields) (λ n s. s) (visit-Settled input moved)

visit_filter_stays :
    (c : Condition) (input : Node) (moved : Bool)
    → IsStuck c input
    → visit_filter c input moved ≡ ok (filter input c, moved)
unfolding visit_filter
visit_filter_stays c input moved (inl projected) = rw projected refl
visit_filter_stays c input moved (inr (alias, one, stuck)) =
    elim (Bool-cases (reads_projection input)) [
      | inl projected ↦ rw projected refl
      | inr below_project ↦ rw (below_project, one, stuck) refl
    ]

-- A settled node is visited without a move.
visit_stays : (node : Node) (moved : Bool) → Settled node → visit node moved ≡ ok (node, moved)
unfolding visit Settled
visit_stays (scan table source) moved s = refl
visit_stays (join left right on) moved s =
    ap (λ r. chain r λ l. chain (visit right l.1) λ n. ok (join l.0 n.0 on, n.1))
      (visit_stays left moved s.0)
    ∙ ap (λ r. chain r λ n. ok (join left n.0 on, n.1)) (visit_stays right moved s.1)
visit_stays (semantic_join input predicate semantics) moved s =
    ap (λ r. chain r λ n. ok (semantic_join n.0 predicate semantics, n.1))
      (visit_stays input moved s)
visit_stays (semantic_column input call) moved s =
    ap (λ r. chain r λ n. ok (semantic_column n.0 call, n.1)) (visit_stays input moved s)
visit_stays (semantic_filter input predicates) moved s =
    ap (λ r. chain r λ n. ok (semantic_filter n.0 predicates, n.1)) (visit_stays input moved s)
visit_stays (filter input c) moved s =
    ap (λ r. chain r λ n. visit_filter c n.0 n.1) (visit_stays input moved s.0)
    ∙ visit_filter_stays c input moved s.1
visit_stays (project input columns) moved s =
    ap (λ r. chain r λ n. ok (project n.0 columns, n.1)) (visit_stays input moved s)
visit_stays (unnest input columns) moved s =
    ap (λ r. chain r λ n. ok (unnest n.0 columns, n.1)) (visit_stays input moved s)
visit_stays (above input fields) moved s =
    ap (λ r. chain r λ n. ok (above n.0 fields, n.1)) (visit_stays input moved s)

-- Given a plan that a call of `push_down_filters` returned, another call returns, and returns None:
-- no filter is left that can move.
pub push_down_filters_once :
    (root rewritten : Node)
    → push_down_filters root ≡ ok (some rewritten)
    → push_down_filters rewritten ≡ ok none
unfolding push_down_filters
push_down_filters_once root rewritten is = elim (Result-cases (visit root false)) [
  | inr (e, raises) ↦ absurd (ground (arith, rw raises at is))
  | inl (r, returns) ↦
      let same = moved_node r.1 r.0 rewritten (rw returns at is) in
      ap (λ result. chain result λ n. ok (if n.1 then some n.0 else none))
        (visit_stays rewritten false (subst Settled same (visit-Settled root false r returns)))
]
