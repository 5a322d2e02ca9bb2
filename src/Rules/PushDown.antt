-- ===== src/Rules/PushDown.antt =====
-- quail/planner/rules/tree_transforms.py: `push_down_filters`.
use quail.Prelude.{
  ℕ, Bool, true, false, ◌&&◌, not, Option, none, some, List, [], ◌∷◌, ◌==◌, if◌then◌else◌, given,
  member,
}
use quail.Result.{Result, chain, ok}
use quail.Rules.Nodes.{
  Node, scan, join, semantic_join, semantic_column, semantic_filter, filter, project, unnest, above,
  Semantics, full, exists_join, anti_join, Condition, FilterPredicate, Call, one_table, joined_rows,
  aliases_of, reads_projection, alias_of,
}

abbrev pub is_full : Semantics → Bool
is_full full = true
is_full exists_join = false
is_full anti_join = false

-- `len(node.call.aliases()) == 2 or node.alias != alias`
abbrev pub call_lets_through : Call → ℕ → Bool
call_lets_through (one_table table prompt) alias = not (table == alias)
call_lets_through (joined_rows table other prompt) alias = true

abbrev pub all_others : List FilterPredicate → ℕ → Bool
all_others [] alias = true
all_others (p ∷ predicates) alias = not (p.alias == alias) && all_others predicates alias

-- `node.alias != alias`. The alias of a filter with several raises, where the filter is visited,
-- which is before a filter above it moves.
abbrev pub is_other : Condition → ℕ → Bool
is_other c alias = not (member alias c.aliases)

-- `_place_filter`, where a node that lets the filter through (`_lets_through`) has one child.
unfoldable pub place_filter : Condition → Node → ℕ → Option Node
unfolding aliases_of
place_filter c (scan table source) alias = none
place_filter c (join left right on) alias =
    let in_left = given (place_filter c left alias) (filter left c) (λ placed. placed) in
    let in_right = given (place_filter c right alias) (filter right c) (λ placed. placed) in
    if member alias (aliases_of left)
    then some (join in_left right on)
    else some (join left in_right on)
place_filter c (semantic_join input predicate semantics) alias =
    let placed = place_filter c input alias in
    if is_full semantics
    then (given placed none λ below. some (semantic_join below predicate semantics))
    else none
place_filter c (semantic_column input call) alias =
    let placed = place_filter c input alias in
    if call_lets_through call alias
    then (given placed none λ below. some (semantic_column below call))
    else none
place_filter c (semantic_filter input predicates) alias =
    let placed = place_filter c input alias in
    if all_others predicates alias
    then (given placed none λ below. some (semantic_filter below predicates))
    else none
place_filter c (filter input other) alias =
    let placed = place_filter c input alias in
    if is_other other alias then (given placed none λ below. some (filter below other)) else none
place_filter c (project input columns) alias = none
place_filter c (unnest input columns) alias = none
place_filter c (above input fields) alias = none

-- A filter whose input has been visited: the node, and whether the filter moved.
unfoldable pub visit_filter : Condition → Node → Bool → Result (Node × Bool)
unfolding place_filter reads_projection
visit_filter c input moved =
    if reads_projection input
    then ok (filter input c, moved)
    else chain (alias_of c) λ alias.
      given (place_filter c input alias) (ok (filter input c, moved)) λ placed. ok (placed, true)

-- `visit`, with `moved`. A node whose children are as they were is rebuilt to an equal one.
unfoldable pub visit : Node → Bool → Result (Node × Bool)
unfolding visit_filter
visit (scan table source) moved = ok (scan table source, moved)
visit (join left right on) moved =
    chain (visit left moved) λ l. chain (visit right l.1) λ r. ok (join l.0 r.0 on, r.1)
visit (semantic_join input predicate semantics) moved =
    chain (visit input moved) λ r. ok (semantic_join r.0 predicate semantics, r.1)
visit (semantic_column input call) moved =
    chain (visit input moved) λ r. ok (semantic_column r.0 call, r.1)
visit (semantic_filter input predicates) moved =
    chain (visit input moved) λ r. ok (semantic_filter r.0 predicates, r.1)
visit (filter input c) moved = chain (visit input moved) λ r. visit_filter c r.0 r.1
visit (project input columns) moved = chain (visit input moved) λ r. ok (project r.0 columns, r.1)
visit (unnest input columns) moved = chain (visit input moved) λ r. ok (unnest r.0 columns, r.1)
visit (above input fields) moved = chain (visit input moved) λ r. ok (above r.0 fields, r.1)

unfoldable pub push_down_filters : Node → Result (Option Node)
unfolding visit
push_down_filters root = chain (visit root false) λ r. ok (if r.1 then some r.0 else none)
