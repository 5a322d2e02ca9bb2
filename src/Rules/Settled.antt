-- ===== src/Rules/Settled.antt =====
-- quail/planner/rules/tree_transforms.py: `push_down_filters` leaves no filter that can still move.
use quail.Prelude.{
  ℕ, ◌≡◌, ◌⊎◌, inl, inr, refl, sym, subst, ◌∙◌, Bool, true, false, Option, none, some,
  if◌then◌else◌, given, arith, member, Bool-cases, Option-cases,
}
use quail.Result.{ok}
use quail.Rules.Nodes.{
  Node, scan, join, semantic_join, semantic_column, semantic_filter, filter, project, unnest, above,
  Condition, aliases_of, above_projection, reads_projection, alias_of,
}
use quail.Rules.PushDown.{is_full, call_lets_through, all_others, is_other, place_filter}

-- A filter over the node is where it stays.
abbrev pub IsStuck : Condition → Node → Type 0
IsStuck c input =
    (reads_projection input ≡ true)
    ⊎ ((alias : ℕ) × (alias_of c ≡ ok alias) × (place_filter c input alias ≡ none))

unfoldable pub Settled : Node → Type 0
Settled (scan table source) = Unit
Settled (join left right on) = Settled left × Settled right
Settled (semantic_join input predicate semantics) = Settled input
Settled (semantic_column input call) = Settled input
Settled (semantic_filter input predicates) = Settled input
Settled (filter input c) = Settled input × IsStuck c input
Settled (project input columns) = Settled input
Settled (unnest input columns) = Settled input
Settled (above input fields) = Settled input

-- The branches of `place_filter` for a node with one child.
abbrev over : Bool → Option Node → (Node → Node) → Option Node
over b o f = if b then given o none (λ below. some (f below)) else none

some_node : {x y : Node} → some x ≡ some y → x ≡ y
some_node h = cc h

over-some :
    (b : Bool) (o : Option Node) (f : Node → Node) (placed : Node)
    → over b o f ≡ some placed
    → (below : Node) × (b ≡ true) × (o ≡ some below) × (f below ≡ placed)
over-some true none f placed h = absurd (ground arith)
over-some true (some below) f placed h = (below, refl, refl, cc h)
over-some false o f placed h = absurd (ground arith)

over-none :
    (b : Bool) (o : Option Node) (f : Node → Node) → over b o f ≡ none → (b ≡ false) ⊎ (o ≡ none)
over-none true none f h = inr refl
over-none true (some below) f h = absurd (ground arith)
over-none false o f h = inl refl

-- A node stops a filter again after its child has changed, where the child stops it too.
over_again :
    (b : Bool) (o after : Option Node) (f : Node → Node)
    → over b o f ≡ none
    → (o ≡ none → after ≡ none)
    → over b after f ≡ none
over_again b o after f h g = elim (over-none b o f h) [
  | inl closed ↦ rw closed refl
  | inr stuck ↦ elim (Bool-cases b) [
    | inl let_by ↦ rw (let_by, g stuck) refl
    | inr closed ↦ rw closed refl
  ]
]

-- No filter moves below the projection from above it.
above_projection-place_filter :
    (c : Condition) (node : Node) (alias : ℕ)
    → reads_projection node ≡ true
    → place_filter c node alias ≡ none
unfolding reads_projection above_projection place_filter
above_projection-place_filter c (scan table source) alias h = refl
above_projection-place_filter c (join left right on) alias h = absurd (ground arith)
above_projection-place_filter c (semantic_join input predicate semantics) alias h =
    absurd (ground arith)
above_projection-place_filter c (semantic_column input call) alias h = absurd (ground arith)
above_projection-place_filter c (semantic_filter input predicates) alias h = absurd (ground arith)
above_projection-place_filter c (filter input other) alias h =
    over_again (is_other other alias) none (place_filter c input alias) (λ n. filter n other)
      (ground arith) (λ s. above_projection-place_filter c input alias h)
above_projection-place_filter c (project input columns) alias h = refl
above_projection-place_filter c (unnest input columns) alias h = refl
above_projection-place_filter c (above input fields) alias h = refl

-- Both filters meet a node with one child: it lets the first one through, and stops the second.
stuck_over :
    (c d : Condition) (input placed : Node) (a b : ℕ) (f : Node → Node) (first second : Bool)
    → ((n : Node) → place_filter d (f n) b ≡ over second (place_filter d n b) f)
    → over first (place_filter c input a) f ≡ some placed
    → place_filter d (f input) b ≡ none
    → ((below : Node)
        → place_filter c input a ≡ some below
        → place_filter d input b ≡ none
        → place_filter d below b ≡ none)
    → place_filter d placed b ≡ none
stuck_over c d input placed a b f first second step h g rest =
    let (below, through, found, is) = over-some first (place_filter c input a) f placed h in
    subst (λ n. place_filter d n b ≡ none) is
      (step below
        ∙ over_again second (place_filter d input b) (place_filter d below b) f
            (sym (step input) ∙ g) (rest below found))

-- A filter that is stuck over a node stays stuck when another one moves into the node.
place_filter_stuck :
    (c d : Condition) (node placed : Node) (a b : ℕ)
    → place_filter c node a ≡ some placed
    → place_filter d node b ≡ none
    → place_filter d placed b ≡ none
unfolding place_filter
place_filter_stuck c d (scan table source) placed a b h g = absurd (ground arith)
place_filter_stuck c d (join left right on) placed a b h g =
    absurd (ground (arith, Bool-cases (member b (aliases_of left))))
place_filter_stuck c d (semantic_join input predicate semantics) placed a b h g =
    stuck_over c d input placed a b (λ n. semantic_join n predicate semantics) (is_full semantics)
      (is_full semantics) (λ n. refl) h g
      (λ below found. place_filter_stuck c d input below a b found)
place_filter_stuck c d (semantic_column input call) placed a b h g =
    stuck_over c d input placed a b (λ n. semantic_column n call) (call_lets_through call a)
      (call_lets_through call b) (λ n. refl) h g
      (λ below found. place_filter_stuck c d input below a b found)
place_filter_stuck c d (semantic_filter input predicates) placed a b h g =
    stuck_over c d input placed a b (λ n. semantic_filter n predicates) (all_others predicates a)
      (all_others predicates b) (λ n. refl) h g
      (λ below found. place_filter_stuck c d input below a b found)
place_filter_stuck c d (filter input other) placed a b h g =
    stuck_over c d input placed a b (λ n. filter n other) (is_other other a) (is_other other b)
      (λ n. refl) h g (λ below found. place_filter_stuck c d input below a b found)
place_filter_stuck c d (project input columns) placed a b h g = absurd (ground arith)
place_filter_stuck c d (unnest input columns) placed a b h g = absurd (ground arith)
place_filter_stuck c d (above input fields) placed a b h g = absurd (ground arith)

-- A filter that moves into a settled node.
child-Settled :
    (c : Condition) (child : Node) (alias : ℕ)
    → alias_of c ≡ ok alias
    → Settled child
    → ((placed : Node) → place_filter c child alias ≡ some placed → Settled placed)
    → Settled (given (place_filter c child alias) (filter child c) (λ placed. placed))
unfolding Settled
child-Settled c child alias one settled h = elim (Option-cases (place_filter c child alias)) [
  | inl stuck ↦ rw stuck (settled, inr (alias, one, stuck))
  | inr (placed, is) ↦ rw is (h placed is)
]

-- A node with one child, which a filter has moved through.
through-Settled :
    (b : Bool) (o : Option Node) (f : Node → Node) (placed : Node)
    → over b o f ≡ some placed
    → ((below : Node) → o ≡ some below → Settled (f below))
    → Settled placed
through-Settled b o f placed h g =
    let (below, through, found, is) = over-some b o f placed h in subst Settled is (g below found)

pub place_filter-Settled :
    (c : Condition) (node placed : Node) (alias : ℕ)
    → alias_of c ≡ ok alias
    → Settled node
    → place_filter c node alias ≡ some placed
    → Settled placed
unfolding place_filter Settled
place_filter-Settled c (scan table source) placed alias one settled h = absurd (ground arith)
place_filter-Settled c (join left right on) placed alias one settled h =
    elim (Bool-cases (member alias (aliases_of left))) [
      | inl inside ↦ subst Settled (some_node (rw inside at h)) (
        child-Settled c left alias one settled.0
            (λ p. place_filter-Settled c left p alias one settled.0),
        settled.1,
      )
      | inr outside ↦ subst Settled (some_node (rw outside at h)) (
        settled.0,
        child-Settled c right alias one settled.1
            (λ p. place_filter-Settled c right p alias one settled.1),
      )
    ]
place_filter-Settled c (semantic_join input predicate semantics) placed alias one settled h =
    through-Settled (is_full semantics) (place_filter c input alias)
      (λ n. semantic_join n predicate semantics) placed h
      (λ below found. place_filter-Settled c input below alias one settled found)
place_filter-Settled c (semantic_column input call) placed alias one settled h =
    through-Settled (call_lets_through call alias) (place_filter c input alias)
      (λ n. semantic_column n call) placed h
      (λ below found. place_filter-Settled c input below alias one settled found)
place_filter-Settled c (semantic_filter input predicates) placed alias one settled h =
    through-Settled (all_others predicates alias) (place_filter c input alias)
      (λ n. semantic_filter n predicates) placed h
      (λ below found. place_filter-Settled c input below alias one settled found)
place_filter-Settled c (filter input other) placed alias one settled h =
    let (below, through, found, is) =
      over-some (is_other other alias) (place_filter c input alias) (λ n. filter n other) placed
        h in
    subst Settled is (
      place_filter-Settled c input below alias one settled.0 found,
      elim settled.1 [
        | inl projected ↦
            absurd
              (ground (arith, sym (above_projection-place_filter c input alias projected) ∙ found))
        | inr (its, only, stuck) ↦
            inr (its, only, place_filter_stuck c other input below alias its found stuck)
      ],
    )
place_filter-Settled c (project input columns) placed alias one settled h = absurd (ground arith)
place_filter-Settled c (unnest input columns) placed alias one settled h = absurd (ground arith)
place_filter-Settled c (above input fields) placed alias one settled h = absurd (ground arith)
