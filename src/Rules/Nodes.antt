-- ===== src/Rules/Nodes.antt =====
-- quail/logical/nodes: the nodes of a logical plan, as far as the rewrites read them. A table's alias
-- is a number; so is what a node carries that no rewrite looks into, such as a prompt.
use quail.Prelude.{ℕ, Bool, true, false, ◌||◌, List, [], ◌∷◌, ◌++◌}
use quail.Result.{Result, ok, err, value_error}

-- `SemanticJoin.semantics`
pub data Semantics : Type 0 where
  full exists_join anti_join : Semantics

-- `Filter.condition`, with its aliases.
pub record Condition : Type 0 where
  pub aliases : List ℕ
  pub test : ℕ

-- A predicate of a `SemanticFilter`, which reads one table.
pub record FilterPredicate : Type 0 where
  pub alias : ℕ
  pub prompt : ℕ

-- The call of a `SemanticColumn`: the table that its answers belong to, and the second table where
-- it reads joined rows.
pub data Call : Type 0 where
  one_table : ℕ → ℕ → Call
  joined_rows : ℕ → ℕ → ℕ → Call

-- The nodes of quail/logical/nodes: `Scan`, `Join`, `SemanticJoin`, `SemanticColumn`, `SemanticFilter`
-- without its `stop_key`, `Filter` without its `selectivity`, `Project`, `Unnest`, and three more.
pub data Node : Type 0 where
  scan : ℕ → ℕ → Node
  join : Node → Node → ℕ → Node
  semantic_join : Node → ℕ → Semantics → Node
  semantic_column : Node → Call → Node
  semantic_filter : Node → List FilterPredicate → Node
  filter : Node → Condition → Node
  project : Node → ℕ → Node
  unnest : Node → ℕ → Node
  -- `Aggregate`, `Window` and `Result`
  above : Node → ℕ → Node

-- The aliases of `output_schema()`, which is asked for the sides of a join: these stand below the
-- projection, where every node has the tables of its input.
unfoldable pub aliases_of : Node → List ℕ
aliases_of (scan alias source) = alias ∷ []
aliases_of (join left right on) = aliases_of left ++ aliases_of right
aliases_of (semantic_join input predicate semantics) = aliases_of input
aliases_of (semantic_column input call) = aliases_of input
aliases_of (semantic_filter input predicates) = aliases_of input
aliases_of (filter input condition) = aliases_of input
aliases_of (project input columns) = aliases_of input
aliases_of (unnest input columns) = aliases_of input
aliases_of (above input fields) = aliases_of input

abbrev pub is_project : Node → Bool
is_project (project input columns) = true
is_project node = false

unfoldable pub above_projection : Node → Bool
above_projection (filter input condition) = is_project input || above_projection input
above_projection (unnest input columns) = true
above_projection node = false

unfoldable pub reads_projection : Node → Bool
unfolding above_projection
reads_projection node = is_project node || above_projection node

-- `(alias,) = aliases`
abbrev pub only_one : List ℕ → Result ℕ
only_one [] = err value_error
only_one (alias ∷ []) = ok alias
only_one (alias ∷ other ∷ rest) = err value_error

-- `Filter.alias`
abbrev pub alias_of : Condition → Result ℕ
alias_of c = only_one c.aliases
