-- ===== src/Rules/Meaning.antt =====
-- quail/logical/nodes: the rows that a plan returns, in nested loop order, given what the tables
-- hold and what the model answers.
use quail.Prelude.{
  ℕ, Bool, true, ◌&&◌, ◌≡◌, List, [], ◌∷◌, ◌++◌, ◌==◌, if◌then◌else◌, keep_if, map, member,
}
use quail.Rules.Nodes.{
  Node, scan, join, semantic_join, semantic_column, semantic_filter, filter, project, unnest, above,
  Semantics, full, exists_join, anti_join, Condition, FilterPredicate, Call, one_table, joined_rows,
  aliases_of,
}

-- A row has a document of each table, with the answers about it, and the answers about the joined
-- row, which no filter reads.
pub record Row (D L : Type 0) : Type 0 where
  pub documents : ℕ → D
  pub labels : List L

-- What a plan reads and asks. The model's answers are functions of the documents that a prompt reads.
pub record World (D L : Type 0) : Type 0 where
  pub table : ℕ → ℕ → List (Row D L)
  pub is_equal : ℕ → Row D L → Bool
  pub is_asked : ℕ → Row D L → Bool
  pub passes : ℕ → D → Bool
  pub answer : ℕ → D → D
  pub label : ℕ → Row D L → L
  pub test : Condition → Row D L → Bool
  pub gate : Semantics → ℕ → List (Row D L) → List (Row D L)
  pub result_rows : ℕ → List (Row D L) → List (Row D L)

module _ {D L : Type 0} where
  -- A row of a join: the documents of the left side's tables, and the right side's.
  abbrev pub merged : List ℕ → Row D L → Row D L → Row D L
  merged left x y = record {
    documents = λ alias. if member alias left then x.documents alias else y.documents alias;
    labels = x.labels ++ y.labels;
  }

  abbrev pub pairs : List ℕ → List (Row D L) → List (Row D L) → List (Row D L)
  pairs left [] ys = []
  pairs left (x ∷ xs) ys = map (merged left x) ys ++ pairs left xs ys

  module _ (w : World D L) where
    -- A column operator adds its answer to the row.
    abbrev pub answered : Call → Row D L → Row D L
    answered (one_table table prompt) x = record x {
      documents = λ alias.
          if alias == table then w.answer prompt (x.documents alias) else x.documents alias;
    }
    answered (joined_rows table other prompt) x = record x { labels = w.label prompt x ∷ x.labels }

    abbrev pub passes_all : List FilterPredicate → Row D L → Bool
    passes_all [] x = true
    passes_all (p ∷ predicates) x =
        w.passes p.prompt (x.documents p.alias) && passes_all predicates x

    abbrev pub joined_by : Semantics → ℕ → List (Row D L) → List (Row D L)
    joined_by full predicate rows = keep_if (w.is_asked predicate) rows
    joined_by exists_join predicate rows = w.gate exists_join predicate rows
    joined_by anti_join predicate rows = w.gate anti_join predicate rows

    unfoldable pub rows_of : Node → List (Row D L)
    unfolding aliases_of
    rows_of (scan alias source) = w.table alias source
    rows_of (join left right on) =
        keep_if (w.is_equal on) (pairs (aliases_of left) (rows_of left) (rows_of right))
    rows_of (semantic_join input predicate semantics) =
        joined_by semantics predicate (rows_of input)
    rows_of (semantic_column input call) = map (answered call) (rows_of input)
    rows_of (semantic_filter input predicates) = keep_if (passes_all predicates) (rows_of input)
    rows_of (filter input condition) = keep_if (w.test condition) (rows_of input)
    rows_of (project input columns) = w.result_rows columns (rows_of input)
    rows_of (unnest input columns) = w.result_rows columns (rows_of input)
    rows_of (above input fields) = w.result_rows fields (rows_of input)

    -- A condition on one table reads that table's document only.
    abbrev pub ReadsOneTable : Type 0
    ReadsOneTable =
        (c : Condition) (alias : ℕ) (x y : Row D L)
        → c.aliases ≡ alias ∷ []
        → x.documents alias ≡ y.documents alias
        → w.test c x ≡ w.test c y
