-- ===== src/Rules/Tests.antt =====
-- quail/planner/rules/tree_transforms.py: a filter on a label moves below two joins.
use quail.Prelude.{
  ℕ, ◌+◌, ◌≡◌, refl, sym, ap, ◌∙◌, Bool, true, false, some, none, List, [], ◌∷◌, leb,
}
use quail.Result.{ok}
use quail.Rules.Nodes.{
  Node, scan, join, semantic_join, semantic_column, filter, full, anti_join, one_table, Condition,
}
use quail.Rules.PushDown.{push_down_filters}
use quail.Rules.Meaning.{Row, World, rows_of, ReadsOneTable}
use quail.Rules.Keeps.{push_down_filters-rows_of}
use quail.Rules.Once.{push_down_filters_once}

abbrev row : ℕ → Row ℕ ℕ
row n = record { documents = λ alias. n; labels = [] }

-- A condition on one table holds of a document of 12 and more.
abbrev tested : List ℕ → Row ℕ ℕ → Bool
tested [] x = false
tested (alias ∷ rest) x = leb 12 (x.documents alias)

-- The answer about a document n is 10 + n, and every pair is joined.
abbrev world : World ℕ ℕ
world = record {
  table = λ alias source. row 1 ∷ row 2 ∷ row 3 ∷ [];
  is_equal = λ on x. true;
  is_asked = λ predicate x. true;
  passes = λ prompt n. true;
  answer = λ prompt n. 10 + n;
  label = λ prompt x. 0;
  test = λ c x. tested c.aliases x;
  gate = λ semantics predicate rows. rows;
  result_rows = λ fields rows. rows;
}

world-ReadsOneTable : ReadsOneTable world
world-ReadsOneTable c alias x y one same =
    ap (λ names. tested names x) one ∙ ap (leb 12) same ∙ sym (ap (λ names. tested names y) one)

abbrev large : Condition
large = record { aliases = 1 ∷ []; test = 0 }

abbrev labelled : Node
labelled = semantic_column (scan 1 0) (one_table 1 0)

abbrev written : Node
written = filter (semantic_join (join (join labelled (scan 2 0) 0) (scan 3 0) 0) 0 full) large

abbrev pushed : Node
pushed = semantic_join (join (join (filter labelled large) (scan 2 0) 0) (scan 3 0) 0) 0 full

pushed_test : push_down_filters written ≡ ok (some pushed)
unfolding push_down_filters
pushed_test = refl

-- A gate keeps the filter where it is.
gate_test :
    push_down_filters (filter (semantic_join (join labelled (scan 2 0) 0) 0 anti_join) large)
    ≡ ok none
unfolding push_down_filters
gate_test = refl

push_down_filters-rows_of_example : rows_of world pushed ≡ rows_of world written
push_down_filters-rows_of_example =
    push_down_filters-rows_of world world-ReadsOneTable written pushed pushed_test

push_down_filters_once_example : push_down_filters pushed ≡ ok none
push_down_filters_once_example = push_down_filters_once written pushed pushed_test
