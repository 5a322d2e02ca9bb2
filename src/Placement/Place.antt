-- ===== src/Placement/Place.antt =====
-- quail/logical/placement.py: `place_conditions`, and quail/logical/expressions.py: the columns that
-- an expression reads. Aliases, columns, fields and functions are numbers.
use quail.Prelude.{
  ℕ, suc, Bool, true, false, not, ◌&&◌, ◌||◌, Option, none, some, List, [], ◌∷◌, ◌++◌, ◌==◌,
  if◌then◌else◌, nat_eq, pair_eq, is_some, member,
}
use quail.Dict.{Dict, lookup, put}
use quail.Result.{Result, ok, err, compile_error}
use quail.Conditions.Syntax.{
  Condition, test, not_of, and_of, or_of, Conditions, nil, cons, normalize, conjuncts,
}
use quail.Conditions.Normal.{depth}

mutual
  pub data Expression : Type 0 where
    column_ref : ℕ → ℕ → Expression
    literal : ℕ → Expression
    get_field : Expression → ℕ → Expression
    scalar_function : ℕ → Expressions → Expression
    alias_of : Expression → ℕ → Expression

  pub data Expressions : Type 0 where
    nothing : Expressions
    argument : Expression → Expressions → Expressions

abbrev has_reference : ℕ × ℕ → List (ℕ × ℕ) → Bool
has_reference r [] = false
has_reference r (q ∷ qs) = pair_eq.same q r || has_reference r qs

-- `dict.fromkeys`, which keeps the first of equal references
unfoldable pub distinct : List (ℕ × ℕ) → List (ℕ × ℕ) → List (ℕ × ℕ)
distinct seen [] = []
distinct seen (r ∷ rs) =
    let skip = distinct seen rs in
    let keep = distinct (r ∷ seen) rs in if has_reference r seen then skip else r ∷ keep

unfoldable mutual
  pub column_references : Expression → List (ℕ × ℕ)
  column_references (column_ref table column) = (table, column) ∷ []
  column_references (literal v) = []
  column_references (get_field e name) = column_references e
  column_references (scalar_function f es) = distinct [] (argument_references es)
  column_references (alias_of e name) = column_references e

  pub argument_references : Expressions → List (ℕ × ℕ)
  argument_references nothing = []
  argument_references (argument e es) = column_references e ++ argument_references es

-- `tests`, each with its references
unfoldable mutual
  pub references_of : {V : Type 0} → Condition Expression V → List (ℕ × ℕ)
  references_of (test e c) = column_references e
  references_of (not_of c) = references_of c
  references_of (and_of cs) = references_of_each cs
  references_of (or_of cs) = references_of_each cs

  pub references_of_each : {V : Type 0} → Conditions Expression V → List (ℕ × ℕ)
  references_of_each nil = []
  references_of_each (cons c cs) = references_of c ++ references_of_each cs

pub data Kind : Type 0 where
  label extract features map_answer : Kind

-- `(kind, name)`
abbrev pub Owner : Type 0
Owner = Kind × ℕ

abbrev kind_number : Kind → ℕ
kind_number label = 0
kind_number extract = 1
kind_number features = 2
kind_number map_answer = 3

-- `owners - {None}`, with repetitions
unfoldable pub owners_of : Dict (ℕ × ℕ) Owner → List (ℕ × ℕ) → List Owner
owners_of computed [] = []
owners_of computed (r ∷ rs) =
    let rest = owners_of computed rs in
    elim (lookup r computed) [ none ↦ rest | some owner ↦ owner ∷ rest ]

-- The table alias that every reference has, if there is one: `len(aliases) == 1`.
unfoldable pub same_alias : ℕ → List (ℕ × ℕ) → Bool
same_alias table [] = true
same_alias table (r ∷ rs) = (r.0 == table) && same_alias table rs

abbrev pub one_alias : List (ℕ × ℕ) → Option ℕ
one_alias [] = none
one_alias (r ∷ rs) = if same_alias r.0 rs then some r.0 else none

unfoldable pub same_kind : Kind → List Owner → Bool
same_kind kind [] = true
same_kind kind (o ∷ os) = (kind_number o.0 == kind_number kind) && same_kind kind os

-- `len({kind for kind, _ in owners - {None}}) == 1`
abbrev pub one_kind : List Owner → Bool
one_kind [] = false
one_kind (o ∷ os) = same_kind o.0 os

unfoldable pub reads_label : List Owner → Bool
reads_label [] = false
reads_label (o ∷ os) = (kind_number o.0 == 0) || reads_label os

unfoldable pub same_owner : Owner → List Owner → Bool
same_owner owner [] = true
same_owner owner (o ∷ os) =
    ((kind_number o.0 == kind_number owner.0) && (o.1 == owner.1)) && same_owner owner os

-- `len(owners - {None}) > 1`
abbrev pub several : List Owner → Bool
several [] = false
several (o ∷ os) = not (same_owner o os)

abbrev pub is_empty {ℓ} : {A : Type ℓ} → List A → Bool
is_empty [] = true
is_empty (x ∷ xs) = false

-- `d.setdefault(key, []).append(part)`
abbrev or_empty {ℓ} : {A : Type ℓ} → Option (List A) → List A
or_empty none = []
or_empty (some xs) = xs

unfoldable pub append_to : {A : Type 0} → ℕ → A → Dict ℕ (List A) → Dict ℕ (List A)
append_to key part d = put key (or_empty (lookup key d) ++ part ∷ []) d

pub record PlacedConditions (V : Type 0) : Type 0 where
  pub scans : Dict ℕ (List (Condition Expression V))
  pub computed : Dict ℕ (List (Condition Expression V × Option ℕ))
  pub rows : List (Condition Expression V)

abbrev pub nothing_placed : {V : Type 0} → PlacedConditions V
nothing_placed = record { scans = []; computed = []; rows = [] }

module _ {V : Type 0} where
  -- `normalize`, with enough fuel
  abbrev pub normalized : Condition Expression V → Condition Expression V
  normalized c = elim (normalize (suc (depth c)) c) [ none ↦ c | some n ↦ n ]

  -- `conjuncts(condition) if selectivity is None else (condition,)`
  abbrev pub parts_of : Option ℕ → Condition Expression V → Conditions Expression V
  parts_of none condition = conjuncts condition
  parts_of (some selectivity) condition = cons condition nil

  module _ (validates : Condition Expression V → Bool) (computed : Dict (ℕ × ℕ) Owner)
      (unnested : List ℕ) where
    -- The part on result rows.
    unfoldable pub place_on_rows :
        Option ℕ
        → Condition Expression V
        → List Owner
        → PlacedConditions V
        → Result (PlacedConditions V)
    place_on_rows selectivity part owners placed =
        if reads_label owners && several owners
        then err compile_error
        else if is_some selectivity
        then err compile_error
        else ok (record placed { rows = placed.rows ++ part ∷ [] })

    -- The part of one table's columns.
    unfoldable pub place_on_table :
        ℕ
        → Option ℕ
        → Condition Expression V
        → List Owner
        → PlacedConditions V
        → Result (PlacedConditions V)
    place_on_table table selectivity part owners placed =
        if member table unnested
        then place_on_rows selectivity part owners placed
        else if is_empty owners
        then (if is_some selectivity
            then err compile_error
            else ok (record placed { scans = append_to table part placed.scans }))
        else if one_kind owners
        then ok (record placed { computed = append_to table (part, selectivity) placed.computed })
        else place_on_rows selectivity part owners placed

    unfoldable pub place_part :
        Option ℕ → Condition Expression V → PlacedConditions V → Result (PlacedConditions V)
    place_part selectivity part placed =
        if not (validates part) then err compile_error else elim (one_alias (references_of part)) [
          | some table ↦
              place_on_table table selectivity part (owners_of computed (references_of part)) placed
          | none ↦ place_on_rows selectivity part (owners_of computed (references_of part)) placed
        ]

    unfoldable pub place_parts :
        Option ℕ → Conditions Expression V → PlacedConditions V → Result (PlacedConditions V)
    place_parts selectivity nil placed = ok placed
    place_parts selectivity (cons part parts) placed = elim (place_part selectivity part placed) [
      | err e ↦ err e
      | ok after ↦ place_parts selectivity parts after
    ]

    unfoldable pub place_each :
        List (Condition Expression V × Option ℕ) → PlacedConditions V → Result (PlacedConditions V)
    place_each [] placed = ok placed
    place_each ((condition, selectivity) ∷ conditions) placed =
        elim (place_parts selectivity (parts_of selectivity (normalized condition)) placed) [
          | err e ↦ err e
          | ok after ↦ place_each conditions after
        ]

    abbrev pub place_conditions :
        List (Condition Expression V × Option ℕ) → Result (PlacedConditions V)
    place_conditions conditions = place_each conditions nothing_placed
