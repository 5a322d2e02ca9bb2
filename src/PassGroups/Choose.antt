-- ===== src/PassGroups/Choose.antt =====
-- quail/cost/packing.py: `choose_pass_groups`. Positions count from 0, so that the question `a` of
-- the source, which counts from 1, stands at `a - 1` here.
use quail.Prelude.{
  ℕ, zero, suc, ◌+◌, ◌-◌, Bool, true, false, ◌&&◌, Option, none, some, List, [], ◌∷◌, leb, ◌==◌,
  if◌then◌else◌, given, length, take, drop, map, reverse,
}
use quail.Result.{Result, chain, ok, err, value_error}

-- What the choice asks of costs and row counts, which are floats.
pub record Prices (C R : Type 0) : Type 0 where
  pub nothing : C
  pub plus : C → C → C
  pub less : C → C → Bool
  pub times : R → R → R
  -- `unrounded_seconds(packed(state_tokens, group, ...) * reach, model, device, chunk_tokens)`
  pub price : List ℕ → R → C

pub record Question (R : Type 0) : Type 0 where
  pub tokens : ℕ
  pub selectivity : R

-- The arguments of `choose_pass_groups`; the two lists, of one length, are one list of pairs.
pub record Request (R : Type 0) : Type 0 where
  pub questions : List (Question R)
  pub rows : R
  pub longest_state : ℕ
  pub chunk_tokens : ℕ
  pub set_size : ℕ
  pub header : ℕ

abbrev pub sum : List ℕ → ℕ
sum [] = 0
sum (n ∷ ns) = n + sum ns

-- The first question of a group has no header.
abbrev pub with_headers : ℕ → List ℕ → List ℕ
with_headers header [] = []
with_headers header (n ∷ ns) = n ∷ map (λ k. k + header) ns

-- range(first, first + n)
abbrev pub range : ℕ → ℕ → List ℕ
range first zero = []
range first (suc n) = first ∷ range (suc first) n

-- `best` and `start`; `none` is `inf`.
pub record Table (C : Type 0) : Type 0 where
  pub best : ℕ → Option C
  pub start : ℕ → ℕ

-- xs[i] = x
abbrev pub set_at : {A : Type 0} → ℕ → A → (ℕ → A) → ℕ → A
set_at i x xs j = if j == i then x else xs j

module _ {R : Type 0} (q : Request R) where
  -- The questions at a up to b.
  abbrev pub group_of : ℕ → ℕ → List ℕ
  group_of a b = with_headers q.header (drop a (take b (map (λ x. x.tokens) q.questions)))

  abbrev pub fits : ℕ → ℕ → Bool
  fits a b =
      leb (length (group_of a b)) q.set_size
      && leb (q.longest_state + sum (group_of a b)) q.chunk_tokens

module _ {C R : Type 0} (o : Prices C R) where
  -- `reach`, at an index
  abbrev pub reach_at : R → List (Question R) → ℕ → R
  reach_at rows questions zero = rows
  reach_at rows [] (suc n) = rows
  reach_at rows (x ∷ questions) (suc n) = reach_at (o.times rows x.selectivity) questions n

  -- `cost < best[b]`
  abbrev pub is_less : Option C → Option C → Bool
  is_less none y = false
  is_less (some x) none = true
  is_less (some x) (some y) = o.less x y

  -- The price of one pass group.
  abbrev pub price_of : Request R → ℕ → ℕ → C
  price_of q a b = o.price (group_of q a b) (reach_at q.rows q.questions a)

  abbrev pub cost_of : Request R → ℕ → ℕ → Option C → Option C
  cost_of q a b before = given before none λ c. some (o.plus c (price_of q a b))

  -- The inner loop, from the group that starts at a - 1 on down: `(best[b], start[b])`.
  unfoldable pub scan : Request R → (ℕ → Option C) → ℕ → ℕ → Option C × ℕ → Option C × ℕ
  scan q best b zero found = found
  scan q best b (suc a) found =
      let cost = cost_of q a b (best a) in
      let rest = scan q best b a (if is_less cost found.0 then (cost, suc a) else found) in
      if fits q a b then rest else found

  -- The outer loop, with the rounds that are left.
  unfoldable pub fill : Request R → ℕ → ℕ → Table C → Result (Table C)
  unfolding scan
  fill q zero b t = ok t
  fill q (suc rounds) b t =
      let found = scan q t.best b b (none, 0) in
      let rest =
        fill q rounds (suc b)
          (record t { best = set_at b found.0 t.best; start = set_at b found.1 t.start }) in
      given found.0 (err value_error) λ cost. rest

  abbrev pub empty_table : Table C
  empty_table = record { best = set_at 0 (some o.nothing) (λ b. none); start = λ b. 0 }

-- `while b`, which appends the groups from the last to the first; a round for each question.
unfoldable pub trace : (ℕ → ℕ) → ℕ → ℕ → List (ℕ × ℕ)
trace start zero b = []
trace start (suc rounds) zero = []
trace start (suc rounds) (suc b) = (start (suc b), suc b) ∷ trace start rounds (start (suc b) - 1)

-- `for position in range(a - 1, b)`
unfoldable pub label_each : List ℕ → ℕ → (ℕ → ℕ) → ℕ → ℕ
label_each [] index groups = groups
label_each (position ∷ positions) index groups =
    label_each positions index (set_at position index groups)

-- `for index, (a, b) in enumerate(...)`
unfoldable pub label_all : ℕ → List (ℕ × ℕ) → (ℕ → ℕ) → ℕ → ℕ
unfolding label_each
label_all index [] groups = groups
label_all index ((a, b) ∷ bounds) groups =
    label_all (suc index) bounds (label_each (range (a - 1) (b - (a - 1))) index groups)

unfoldable pub choose_pass_groups : {C R : Type 0} → Prices C R → Request R → Result (List ℕ)
unfolding fill trace label_all
choose_pass_groups o q =
    let m = length q.questions in
    chain (fill o q m 1 (empty_table o))
      λ t. ok (map (label_all 0 (reverse (trace t.start m m)) (λ position. 0)) (range 0 m))
