-- ===== src/Server/Frozen.antt =====
-- quail/server/store.py: a record that has left the queue only moves forward, and a closed one stays as it is.
use quail.Prelude.{
  ℕ, ◌<◌, ◌≡◌, inl, inr, refl, sym, subst, true, false, Option, none, some, List, [], ◌∷◌,
  Bool-cases, arith,
}
use quail.Server.Json.{Json}
use quail.Server.Records.{
  State, queued, planning, running, succeeded, failed, interrupted, cancelled, is_active,
  is_terminal, is_queued, QueryId,
}
use quail.Server.Store.{Row, Store}
use quail.Server.Lifecycle.{state_or, sets_inactive, Call, step, run}
use quail.Server.Moves.{
  Moves, begins_at, reports_at, closes_at, cancels_at, asks_at, interrupts_at, Becomes, same, moves,
  starts, leaves, at_id,
}
use quail.Server.Steps.{same_row}
use quail.Server.Distinct.{IsDistinct, step-IsDistinct}
use quail.Server.History.{step-Becomes}

-- How a record that has left the queue goes on: it stays, and every change counts its revision up.
pub data Follows : Row → Row → Type 0 where
  unchanged : (row : Row) → Follows row row
  further : (row after : Row) → row.revision < after.revision → Follows row after

Follows-trans : (a b c : Row) → Follows a b → Follows b c → Follows a c
Follows-trans a _ _ (unchanged _) g = g
Follows-trans a b _ (further _ _ p) (unchanged _) = further a b p
Follows-trans a b c (further _ _ p) (further _ _ q) = further a c omega arith

pub active_not_queued : (s : State) → is_active s ≡ true → is_queued s ≡ false
active_not_queued queued a = ground arith
active_not_queued planning a = refl
active_not_queued running a = refl
active_not_queued succeeded a = refl
active_not_queued failed a = refl
active_not_queued interrupted a = refl
active_not_queued cancelled a = refl

pub terminal_neither :
    (s : State) → is_terminal s ≡ true → (is_queued s ≡ false) × (is_active s ≡ false)
terminal_neither queued t = ground arith
terminal_neither planning t = ground arith
terminal_neither running t = ground arith
terminal_neither succeeded t = (refl, refl)
terminal_neither failed t = (refl, refl)
terminal_neither interrupted t = (refl, refl)
terminal_neither cancelled t = (refl, refl)

reported_active :
    (s : Option State) (old : State)
    → sets_inactive s ≡ false
    → is_active old ≡ true
    → is_active (state_or s old) ≡ true
reported_active none old h a = a
reported_active (some s) old h a = ground arith

pub Moves-is_queued : (row after : Row) → Moves row after → is_queued after.state ≡ false
Moves-is_queued row _ (begins_at _ now q) = refl
Moves-is_queued row _ (reports_at _ report now a t) =
    active_not_queued (state_or report.state row.state) (reported_active report.state row.state t a)
Moves-is_queued row _ (closes_at _ outcome now a t r) = (terminal_neither outcome.state t).0
Moves-is_queued row _ (cancels_at _ now q) = refl
Moves-is_queued row _ (asks_at _ now a c) = active_not_queued row.state a
Moves-is_queued row _ (interrupts_at _ now a) = refl

stuck :
    (row after : Row)
    → Moves row after
    → is_queued row.state ≡ false
    → is_active row.state ≡ false
    → is_terminal row.state ≡ false
stuck row _ (begins_at _ now q) h a = ground arith
stuck row _ (reports_at _ report now b t) h a = ground arith
stuck row _ (closes_at _ outcome now b t r) h a = ground arith
stuck row _ (cancels_at _ now q) h a = ground arith
stuck row _ (asks_at _ now b c) h a = ground arith
stuck row _ (interrupts_at _ now b) h a = ground arith

Moves-is_terminal : (row after : Row) → Moves row after → is_terminal row.state ≡ false
Moves-is_terminal row after move = elim (Bool-cases (is_terminal row.state)) [
  | inr f ↦ f
  | inl t ↦ let apart = terminal_neither row.state t in stuck row after move apart.0 apart.1
]

Moves-Follows :
    (row after : Row) → Moves row after → is_queued row.state ≡ false → Follows row after
Moves-Follows row _ (begins_at _ now q) h = ground arith
Moves-Follows row _ (reports_at _ report now a t) h = further row _ omega arith
Moves-Follows row _ (closes_at _ outcome now a t r) h = further row _ omega arith
Moves-Follows row _ (cancels_at _ now q) h = ground arith
Moves-Follows row _ (asks_at _ now a c) h = further row _ omega arith
Moves-Follows row _ (interrupts_at _ now a) h = further row _ omega arith

-- The record that a record that has left the queue becomes.
abbrev Later : Row → Option Row → Type 0
Later row o = (after : Row) × (o ≡ some after) × Follows row after × (is_queued after.state ≡ false)

Becomes-Later :
    (o p : Option Row)
    → Becomes o p
    → (row : Row) → o ≡ some row
    → is_queued row.state ≡ false
    → Later row p
Becomes-Later _ _ (same o) row is h = (row, is, unchanged row, h)
Becomes-Later _ _ (moves r after move) row is h =
    let here = same_row row r (sym is) in
    (
      after,
      refl,
      subst (λ x. Follows x after) (sym here)
          (Moves-Follows r after move (subst (λ x. is_queued x.state ≡ false) here h)),
      Moves-is_queued r after move,
    )
Becomes-Later _ _ (starts session_id hash spec config inputs timeout_s now) row is h = ground arith
Becomes-Later _ _ (leaves r q) row is h =
    let there = subst (λ x. is_queued x.state ≡ false) (same_row row r (sym is)) h in ground arith

Becomes-terminal :
    (o p : Option Row)
    → Becomes o p
    → (row : Row) → o ≡ some row
    → is_terminal row.state ≡ true
    → p ≡ some row
Becomes-terminal _ _ (same o) row is t = is
Becomes-terminal _ _ (moves r after move) row is t =
    let stays = Moves-is_terminal r after move in
    let there = subst (λ x. is_terminal x.state ≡ true) (same_row row r (sym is)) t in ground arith
Becomes-terminal _ _ (starts session_id hash spec config inputs timeout_s now) row is t =
    ground arith
Becomes-terminal _ _ (leaves r q) row is t =
    let there =
      terminal_neither r.state
        (subst (λ x. is_terminal x.state ≡ true) (same_row row r (sym is)) t) in
    ground arith

module _ (sha256 : List Json → ℕ) where
  -- In a store whose ids are distinct, a record in a terminal state never changes and is never
  -- removed, whatever calls follow.
  pub run_terminal :
      (calls : List (Call × ℕ)) (store : Store) (q : QueryId) (row : Row)
      → IsDistinct store
      → at_id q store ≡ some row
      → is_terminal row.state ≡ true
      → at_id q (run sha256 calls store) ≡ some row
  unfolding run
  run_terminal [] store q row u is t = is
  run_terminal ((call, now) ∷ calls) store q row u is t =
      run_terminal calls (step sha256 call now store) q row
        (step-IsDistinct sha256 call now store u)
        (Becomes-terminal _ _ (step-Becomes sha256 call now store q u) row is t) t

  -- In a store whose ids are distinct, a record that has left the queue is never removed and never
  -- queued again, and whatever calls follow, it is either the same record or has a greater revision: a client that waits for a
  -- revision greater than the one it saw misses no change.
  pub run-Follows :
      (calls : List (Call × ℕ)) (store : Store) (q : QueryId) (row : Row)
      → IsDistinct store
      → at_id q store ≡ some row
      → is_queued row.state ≡ false
      → (after : Row) × (at_id q (run sha256 calls store) ≡ some after)
        × Follows row after
        × (is_queued after.state ≡ false)
  unfolding run
  run-Follows [] store q row u is h = (row, is, unchanged row, h)
  run-Follows ((call, now) ∷ calls) store q row u is h =
      let next = Becomes-Later _ _ (step-Becomes sha256 call now store q u) row is h in
      let rest =
        run-Follows calls (step sha256 call now store) q next.0
          (step-IsDistinct sha256 call now store u) next.1 next.3 in
      (rest.0, rest.1, Follows-trans row next.0 rest.0 next.2 rest.2, rest.3)
