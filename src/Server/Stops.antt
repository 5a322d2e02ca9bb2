-- ===== src/Server/Stops.antt =====
-- quail/server/scheduler.py: how a turn of `run_one` closes a record that is still active.
use quail.Prelude.{
  ℕ, ◌≡◌, refl, ap, ◌∙◌, Bool, true, false, Option, none, some, List, ltb, inl, inr, Bool-cases,
  arith,
}
use Prim.Native.String.{String}
use quail.Server.Json.{Json}
use quail.Server.Records.{State, interrupted, cancelled, failed, is_active, is_terminal, QueryId}
use quail.Server.Store.{Row, Store}
use quail.Server.Lifecycle.{Outcome, closed, is_current, finish}
use quail.Server.Moves.{at_id}
use quail.Server.Submit.{get_known}
use quail.Server.Stale.{is_outcome, finish-at_id}
use quail.Server.Scheduler.{Reporter}
use quail.Server.Polling.{
  Poll, polled, happen, close_unfinished, decide, Next, over, again, take_turn,
}

-- How a record that is not done is to be closed, where `stop` has been called, where it was asked to
-- cancel, and where its time is over.
abbrev pub verdict : Bool → Bool → Bool → Option State
verdict true asked late = some interrupted
verdict false true late = some cancelled
verdict false false true = some failed
verdict false false false = none

abbrev state_at : Option Row → Option State
state_at none = none
state_at (some row) = some row.state

-- The state of the record when the loop is over.
abbrev pub state_closed : QueryId → Next → Option State
state_closed q (over store) = state_at (at_id q store)
state_closed q (again grace next) = none

closed_state :
    (q : QueryId) (epoch : ℕ) (outcome : Outcome) (now : ℕ) (store : Store) (row : Row)
    → at_id q store ≡ some row
    → is_current epoch row ≡ true
    → is_outcome outcome ≡ true
    → state_at (at_id q (close_unfinished q epoch now (finish q epoch outcome now store).1))
      ≡ some outcome.state
unfolding close_unfinished
closed_state q epoch outcome now store row is on legal =
    let after = (finish q epoch outcome now store).1 in
    let made : at_id q after ≡ some (closed outcome now row) =
      (finish-at_id q epoch outcome now store legal).1 ∙ rw (is, on) refl in
    let known = get_known q (closed outcome now row) after made in
    let terminal : is_terminal outcome.state ≡ true = ground arith in
    rw (known, close_unfinished, terminal) (ap state_at made)

module _ (sha256 : List Json → ℕ) (verify : Json → Option String) (directory : String) where
  -- Where the loop looks at a record that is not done, and the record still has the execution's epoch
  -- and is active when the turn writes: the loop is over after this turn, with the record interrupted
  -- where `stop` has been called, or else cancelled where that was asked for, or else failed where
  -- the deadline is past; and where none of these holds, the loop goes on.
  pub take_turn-verdict :
      (q : QueryId) (epoch deadline : ℕ) (p : Poll) (grace : Option ℕ) (state : Reporter × Store)
      (row later : Row)
      → at_id q (happen sha256 verify directory q epoch p.happenings state).1 ≡ some row
      → is_terminal row.state ≡ false
      → at_id q
          (happen sha256 verify directory q epoch p.meanwhile
            (happen sha256 verify directory q epoch p.happenings state)).1
        ≡ some later
      → later.execution_epoch ≡ epoch
      → is_active later.state ≡ true
      → state_closed q (take_turn sha256 verify directory q epoch deadline (polled p) grace state)
        ≡ verdict p.stopping row.cancel_requested (ltb deadline p.now)
  unfolding take_turn decide
  take_turn-verdict q epoch deadline p grace state row later is undone there same active =
      let looked = happen sha256 verify directory q epoch p.happenings state in
      let known = get_known q row looked.1 is in
      let current : is_current epoch later ≡ true = ground arith in
      elim (Bool-cases p.stopping) [
        | inl stopping ↦
            rw (known, take_turn, decide, undone, stopping)
              (closed_state q epoch _ p.now _ later there current refl)
        | inr on ↦ elim (Bool-cases row.cancel_requested) [
          | inl asked ↦
              rw (known, take_turn, decide, undone, on, asked)
                (closed_state q epoch _ p.now _ later there current refl)
          | inr kept ↦ elim (Bool-cases (ltb deadline p.now)) [
            | inl late ↦
                rw (known, take_turn, decide, undone, on, kept, late)
                  (closed_state q epoch _ p.now _ later there current refl)
            | inr early ↦ rw (known, take_turn, decide, undone, on, kept, early) refl
          ]
        ]
      ]
