-- ===== src/Server/Legal.antt =====
-- quail/server/store.py: what holds of a record in each of its states, and that every move keeps it.
use quail.Prelude.{◌≤◌, ◌≡◌, refl, true, false, not, ◌&&◌, Option, none, some, is_some, arith}
use quail.Server.Records.{
  State, queued, planning, running, succeeded, failed, interrupted, cancelled, is_active,
  is_terminal, is_queued,
}
use quail.Server.Store.{Row}
use quail.Server.Lifecycle.{state_or, sets_inactive, is_succeeded}
use quail.Server.Moves.{Moves, begins_at, reports_at, closes_at, cancels_at, asks_at, interrupts_at}

-- What holds of a record in each state: an execution has begun just if the record has left the
-- queue, and only a closed record has an error or a result.
abbrev pub LegalAt : State → Row → Type 0
LegalAt queued row =
    (row.execution_epoch ≡ 0)
    × ((row.revision ≡ 1)
        × ((row.started_at ≡ none)
            × ((row.cancel_requested ≡ false) × ((row.error ≡ none) × (row.result ≡ none)))))
LegalAt planning row =
    (row.execution_epoch ≡ 1)
    × ((is_some row.started_at ≡ true) × ((row.error ≡ none) × (row.result ≡ none)))
LegalAt running row =
    (row.execution_epoch ≡ 1)
    × ((is_some row.started_at ≡ true) × ((row.error ≡ none) × (row.result ≡ none)))
LegalAt succeeded row = (row.execution_epoch ≡ 1) × (is_some row.result ≡ true)
LegalAt failed row = row.execution_epoch ≡ 1
LegalAt interrupted row = row.execution_epoch ≡ 1
LegalAt cancelled row = row.execution_epoch ≤ 1

abbrev pub IsLegal : Row → Type 0
IsLegal row = LegalAt row.state row

legal_queued : (s : State) (row : Row) → is_queued s ≡ true → LegalAt s row → LegalAt queued row
legal_queued queued row q l = l
legal_queued planning row q l = ground arith
legal_queued running row q l = ground arith
legal_queued succeeded row q l = ground arith
legal_queued failed row q l = ground arith
legal_queued interrupted row q l = ground arith
legal_queued cancelled row q l = ground arith

legal_active : (s : State) (row : Row) → is_active s ≡ true → LegalAt s row → LegalAt running row
legal_active queued row q l = ground arith
legal_active planning row q l = l
legal_active running row q l = l
legal_active succeeded row q l = ground arith
legal_active failed row q l = ground arith
legal_active interrupted row q l = ground arith
legal_active cancelled row q l = ground arith

active_legal : (s : State) (row : Row) → is_active s ≡ true → LegalAt running row → LegalAt s row
active_legal planning row q l = l
active_legal running row q l = l
active_legal queued row q l = ground arith
active_legal succeeded row q l = ground arith
active_legal failed row q l = ground arith
active_legal interrupted row q l = ground arith
active_legal cancelled row q l = ground arith

reported-IsLegal :
    (row after : Row) (s : Option State)
    → LegalAt running after
    → sets_inactive s ≡ false
    → is_active row.state ≡ true
    → LegalAt (state_or s row.state) after
reported-IsLegal row after none l h active = active_legal row.state after active l
reported-IsLegal row after (some planning) l h active = l
reported-IsLegal row after (some running) l h active = l
reported-IsLegal row after (some queued) l h active = ground arith
reported-IsLegal row after (some succeeded) l h active = ground arith
reported-IsLegal row after (some failed) l h active = ground arith
reported-IsLegal row after (some interrupted) l h active = ground arith
reported-IsLegal row after (some cancelled) l h active = ground arith

closed-IsLegal :
    (s : State) (after : Row)
    → after.execution_epoch ≡ 1
    → is_terminal s ≡ true
    → (is_succeeded s && not (is_some after.result)) ≡ false
    → LegalAt s after
closed-IsLegal succeeded after e t h = (e, ground arith)
closed-IsLegal failed after e t h = e
closed-IsLegal interrupted after e t h = e
closed-IsLegal cancelled after e t h = omega arith
closed-IsLegal queued after e t h = ground arith
closed-IsLegal planning after e t h = ground arith
closed-IsLegal running after e t h = ground arith

pub Moves-IsLegal : (row after : Row) → Moves row after → IsLegal row → IsLegal after
Moves-IsLegal row _ (begins_at _ now q) l =
    let old = legal_queued row.state row q l in
    (omega arith, (refl, (old.1.1.1.1.0, old.1.1.1.1.1)))
Moves-IsLegal row _ (reports_at _ report now active h) l =
    reported-IsLegal row _ report.state (legal_active row.state row active l) h active
Moves-IsLegal row _ (closes_at _ outcome now active t h) l =
    closed-IsLegal outcome.state _ (legal_active row.state row active l).0 t h
Moves-IsLegal row _ (cancels_at _ now q) l = let old = legal_queued row.state row q l in omega arith
Moves-IsLegal row _ (asks_at _ now active h) l =
    active_legal row.state _ active (legal_active row.state row active l)
Moves-IsLegal row _ (interrupts_at _ now active) l = (legal_active row.state row active l).0
