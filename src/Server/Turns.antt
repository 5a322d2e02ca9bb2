-- ===== src/Server/Turns.antt =====
-- quail/server/scheduler.py: what a turn of `run_one` makes of a record that has begun.
use quail.Prelude.{
  ℕ, ◌<◌, Bool, ◌≡◌, ◌⊎◌, inl, inr, refl, sym, ap, subst, ◌∙◌, true, false, ◌&&◌, Option, some,
  List, ◌==◌, Bool-cases, arith,
}
use Prim.Native.String.{String}
use quail.Result.{ok, Result-cases}
use quail.Server.Json.{Json}
use quail.Server.Records.{
  State, queued, planning, running, succeeded, failed, interrupted, cancelled, is_active,
  is_terminal, is_queued, QueryId, QueryStatus, done,
}
use quail.Server.Store.{Row, row_status, Store, get}
use quail.Server.Lifecycle.{begin, Outcome, closed, is_current, finish, begins, step}
use quail.Server.Moves.{at_id}
use quail.Server.Legal.{LegalAt, IsLegal}
use quail.Server.History.{IsConsistent, step-IsConsistent}
use quail.Server.Submit.{get_known}
use quail.Server.Stale.{begin_row, is_outcome, finish-at_id, terminal_not_current}
use quail.Server.Scheduler.{Reporter, failure}
use quail.Server.Polling.{
  Turn, ends, raises, polled, time_of, happen, close_unfinished, Decision, closes, breaks, goes_on,
  decide, grace_end, Next, over, again, take_turn,
}
use quail.Server.Begun.{IsBegun, finish-IsBegun, happen-IsBegun}

unfoldable pub IsClosed : QueryId → Store → Type 0
IsClosed q store = (row : Row) × (at_id q store ≡ some row) × (is_terminal row.state ≡ true)

-- A record that is neither queued nor closed has the one epoch there is.
current_in :
    (s : State) (row : Row)
    → LegalAt s row
    → is_queued s ≡ false
    → is_terminal s ≡ false
    → ((row.execution_epoch == 1) && is_active s) ≡ true
current_in planning row l q t = ground arith
current_in running row l q t = ground arith
current_in queued row l q t = ground arith
current_in succeeded row l q t = ground arith
current_in failed row l q t = ground arith
current_in interrupted row l q t = ground arith
current_in cancelled row l q t = ground arith

current :
    (row : Row)
    → IsLegal row
    → is_queued row.state ≡ false
    → is_terminal row.state ≡ false
    → is_current 1 row ≡ true
current row l q t = current_in row.state row l q t

pub finish-IsClosed :
    (q : QueryId) (outcome : Outcome) (now : ℕ) (store : Store)
    → IsBegun q store
    → is_outcome outcome ≡ true
    → IsClosed q (finish q 1 outcome now store).1
unfolding IsBegun IsConsistent IsClosed
finish-IsClosed q outcome now store (c, (row, is, h)) legal =
    let made = (finish-at_id q 1 outcome now store legal).1 in
    elim (Bool-cases (is_terminal row.state)) [
      | inl t ↦
          let off : is_current 1 row ≡ false = terminal_not_current 1 row t in
          (row, made ∙ rw (is, off), t)
      | inr f ↦
          let on : is_current 1 row ≡ true = current row (c.1 q row is) h f in
          (closed outcome now row, made ∙ rw (is, on), ground arith)
    ]

pub closed_status :
    (q : QueryId) (store : Store)
    → IsClosed q store
    → (status : QueryStatus) × (get q store ≡ ok status) × (done status ≡ true)
unfolding IsClosed
closed_status q store (row, is, t) = (row_status q row, get_known q row store is, t)

close_unfinished-IsClosed :
    (q : QueryId) (now : ℕ) (store : Store)
    → IsBegun q store
    → IsClosed q (close_unfinished q 1 now store)
unfolding close_unfinished IsClosed IsBegun
close_unfinished-IsClosed q now store b =
    let (row, is, h) = b.1 in
    let known = get_known q row store is in
    elim (Bool-cases (is_terminal row.state)) [
      | inl t ↦ rw (known, close_unfinished, t) (row, is, t)
      | inr f ↦ rw (known, close_unfinished, f) (finish-IsClosed q _ now store b refl)
    ]

Decision-cases :
    (d : Decision)
    → ((d ≡ breaks) ⊎ ((outcome : Outcome) × (d ≡ closes outcome)))
      ⊎ ((later : Option ℕ) × (d ≡ goes_on later))
Decision-cases breaks = inl (inl refl)
Decision-cases (closes outcome) = inl (inr (outcome, refl))
Decision-cases (goes_on later) = inr (later, refl)

pub begin-IsBegun :
    (q : QueryId) (epoch now : ℕ) (store : Store)
    → IsConsistent store
    → (begin q now store).0 ≡ ok epoch
    → (epoch ≡ 1) × IsBegun q (begin q now store).1
unfolding IsBegun IsConsistent step
begin-IsBegun q epoch now store c b =
    let (row, is, p, e) = begin_row q epoch now store b in
    let after : IsConsistent (begin q now store).1 =
      step-IsConsistent (λ js. 0) (begins q) now store c in
    let legal = subst (λ s. LegalAt s row) p (after.1 q row is) in
    (sym e ∙ legal.0, (after, (row, is, ap is_queued p)))

-- Once a record that is closed has set a deadline, it stays.
pub decide_kept :
    (status : QueryStatus) (deadline : ℕ) (stopping : Bool) (now d : ℕ) (later : Option ℕ)
    → decide status deadline stopping now (some d) ≡ goes_on later
    → later ≡ some d
unfolding decide
decide_kept status deadline stopping now d later h = ground arith

-- Past the deadline, only a closed record with grace left lets the loop go on.
pub decide_late :
    (status : QueryStatus) (deadline : ℕ) (stopping : Bool) (now : ℕ) (grace later : Option ℕ)
    → deadline < now
    → decide status deadline stopping now grace ≡ goes_on later
    → (later ≡ some (grace_end now grace)) × (now < grace_end now grace)
unfolding decide
decide_late status deadline stopping now grace later late h = ground arith

module _ (sha256 : List Json → ℕ) (verify : Json → Option String) (directory : String) where
  -- A turn closes the record, or leaves one that has begun.
  abbrev pub Leaves : QueryId → Next → Type 0
  Leaves q (over store) = IsClosed q store
  Leaves q (again grace next) = IsBegun q next.1

  pub take_turn-Leaves :
      (q : QueryId) (deadline : ℕ) (turn : Turn) (grace : Option ℕ) (r : Reporter) (store : Store)
      → IsBegun q store
      → Leaves q (take_turn sha256 verify directory q 1 deadline turn grace (r, store))
  unfolding take_turn
  take_turn-Leaves q deadline (ends hs now) grace r store b =
      close_unfinished-IsClosed q now _ (happen-IsBegun sha256 verify directory q 1 hs r store b)
  take_turn-Leaves q deadline (raises hs error now) grace r store b =
      finish-IsClosed q (failure error) now _
        (happen-IsBegun sha256 verify directory q 1 hs r store b) refl
  take_turn-Leaves q deadline (polled p) grace r store b =
      let looked = happen sha256 verify directory q 1 p.happenings (r, store) in
      let after = happen sha256 verify directory q 1 p.meanwhile looked in
      let begun_after =
        happen-IsBegun sha256 verify directory q 1 p.meanwhile looked.0 looked.1
          (happen-IsBegun sha256 verify directory q 1 p.happenings r store b) in
      elim (Result-cases (get q looked.1)) [
        | inr (x, e) ↦ rw (e, take_turn) (finish-IsClosed q _ p.now after.1 begun_after refl)
        | inl (status, e) ↦ elim (Decision-cases (decide status deadline p.stopping p.now grace)) [
          | inl (inl d) ↦
              rw (e, take_turn, d) (close_unfinished-IsClosed q p.now after.1 begun_after)
          | inl (inr (outcome, d)) ↦
              rw (e, take_turn, d)
                (close_unfinished-IsClosed q p.now _
                  (finish-IsBegun sha256 q q 1 outcome p.now after.1 begun_after))
          | inr (later, d) ↦ rw (e, take_turn, d) begun_after
        ]
      ]

  -- What makes a turn go on.
  pub goes_on_of :
      (q : QueryId) (deadline : ℕ) (turn : Turn) (grace later : Option ℕ)
      (r next : Reporter × Store)
      → take_turn sha256 verify directory q 1 deadline turn grace r ≡ again later next
      → (status : QueryStatus) × (stopping : Bool) × (decide status deadline stopping
            (time_of turn)
            grace
          ≡ goes_on later)
  unfolding take_turn
  goes_on_of q deadline (ends hs now) grace later r next h = ground arith
  goes_on_of q deadline (raises hs error now) grace later r next h = ground arith
  goes_on_of q deadline (polled p) grace later r next h =
      let looked = happen sha256 verify directory q 1 p.happenings r in
      elim (Result-cases (get q looked.1)) [
        | inr (x, e) ↦ absurd (let bad = rw (e, take_turn) at h in ground arith)
        | inl (status, e) ↦ elim (Decision-cases (decide status deadline p.stopping p.now grace)) [
          | inl (inl d) ↦ absurd (let bad = rw (e, take_turn, d) at h in ground arith)
          | inl (inr (outcome, d)) ↦ absurd (let bad = rw (e, take_turn, d) at h in ground arith)
          | inr (found, d) ↦
              let same : again found _ ≡ again later next = rw (e, take_turn, d) at h in
              (status, p.stopping, d ∙ ground arith)
        ]
      ]
