-- ===== src/Server/Stale.antt =====
-- quail/server/store.py: which executions may change a record, and which may not any more.
use quail.Prelude.{
  ℕ, ◌+◌, ◌≡◌, inl, inr, refl, ap, ◌∙◌, Bool, true, false, not, ◌&&◌, Option, none, some, List,
  ◌==◌, nat_eq, list_eq, is_some, Bool-cases, Option-cases, arith,
}
use quail.Dict.{lookup}
use quail.Result.{ok, err, invalid_request_error}
use quail.Server.Json.{Json}
use quail.Server.Records.{planning, is_terminal, is_queued, QueryId}
use quail.Server.Store.{Row, Store, update_where, row_of}
use quail.Server.Lifecycle.{
  begun, begin, Report, reported, sets_inactive, is_current, update, Outcome, closed, is_succeeded,
  finish, Call, run,
}
use quail.Server.Moves.{at_id, changed, update_where-own}
use quail.Server.Distinct.{IsDistinct, begin-IsDistinct}
use quail.Server.Frozen.{run_terminal, run-Follows, terminal_neither}

abbrev is_current_at : ℕ → Option Row → Bool
is_current_at epoch none = false
is_current_at epoch (some row) = is_current epoch row

count_where :
    (q : QueryId) (holds : Row → Bool) (change : Row → Row) (durable : Bool) (store : Store)
    → ((update_where q holds change durable store).0 == 1)
      ≡ (elim (at_id q store) [ none ↦ false | some row ↦ holds row ])
unfolding update_where
count_where q holds change durable store = elim (Option-cases (lookup q store.queries)) [
  | inl e ↦ rw (e, update_where)
  | inr (row, e) ↦ elim (Bool-cases (holds row)) [
    | inl h ↦ rw (e, update_where, h)
    | inr h ↦ rw (e, update_where, h)
  ]
]

-- An outcome that `finish` accepts.
abbrev pub is_outcome : Outcome → Bool
is_outcome outcome =
    is_terminal outcome.state && not (is_succeeded outcome.state && not (is_some outcome.result))

-- `finish`, for an outcome that it accepts, returns True just if the record is active and has the
-- epoch of the call, and then closes the record with the outcome; else it leaves the record.
pub finish-at_id :
    (q : QueryId) (epoch : ℕ) (outcome : Outcome) (now : ℕ) (store : Store)
    → is_outcome outcome ≡ true
    → ((finish q epoch outcome now store).0 ≡ ok (is_current_at epoch (at_id q store)))
      × (at_id q (finish q epoch outcome now store).1
          ≡ changed (is_current epoch) (closed outcome now) (at_id q store))
unfolding finish
finish-at_id q epoch outcome now store legal =
    let t : is_terminal outcome.state ≡ true = ground arith in
    let r : (is_succeeded outcome.state && not (is_some outcome.result)) ≡ false = ground arith in
    let count = count_where q (is_current epoch) (closed outcome now) true store in
    let own = update_where-own q (is_current epoch) (closed outcome now) true store in
    (rw (t, finish, r) (ap ok count), rw (t, finish, r) own)

pub terminal_not_current :
    (epoch : ℕ) (row : Row) → is_terminal row.state ≡ true → is_current epoch row ≡ false
terminal_not_current epoch row t = let apart = (terminal_neither row.state t).1 in ground arith

update-result :
    (q : QueryId) (epoch : ℕ) (report : Report) (now : ℕ) (store : Store)
    → sets_inactive report.state ≡ false
    → (update q epoch report now store).0 ≡ ok (is_current_at epoch (at_id q store))
unfolding update
update-result q epoch report now store h =
    rw (h, update) (ap ok (count_where q (is_current epoch) (reported report now) _ store))

begin_not_queued :
    (q : QueryId) (row : Row) (now : ℕ) (store : Store)
    → at_id q store ≡ some row
    → is_queued row.state ≡ false
    → begin q now store ≡ (err invalid_request_error, store)
unfolding begin row_of
begin_not_queued q row now store e h = rw (e, begin, h)

pub begin_row :
    (q : QueryId) (epoch now : ℕ) (store : Store)
    → (begin q now store).0 ≡ ok epoch
    → (row : Row) × (at_id q (begin q now store).1 ≡ some row)
      × (row.state ≡ planning)
      × (row.execution_epoch ≡ epoch)
unfolding begin row_of
begin_row q epoch now store b = elim (Option-cases (lookup q store.queries)) [
  | inl e ↦ let bad = rw (e, begin) at b in ground arith
  | inr (row, e) ↦ elim (Bool-cases (is_queued row.state)) [
    | inr h ↦ let bad = rw (e, begin, h) at b in ground arith
    | inl h ↦
        let next = begun (row.execution_epoch + 1) now row in
        let own =
          update_where-own q (λ r. is_queued r.state) (begun (row.execution_epoch + 1) now) true
            store in
        let same = rw (e, begin, h) at b in
        (next, rw (e, begin, h) (own ∙ rw (e, h)), refl, ground arith)
  ]
]

module _ (sha256 : List Json → ℕ) where
  -- In a store whose ids are distinct, once a record is in a terminal state, whatever calls follow, an update of it and a closing of it
  -- that pass their checks return False, whatever epoch they carry.
  pub closed_rejects :
      (calls : List (Call × ℕ)) (store : Store) (q : QueryId) (row : Row)
      → IsDistinct store
      → at_id q store ≡ some row
      → is_terminal row.state ≡ true
      → (epoch : ℕ) (report : Report) (outcome : Outcome) (now : ℕ)
      → sets_inactive report.state ≡ false
      → is_outcome outcome ≡ true
      → ((update q epoch report now (run sha256 calls store)).0 ≡ ok false)
        × ((finish q epoch outcome now (run sha256 calls store)).0 ≡ ok false)
  closed_rejects calls store q row u is t epoch report outcome now h l =
      let after = run sha256 calls store in
      let there = run_terminal sha256 calls store q row u is t in
      let no : ok (is_current_at epoch (at_id q after)) ≡ ok false =
        ap (λ o. ok (is_current_at epoch o)) there ∙ ap ok (terminal_not_current epoch row t) in
      (
        update-result q epoch report now after h ∙ no,
        (finish-at_id q epoch outcome now after l).0 ∙ no,
      )

  -- In a store whose ids are distinct, an execution that has begun is the only one of its record:
  -- whatever calls follow, another begin
  -- raises InvalidRequestError and changes nothing.
  pub begin_once :
      (calls : List (Call × ℕ)) (store : Store) (q : QueryId) (epoch now later : ℕ)
      → IsDistinct store
      → (begin q now store).0 ≡ ok epoch
      → begin q later (run sha256 calls (begin q now store).1)
        ≡ (err invalid_request_error, run sha256 calls (begin q now store).1)
  begin_once calls store q epoch now later u b =
      let first = begin_row q epoch now store b in
      let after =
        run-Follows sha256 calls (begin q now store).1 q first.0 (begin-IsDistinct q now store u)
          first.1 (ap is_queued first.2) in
      begin_not_queued q after.0 later (run sha256 calls (begin q now store).1) after.1 after.3
