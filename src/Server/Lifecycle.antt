-- ===== src/Server/Lifecycle.antt =====
-- quail/server/store.py: the methods of `Store` that the scheduler and the executor's events call,
-- and every write as one step.
use quail.Prelude.{
  ℕ, suc, ◌+◌, Bool, true, false, not, ◌&&◌, ◌||◌, Option, none, some, List, [], ◌∷◌, ltb, ◌==◌,
  if◌then◌else◌, nat_eq, list_eq, is_some,
}
use Prim.Native.String.{String}
use quail.Dict.{Dict, lookup, put, has}
use quail.Result.{Result, ok, err, value_error, invalid_request_error}
use quail.Server.Json.{Json, phase_of, error_of}
use quail.Server.Records.{
  State, queued, planning, running, succeeded, failed, interrupted, cancelled, is_active,
  is_terminal, is_queued, QueryId, QueryStatus,
}
use quail.Server.Store.{
  Row, row_status, InputRecord, Store, update_where, row_of, Submission, create, request_cancel,
  discard,
}

-- The older of the record so far and a later row, if that is queued: `ORDER BY created_at, rowid`.
abbrev pub older : Option (QueryId × Row) → QueryId → Row → Option (QueryId × Row)
older none query_id row = if is_queued row.state then some (query_id, row) else none
older (some best) query_id row =
    if is_queued row.state && ltb row.created_at best.1.created_at
    then some (query_id, row)
    else some best

unfoldable pub oldest_queued : Option (QueryId × Row) → Dict QueryId Row → Option (QueryId × Row)
oldest_queued best [] = best
oldest_queued best ((query_id, row) ∷ rows) = oldest_queued (older best query_id row) rows

-- `in_flight` is that another thread holds `submission_lock`.
unfoldable pub next_queued : Bool → Store → Option QueryStatus
next_queued in_flight store = if in_flight then none else elim (oldest_queued none store.queries) [
  | none ↦ none
  | some best ↦ some (row_status best.0 best.1)
]

abbrev pub begun : ℕ → ℕ → Row → Row
begun epoch now row = record row {
  state = planning;
  execution_epoch = epoch;
  started_at = some now;
  phase = some (phase_of "resolving_inputs" "Resolving and preparing inputs" now);
  revision = row.revision + 1;
  updated_at = now;
}

unfoldable pub begin : QueryId → ℕ → Store → Result ℕ × Store
begin query_id now store = elim (row_of query_id store) [
  | err e ↦ (err e, store)
  | ok row ↦
      if not (is_queued row.state)
      then (err invalid_request_error, store)
      else let epoch = row.execution_epoch + 1 in
        let written = update_where query_id (λ r. is_queued r.state) (begun epoch now) true store in
        (ok epoch, written.1)
]

-- The arguments of `update` that are not `None` replace what the row has.
pub record Report : Type 0 where
  pub state : Option State
  pub phase : Option Json
  pub progress : Option Json
  pub plan : Option Json

abbrev pub or_else {ℓ} : {A : Type ℓ} → Option A → Option A → Option A
or_else none old = old
or_else (some x) old = some x

abbrev pub state_or : Option State → State → State
state_or none old = old
state_or (some s) old = s

abbrev pub reported : Report → ℕ → Row → Row
reported report now row = record row {
  state = state_or report.state row.state;
  phase = or_else report.phase row.phase;
  progress = or_else report.progress row.progress;
  plan = or_else report.plan row.plan;
  revision = row.revision + 1;
  updated_at = now;
}

-- `execution_epoch = ? AND state IN (?, ?)`
abbrev pub is_current : ℕ → Row → Bool
is_current epoch row = (row.execution_epoch == epoch) && is_active row.state

abbrev pub sets_inactive : Option State → Bool
sets_inactive none = false
sets_inactive (some s) = not (is_active s)

unfoldable pub update : QueryId → ℕ → Report → ℕ → Store → Result Bool × Store
update query_id epoch report now store =
    if sets_inactive report.state
    then (err value_error, store)
    else let durable = is_some report.state || (is_some report.phase || is_some report.plan) in
      let written = update_where query_id (is_current epoch) (reported report now) durable store in
      (ok (written.0 == 1), written.1)

-- How `finish` closes a record.
pub record Outcome : Type 0 where
  pub state : State
  pub error : Option Json
  pub result : Option Json

abbrev pub name_of : State → String
name_of queued = "queued"
name_of planning = "planning"
name_of running = "running"
name_of succeeded = "succeeded"
name_of failed = "failed"
name_of interrupted = "interrupted"
name_of cancelled = "cancelled"

abbrev pub message_of : State → String
message_of succeeded = "Query completed"
message_of failed = "Query failed"
message_of interrupted = "Query interrupted"
message_of cancelled = "Query cancelled"
message_of s = ""

abbrev pub is_succeeded : State → Bool
is_succeeded succeeded = true
is_succeeded s = false

abbrev pub closed : Outcome → ℕ → Row → Row
closed outcome now row = record row {
  state = outcome.state;
  error = outcome.error;
  result = outcome.result;
  phase = some (phase_of (name_of outcome.state) (message_of outcome.state) now);
  revision = row.revision + 1;
  updated_at = now;
}

unfoldable pub finish : QueryId → ℕ → Outcome → ℕ → Store → Result Bool × Store
finish query_id epoch outcome now store =
    if not (is_terminal outcome.state)
    then (err value_error, store)
    else if is_succeeded outcome.state && not (is_some outcome.result)
    then (err value_error, store)
    else let written = update_where query_id (is_current epoch) (closed outcome now) true store in
      (ok (written.0 == 1), written.1)

abbrev pub interrupted_by_restart : ℕ → Row → Row
interrupted_by_restart now row = record row {
  state = interrupted;
  error = some (error_of "Interrupted" "the server restarted while this query was executing");
  phase = some (phase_of "interrupted" "Query interrupted by a server restart" now);
  revision = row.revision + 1;
  updated_at = now;
}

-- `SELECT id FROM queries WHERE state IN (?, ?)`
unfoldable pub active_ids : Dict QueryId Row → List QueryId
active_ids [] = []
active_ids ((query_id, row) ∷ rows) =
    let rest = active_ids rows in if is_active row.state then query_id ∷ rest else rest

unfoldable pub interrupt_each : List QueryId → ℕ → Store → Store
interrupt_each [] now store = store
interrupt_each (query_id ∷ ids) now store =
    interrupt_each ids now
      (update_where query_id (λ row. true) (interrupted_by_restart now) true store).1

unfoldable pub recover : ℕ → Store → List QueryId × Store
recover now store = let ids = active_ids store.queries in (ids, interrupt_each ids now store)

-- `INSERT OR IGNORE`
unfoldable pub put_input : QueryId → String → ℕ → ℕ → Store → Store
put_input content_id path num_bytes now store =
    let entry : InputRecord = record {
      content_id = content_id;
      path = path;
      num_bytes = num_bytes;
      stored_at = now;
    } in
    record store {
      input_records =
          if has content_id store.input_records
          then store.input_records
          else put content_id entry store.input_records;
      num_writes = suc store.num_writes;
      num_durable_writes = suc store.num_durable_writes;
    }

abbrev pub get_input : QueryId → Store → Option InputRecord
get_input content_id store = lookup content_id store.input_records

-- Every call that writes, with the time of the call.
pub data Call : Type 0 where
  creates : Submission → Call
  discards requests_cancel begins : QueryId → Call
  updates : QueryId → ℕ → Report → Call
  finishes : QueryId → ℕ → Outcome → Call
  recovers : Call
  puts_input : QueryId → String → ℕ → Call

module _ (sha256 : List Json → ℕ) where
  unfoldable pub step : Call → ℕ → Store → Store
  step (creates s) now store = (create sha256 s now store).1
  step (discards query_id) now store = (discard query_id now store).1
  step (requests_cancel query_id) now store = (request_cancel query_id now store).1
  step (begins query_id) now store = (begin query_id now store).1
  step (updates query_id epoch report) now store = (update query_id epoch report now store).1
  step (finishes query_id epoch outcome) now store = (finish query_id epoch outcome now store).1
  step recovers now store = (recover now store).1
  step (puts_input content_id path num_bytes) now store =
      put_input content_id path num_bytes now store

  unfoldable pub run : List (Call × ℕ) → Store → Store
  run [] store = store
  run ((call, now) ∷ calls) store = run calls (step call now store)
