-- ===== src/Server/Store.antt =====
-- quail/server/store.py: `Store`, the table of query records and the table of uploaded inputs. The
-- rows of a table are kept by their primary key, in the order of their rowids; a method takes the
-- time that it reads and gives its result, or the exception, with the store after it.
use quail.Prelude.{
  ℕ, suc, ◌+◌, Bool, true, false, not, ◌&&◌, Option, none, some, List, [], leb, ◌==◌, if◌then◌else◌,
  nat_eq, list_eq,
}
use Prim.Native.String.{String}
use quail.Dict.{Dict, lookup, put, pop}
use quail.Result.{
  Result, ok, err, invalid_request_error, unknown_query_error, query_id_conflict_error,
}
use quail.Server.Json.{Json, phase_of, error_of}
use quail.Server.Records.{
  State, queued, cancelled, is_active, is_queued, QueryId, check_query_id, spec_hash, QueryStatus,
}

pub record Row : Type 0 where
  pub session_id : Option QueryId
  pub hash : ℕ
  pub spec : Json
  pub config : Json
  pub inputs : Json
  pub state : State
  pub revision : ℕ
  pub created_at : ℕ
  pub updated_at : ℕ
  pub started_at : Option ℕ
  pub timeout_s : ℕ
  pub cancel_requested : Bool
  pub execution_epoch : ℕ
  pub phase : Option Json
  pub progress : Option Json
  pub plan : Option Json
  pub error : Option Json
  pub result : Option Json

-- `_row_status`
abbrev pub row_status : QueryId → Row → QueryStatus
row_status query_id row = record {
  id = query_id;
  state = row.state;
  revision = row.revision;
  created_at = row.created_at;
  updated_at = row.updated_at;
  timeout_s = row.timeout_s;
  spec = row.spec;
  config = row.config;
  inputs = row.inputs;
  session_id = row.session_id;
  started_at = row.started_at;
  cancel_requested = row.cancel_requested;
  phase = row.phase;
  progress = row.progress;
  plan = row.plan;
  error = row.error;
  result = row.result;
}

pub record InputRecord : Type 0 where
  pub content_id : QueryId
  pub path : String
  pub num_bytes : ℕ
  pub stored_at : ℕ

pub record Store : Type 0 where
  pub queries : Dict QueryId Row
  pub input_records : Dict QueryId InputRecord
  pub num_writes : ℕ
  pub num_durable_writes : ℕ

abbrev pub init : Store
init = record { queries = []; input_records = []; num_writes = 0; num_durable_writes = 0 }

-- `_write`, for a statement on the queries: the transaction that leaves these rows.
unfoldable pub write : Bool → Dict QueryId Row → Store → Store
write durable rows store = record store {
  queries = rows;
  num_writes = suc store.num_writes;
  num_durable_writes = if durable then suc store.num_durable_writes else store.num_durable_writes;
}

-- `UPDATE queries SET ... WHERE id = ? AND ...`, with its rowcount
unfoldable pub update_where : QueryId → (Row → Bool) → (Row → Row) → Bool → Store → ℕ × Store
update_where query_id holds change durable store = elim (lookup query_id store.queries) [
  | none ↦ (0, write durable store.queries store)
  | some row ↦
      if holds row
      then (1, write durable (put query_id (change row) store.queries) store)
      else (0, write durable store.queries store)
]

-- `_row`
unfoldable pub row_of : QueryId → Store → Result Row
row_of query_id store = elim (lookup query_id store.queries) [
  | none ↦ err unknown_query_error
  | some row ↦ ok row
]

unfoldable pub get : QueryId → Store → Result QueryStatus
unfolding row_of
get query_id store = elim (row_of query_id store) [
  | err e ↦ err e
  | ok row ↦ ok (row_status query_id row)
]

abbrev pub new_row : Option QueryId → ℕ → Json → Json → Json → ℕ → ℕ → Row
new_row session_id hash spec config inputs timeout_s now = record {
  session_id = session_id;
  hash = hash;
  spec = spec;
  config = config;
  inputs = inputs;
  state = queued;
  revision = 1;
  created_at = now;
  updated_at = now;
  started_at = none;
  timeout_s = timeout_s;
  cancel_requested = false;
  execution_epoch = 0;
  phase = some (phase_of "queued" "Waiting to run" now);
  progress = none;
  plan = none;
  error = none;
  result = none;
}

-- What `create` is called with; `fresh_id` is what `uuid.uuid4` gives.
pub record Submission : Type 0 where
  pub spec : Json
  pub config : Json
  pub inputs : Json
  pub timeout_s : ℕ
  pub query_id : Option QueryId
  pub session_id : Option QueryId
  pub fresh_id : QueryId

abbrev pub chosen_id : Submission → Result QueryId
chosen_id s = elim s.query_id [ none ↦ ok s.fresh_id | some query_id ↦ check_query_id query_id ]

module _ (sha256 : List Json → ℕ) where
  abbrev pub digest : Submission → ℕ
  digest s = spec_hash sha256 s.spec s.config s.inputs s.timeout_s

  -- The part of `create` under the lock.
  unfoldable pub create_as : QueryId → Submission → ℕ → Store → Result QueryStatus × Store
  create_as query_id s now store = elim (lookup query_id store.queries) [
    | some row ↦
        if row.hash == digest s
        then (ok (row_status query_id row), store)
        else (err query_id_conflict_error, store)
    | none ↦
        let row = new_row s.session_id (digest s) s.spec s.config s.inputs s.timeout_s now in
        let after = write true (put query_id row store.queries) store in (get query_id after, after)
  ]

  unfoldable pub create : Submission → ℕ → Store → Result QueryStatus × Store
  create s now store =
      if leb s.timeout_s 0 then (err invalid_request_error, store) else elim (chosen_id s) [
        | err e ↦ (err e, store)
        | ok query_id ↦ create_as query_id s now store
      ]

abbrev pub cancelled_before : ℕ → Row → Row
cancelled_before now row = record row {
  state = cancelled;
  error = some (error_of "Cancelled" "cancelled before execution started");
  phase = some (phase_of "cancelled" "Query cancelled" now);
  revision = row.revision + 1;
  updated_at = now;
}

abbrev pub asked_to_cancel : ℕ → Row → Row
asked_to_cancel now row = record row {
  cancel_requested = true;
  revision = row.revision + 1;
  updated_at = now;
}

unfoldable pub request_cancel : QueryId → ℕ → Store → Result QueryStatus × Store
request_cancel query_id now store = elim (get query_id store) [
  | err e ↦ (err e, store)
  | ok status ↦
      let after : Store =
        if is_queued status.state
        then (update_where query_id (λ row. is_queued row.state) (cancelled_before now) true
            store).1
        else if is_active status.state && not status.cancel_requested
        then (update_where query_id (λ row. true) (asked_to_cancel now) true store).1
        else store in
      (get query_id after, after)
]

-- `DELETE FROM queries WHERE id = ? AND state = 'queued'`, with its rowcount
unfoldable pub delete_queued : QueryId → Store → ℕ × Store
delete_queued query_id store = elim (lookup query_id store.queries) [
  | none ↦ (0, write true store.queries store)
  | some row ↦
      if is_queued row.state
      then (1, write true (pop query_id store.queries) store)
      else (0, write true store.queries store)
]

unfoldable pub discard : QueryId → ℕ → Store → Result Bool × Store
discard query_id now store =
    let deleted = delete_queued query_id store in
    if deleted.0 == 1
    then (ok true, deleted.1)
    else let asked = request_cancel query_id now deleted.1 in
      (elim asked.0 [ err e ↦ err e | ok status ↦ ok false ], asked.1)
