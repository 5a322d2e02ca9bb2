-- ===== src/Server/Polling.antt =====
-- quail/server/scheduler.py: `Scheduler.run_one`, with `_job` and its polling loop. What the executor
-- does, what other threads do to the store meanwhile, and when `stop` is called come as a sequence of
-- turns of the loop, which is without end; the loop has fuel, and without fuel it answers `none`. An
-- error's message is a fixed text where the source formats a number, an id or a traceback into it.
use quail.Prelude.{
  ℕ, zero, suc, ◌+◌, ◌*◌, Bool, ◌||◌, Option, none, some, List, [], ◌∷◌, ltb, leb, if◌then◌else◌,
}
use Prim.Native.String.{String}
use quail.Result.{Error, Result, ok, err, invalid_request_error}
use quail.Server.Json.{Json, error_of}
use quail.Server.Records.{interrupted, cancelled, QueryId, QueryStatus, done}
use quail.Server.Store.{Store, InputRecord, get}
use quail.Server.Lifecycle.{Outcome, begin, finish, get_input, Call, step}
use quail.Server.Scheduler.{Reporter, Event, failure, emit}

-- What happens to the store between two looks of the scheduler at it: an event of the execution, or
-- a call of another thread.
pub data Happening : Type 0 where
  emits : Event → ℕ → Happening
  calls : Call → ℕ → Happening

-- `wait` returned False: what happened until then, the time and whether `stop` had been called when
-- the loop looked, and what happened between its look at the record and its next write.
pub record Poll : Type 0 where
  pub happenings : List Happening
  pub now : ℕ
  pub stopping : Bool
  pub meanwhile : List Happening

-- One turn of the polling loop: `wait` returns False, or it returns True since the execution ended, or
-- an exception is raised in the loop or before it. Each has the time of its turn.
pub data Turn : Type 0 where
  polled : Poll → Turn
  ends : List Happening → ℕ → Turn
  raises : List Happening → Json → ℕ → Turn

abbrev pub time_of : Turn → ℕ
time_of (polled p) = p.now
time_of (ends hs now) = now
time_of (raises hs error now) = now

abbrev pub finish_grace : ℕ
finish_grace = 30000

-- `_job` wants every content id of the inputs to have been uploaded.
unfoldable pub snapshot_paths : List QueryId → Store → Result (List InputRecord)
snapshot_paths [] store = ok []
snapshot_paths (content_id ∷ ids) store =
    let rest = snapshot_paths ids store in
    elim (get_input content_id store) [
      | none ↦ err invalid_request_error
      | some entry ↦ elim rest [ err e ↦ err e | ok entries ↦ ok (entry ∷ entries) ]
    ]

-- `if not self.store.get(query_id).done`, after the loop
unfoldable pub close_unfinished : QueryId → ℕ → ℕ → Store → Store
close_unfinished query_id epoch now store = elim (get query_id store) [
  | err e ↦
      (finish query_id epoch (failure (error_of "UnknownQueryError" "unknown query")) now store).1
  | ok status ↦
      if done status
      then store
      else (finish query_id epoch
          (failure (error_of "ExecutorExit" "the execution ended without a result")) now store).1
]

-- What one turn decides: how to close the record, or that the loop goes on or breaks.
pub data Decision : Type 0 where
  closes : Outcome → Decision
  breaks : Decision
  goes_on : Option ℕ → Decision

-- `finished_deadline`, once the record is closed
abbrev pub grace_end : ℕ → Option ℕ → ℕ
grace_end now none = now + finish_grace
grace_end now (some d) = d

-- `stopping`, `now` and the deadline that a record already closed has set
unfoldable pub decide : QueryStatus → ℕ → Bool → ℕ → Option ℕ → Decision
decide current deadline stopping now finished_deadline =
    if done current
    then (if stopping || leb (grace_end now finished_deadline) now
        then breaks
        else goes_on (some (grace_end now finished_deadline)))
    else if stopping
    then closes (record {
      state = interrupted;
      error = some (error_of "Interrupted" "the server stopped while this query ran");
      result = none;
    })
    else if current.cancel_requested
    then closes (record {
      state = cancelled;
      error = some (error_of "Cancelled" "cancelled while executing");
      result = none;
    })
    else if ltb deadline now
    then closes (failure (error_of "TimeoutError" "execution exceeded the query's timeout"))
    else goes_on finished_deadline

-- What a turn comes to: the store once the loop is over and the record is closed, or
-- `finished_deadline` and the state for the next turn.
pub data Next : Type 0 where
  over : Store → Next
  again : Option ℕ → Reporter × Store → Next

-- `except InvalidRequestError`, around `begin`
abbrev pub not_begun : Error → Result QueryStatus → Result QueryStatus
not_begun invalid_request_error found = found
not_begun e found = err e

module _ (sha256 : List Json → ℕ) (verify : Json → Option String) (directory : String) where
  unfoldable pub happen : QueryId → ℕ → List Happening → Reporter × Store → Reporter × Store
  happen query_id epoch [] (r, store) = (r, store)
  happen query_id epoch (emits event now ∷ hs) (r, store) =
      happen query_id epoch hs (emit verify directory query_id epoch event now (r, store))
  happen query_id epoch (calls call now ∷ hs) (r, store) =
      happen query_id epoch hs (r, step sha256 call now store)

  unfoldable pub take_turn : QueryId → ℕ → ℕ → Turn → Option ℕ → Reporter × Store → Next
  take_turn query_id epoch deadline (ends hs now) finished_deadline (r, store) =
      over (close_unfinished query_id epoch now (happen query_id epoch hs (r, store)).1)
  take_turn query_id epoch deadline (raises hs error now) finished_deadline (r, store) =
      over (finish query_id epoch (failure error) now (happen query_id epoch hs (r, store)).1).1
  take_turn query_id epoch deadline (polled p) finished_deadline (r, store) =
      let looked = happen query_id epoch p.happenings (r, store) in
      let after = happen query_id epoch p.meanwhile looked in
      elim (get query_id looked.1) [
        | err e ↦
            over
              (finish query_id epoch (failure (error_of "UnknownQueryError" "unknown query")) p.now
                after.1).1
        | ok current ↦ elim (decide current deadline p.stopping p.now finished_deadline) [
          | breaks ↦ over (close_unfinished query_id epoch p.now after.1)
          | closes outcome ↦ over (
              close_unfinished query_id epoch p.now (finish query_id epoch outcome p.now after.1).1)
          | goes_on grace ↦ again grace after
        ]
      ]

  -- The loop from the n-th turn.
  unfoldable pub loop :
      QueryId → ℕ → ℕ → (ℕ → Turn) → ℕ → ℕ → Option ℕ → Reporter × Store → Option Store
  loop query_id epoch deadline turns n zero finished_deadline state = none
  loop query_id epoch deadline turns n (suc fuel) finished_deadline state =
      elim (take_turn query_id epoch deadline (turns n) finished_deadline state) [
        | over store ↦ some store
        | again grace next ↦ loop query_id epoch deadline turns (suc n) fuel grace next
      ]

  -- The `content_ids` are those of `status.inputs`; `begin` is at `now`, and the deadline is counted
  -- from `started`, when `executor.start` has returned.
  unfoldable pub run_one :
      QueryStatus
      → List QueryId
      → ℕ
      → ℕ
      → (ℕ → Turn)
      → ℕ
      → Store
      → Option (Result QueryStatus × Store)
  run_one status content_ids now started turns fuel store =
      let begun = begin status.id now store in
      elim begun.0 [
        | err e ↦ some (not_begun e (get status.id begun.1), begun.1)
        | ok epoch ↦
            let after : Option Store = elim (snapshot_paths content_ids begun.1) [
              | err e ↦
                  some
                    (finish status.id epoch
                      (failure (error_of "InvalidRequestError" "input snapshot was not uploaded"))
                      now begun.1).1
              | ok entries ↦
                  loop status.id epoch (started + status.timeout_s * 1000) turns 0 fuel none
                    (record { last_progress = 0; counts = none; written = 0; saved = 0 }, begun.1)
            ] in
            elim after [ none ↦ none | some store ↦ some (get status.id store, store) ]
      ]
