-- ===== src/Server/Scheduler.antt =====
-- quail/server/scheduler.py: `_apply` and the emitter of an execution's events, in
-- `Scheduler.run_one`. Both clocks are one count of milliseconds.
use quail.Prelude.{
  ℕ, suc, ◌-◌, Bool, false, not, ◌&&◌, Option, none, some, ltb, ◌==◌, if◌then◌else◌,
}
use Prim.Native.String.{String}
use quail.Server.Json.{Json, number, text, object, Fields, end, field, error_of}
use quail.Server.Records.{State, succeeded, failed, QueryId}
use quail.Server.Store.{Store}
use quail.Server.Lifecycle.{Report, Outcome, update, finish}

-- The payload of a `progress` event of `run_job`.
pub record Counts : Type 0 where
  pub label : String
  pub finished : ℕ
  pub total : ℕ
  pub unit_name : String
  pub recorded_at : ℕ

pub data Event : Type 0 where
  state_event : State → Option Json → Event
  phase_event plan_event failed_event finished_event : Json → Event
  progress_event : Option Counts → Option ℕ → Event
  answers_event : Json → Event
  unknown_event : Event

-- `{**payload, key: value}`, for a payload without the key
unfoldable pub with_field : String → Json → Fields → Fields
with_field key value end = field key value end
with_field key value (field k v fs) = field k v (with_field key value fs)

abbrev pub object_with : String → Json → Json → Json
object_with key value (object fs) = object (with_field key value fs)
object_with key value payload = payload

-- The payload of a progress write as JSON: no counts are `{}`, and `answers_saved` may be missing.
abbrev pub saved_fields : Option ℕ → Fields
saved_fields none = end
saved_fields (some saved) = field "answers_saved" (number saved) end

abbrev pub progress_of : Option Counts → Option ℕ → Json
progress_of none saved = object (saved_fields saved)
progress_of (some c) saved = object (
    field "label" (text c.label) (
      field "done" (number c.finished) (
        field "total" (number c.total) (
          field "unit" (text c.unit_name)
            (field "recorded_at" (number c.recorded_at) (saved_fields saved))))))

abbrev pub no_report : Report
no_report = record { state = none; phase = none; progress = none; plan = none }

abbrev pub failure : Json → Outcome
failure error = record { state = failed; error = some error; result = none }

-- `last_progress`, `counts`, `written` and `answers.count`
pub record Reporter : Type 0 where
  pub last_progress : ℕ
  pub counts : Option Counts
  pub written : ℕ
  pub saved : ℕ

-- `verify` is `verify_result` on the artifact directory: none, or the message for its exception.
-- `directory` is the artifact directory relative to the data directory.
module _ (verify : Json → Option String) (directory : String) where
  -- What `update` or `finish` raises is raised again to the executor, and the store is as it leaves it.
  unfoldable pub apply : QueryId → ℕ → Event → ℕ → Store → Store
  apply query_id epoch (state_event state phase) now store =
      (update query_id epoch (record no_report { state = some state; phase = phase }) now store).1
  apply query_id epoch (phase_event payload) now store =
      (update query_id epoch (record no_report { phase = some payload }) now store).1
  apply query_id epoch (plan_event payload) now store =
      (update query_id epoch (record no_report { plan = some payload }) now store).1
  apply query_id epoch (failed_event payload) now store =
      (finish query_id epoch (failure payload) now store).1
  apply query_id epoch (finished_event payload) now store = elim (verify payload) [
    | some message ↦ (finish query_id epoch (failure (error_of "PublishError" message)) now store).1
    | none ↦
        (finish query_id epoch
          (record {
            state = succeeded;
            error = none;
            result = some (object_with "directory" (text directory) payload);
          })
          now store).1
  ]
  apply query_id epoch (progress_event counts saved) now store =
      (update query_id epoch (record no_report { progress = some (progress_of counts saved) }) now
        store).1
  apply query_id epoch (answers_event payload) now store = store
  apply query_id epoch unknown_event now store = store

  unfoldable pub write_progress :
      QueryId → ℕ → Option Counts → ℕ → Reporter × Store → Reporter × Store
  write_progress query_id epoch payload now (r, store) = (
    record r { written = r.saved },
    apply query_id epoch (progress_event payload (some r.saved)) now store,
  )

  -- `complete` of a progress payload
  abbrev pub is_complete : Option Counts → Bool
  is_complete none = false
  is_complete (some c) = not (c.total == 0) && (c.finished == c.total)

  -- The timed write of an `answers` or a `progress` event.
  unfoldable pub timed :
      QueryId → ℕ → Bool → Option Counts → ℕ → Reporter × Store → Reporter × Store
  timed query_id epoch complete payload now (r, store) =
      if not complete && ltb (now - r.last_progress) 500
      then (r, store)
      else write_progress query_id epoch payload now (record r { last_progress = now }, store)

  -- An event that may close the record, once the counts that it has are right.
  unfoldable pub last_event : QueryId → ℕ → Event → ℕ → Reporter × Store → Reporter × Store
  last_event query_id epoch event now (r, store) =
      let current =
        if r.written == r.saved
        then (r, store)
        else write_progress query_id epoch r.counts now (r, store) in
      (current.0, apply query_id epoch event now current.1)

  unfoldable pub emit : QueryId → ℕ → Event → ℕ → Reporter × Store → Reporter × Store
  emit query_id epoch (answers_event payload) now (r, store) =
      timed query_id epoch false r.counts now (record r { saved = suc r.saved }, store)
  emit query_id epoch (progress_event counts saved) now (r, store) =
      timed query_id epoch (is_complete counts) counts now (record r { counts = counts }, store)
  emit query_id epoch (failed_event payload) now (r, store) =
      last_event query_id epoch (failed_event payload) now (r, store)
  emit query_id epoch (finished_event payload) now (r, store) =
      last_event query_id epoch (finished_event payload) now (r, store)
  emit query_id epoch (state_event state phase) now (r, store) =
      (r, apply query_id epoch (state_event state phase) now store)
  emit query_id epoch (phase_event payload) now (r, store) =
      (r, apply query_id epoch (phase_event payload) now store)
  emit query_id epoch (plan_event payload) now (r, store) =
      (r, apply query_id epoch (plan_event payload) now store)
  emit query_id epoch unknown_event now (r, store) = (r, store)
