-- ===== src/Server/Begun.antt =====
-- quail/server/scheduler.py: whatever happens to a record that has begun, it is not queued again.
use quail.Prelude.{
  ℕ, ◌-◌, ltb, ◌≡◌, inl, inr, Bool, false, not, ◌&&◌, Option, some, List, [], ◌∷◌, ◌==◌, Bool-cases,
  Option-cases,
}
use Prim.Native.String.{String}
use quail.Server.Json.{Json}
use quail.Server.Records.{is_queued, QueryId}
use quail.Server.Store.{Row, Store}
use quail.Server.Lifecycle.{Report, Outcome, update, finish, Call, updates, finishes, step, run}
use quail.Server.Moves.{at_id}
use quail.Server.History.{IsConsistent, step-IsConsistent}
use quail.Server.Frozen.{run-Follows}
use quail.Server.Scheduler.{
  Reporter, Event, state_event, phase_event, plan_event, failed_event, finished_event,
  progress_event, answers_event, unknown_event, apply, write_progress, timed, last_event, emit,
  Counts,
}
use quail.Server.Polling.{Happening, emits, calls, happen}

-- A consistent store in which the record has left the queue.
unfoldable pub IsBegun : QueryId → Store → Type 0
IsBegun q store =
    IsConsistent store × ((row : Row) × (at_id q store ≡ some row) × (is_queued row.state ≡ false))

module _ (sha256 : List Json → ℕ) where
  step-IsBegun :
      (q : QueryId) (call : Call) (now : ℕ) (store : Store)
      → IsBegun q store
      → IsBegun q (step sha256 call now store)
  unfolding IsBegun IsConsistent run
  step-IsBegun q call now store b =
      let next = run-Follows sha256 ((call, now) ∷ []) store q b.1.0 b.0.0 b.1.1 b.1.2 in
      (step-IsConsistent sha256 call now store b.0, (next.0, next.1, next.3))

  update-IsBegun :
      (q p : QueryId) (epoch : ℕ) (report : Report) (now : ℕ) (store : Store)
      → IsBegun q store
      → IsBegun q (update p epoch report now store).1
  unfolding step
  update-IsBegun q p epoch report now store b = step-IsBegun q (updates p epoch report) now store b

  pub finish-IsBegun :
      (q p : QueryId) (epoch : ℕ) (outcome : Outcome) (now : ℕ) (store : Store)
      → IsBegun q store
      → IsBegun q (finish p epoch outcome now store).1
  unfolding step
  finish-IsBegun q p epoch outcome now store b =
      step-IsBegun q (finishes p epoch outcome) now store b

  module _ (verify : Json → Option String) (directory : String) where
    apply-IsBegun :
        (q : QueryId) (epoch : ℕ) (event : Event) (now : ℕ) (store : Store)
        → IsBegun q store
        → IsBegun q (apply verify directory q epoch event now store)
    unfolding apply
    apply-IsBegun q epoch (state_event state phase) now store b =
        update-IsBegun q q epoch _ now store b
    apply-IsBegun q epoch (phase_event payload) now store b = update-IsBegun q q epoch _ now store b
    apply-IsBegun q epoch (plan_event payload) now store b = update-IsBegun q q epoch _ now store b
    apply-IsBegun q epoch (failed_event payload) now store b =
        finish-IsBegun q q epoch _ now store b
    apply-IsBegun q epoch (finished_event payload) now store b =
        elim (Option-cases (verify payload)) [
          | inl e ↦ rw (e, apply) (finish-IsBegun q q epoch _ now store b)
          | inr (message, e) ↦ rw (e, apply) (finish-IsBegun q q epoch _ now store b)
        ]
    apply-IsBegun q epoch (progress_event counts saved) now store b =
        update-IsBegun q q epoch _ now store b
    apply-IsBegun q epoch (answers_event payload) now store b = b
    apply-IsBegun q epoch unknown_event now store b = b

    timed-IsBegun :
        (q : QueryId) (epoch : ℕ) (c : Bool) (payload : Option Counts) (now : ℕ) (r : Reporter)
        (store : Store)
        → IsBegun q store
        → IsBegun q (timed verify directory q epoch c payload now (r, store)).1
    unfolding timed write_progress
    timed-IsBegun q epoch c payload now r store b =
        elim (Bool-cases (not c && ltb (now - r.last_progress) 500)) [
          | inl h ↦ rw (h, timed) b
          | inr h ↦ rw (h, timed) (apply-IsBegun q epoch _ now store b)
        ]

    last_event-IsBegun :
        (q : QueryId) (epoch : ℕ) (event : Event) (now : ℕ) (r : Reporter) (store : Store)
        → IsBegun q store
        → IsBegun q (last_event verify directory q epoch event now (r, store)).1
    unfolding last_event write_progress
    last_event-IsBegun q epoch event now r store b = elim (Bool-cases (r.written == r.saved)) [
      | inl h ↦ rw (h, last_event) (apply-IsBegun q epoch event now store b)
      | inr h ↦
          rw (h, last_event)
            (apply-IsBegun q epoch event now _
              (apply-IsBegun q epoch (progress_event r.counts (some r.saved)) now store b))
    ]

    emit-IsBegun :
        (q : QueryId) (epoch : ℕ) (event : Event) (now : ℕ) (r : Reporter) (store : Store)
        → IsBegun q store
        → IsBegun q (emit verify directory q epoch event now (r, store)).1
    unfolding emit
    emit-IsBegun q epoch (state_event state phase) now r store b =
        apply-IsBegun q epoch _ now store b
    emit-IsBegun q epoch (phase_event payload) now r store b = apply-IsBegun q epoch _ now store b
    emit-IsBegun q epoch (plan_event payload) now r store b = apply-IsBegun q epoch _ now store b
    emit-IsBegun q epoch (failed_event payload) now r store b =
        last_event-IsBegun q epoch _ now r store b
    emit-IsBegun q epoch (finished_event payload) now r store b =
        last_event-IsBegun q epoch _ now r store b
    emit-IsBegun q epoch (progress_event counts saved) now r store b =
        timed-IsBegun q epoch _ _ now _ store b
    emit-IsBegun q epoch (answers_event payload) now r store b =
        timed-IsBegun q epoch _ _ now _ store b
    emit-IsBegun q epoch unknown_event now r store b = b

    pub happen-IsBegun :
        (q : QueryId) (epoch : ℕ) (hs : List Happening) (r : Reporter) (store : Store)
        → IsBegun q store
        → IsBegun q (happen sha256 verify directory q epoch hs (r, store)).1
    unfolding happen
    happen-IsBegun q epoch [] r store b = b
    happen-IsBegun q epoch (emits event now ∷ hs) r store b =
        happen-IsBegun q epoch hs _ _ (emit-IsBegun q epoch event now r store b)
    happen-IsBegun q epoch (calls call now ∷ hs) r store b =
        happen-IsBegun q epoch hs r _ (step-IsBegun q call now store b)
