-- ===== src/Server/Tests.antt =====
-- quail/server: the theorems on the store and the scheduler at a concrete history.
use quail.Prelude.{
  ℕ, zero, suc, ◌+◌, ◌≤◌, ◌≡◌, ◌⊎◌, refl, arith, true, false, none, some, List, [], ◌∷◌,
}
use quail.Prelude.Tests.{same_list}
use quail.Dict.{lookup, put}
use quail.Result.{ok, err, invalid_request_error}
use quail.Server.Json.{Json, null, number, text}
use quail.Server.Records.{
  running, succeeded, cancelled, is_queued, matches_pattern, are_id_chars, check_query_id, QueryId,
  QueryStatus, done,
}
use quail.Server.Store.{
  Row, row_status, Store, init, write, update_where, row_of, get, new_row, Submission, create_as,
  create, request_cancel, asked_to_cancel,
}
use quail.Server.Lifecycle.{
  next_queued, begun, begin, reported, Outcome, closed, update, finish, recover, Call, creates,
  begins, updates, finishes, recovers, requests_cancel, discards, step, run,
}
use quail.Server.Moves.{Becomes, at_id}
use quail.Server.Recovery.{recovered, recover-at_id}
use quail.Server.Distinct.{IsDistinct}
use quail.Server.History.{IsConsistent, step-Becomes, run-init-IsConsistent}
use quail.Server.Frozen.{Follows, run_terminal, run-Follows}
use quail.Server.Submit.{create_twice}
use quail.Server.Stale.{closed_rejects, begin_once}
use quail.Server.Closing.{Finished, finish-Finished}
use quail.Server.Stops.{state_closed, take_turn-verdict}
use quail.Server.Oldest.{next_queued_oldest}
use quail.Server.Scheduler.{no_report, state_event, Reporter, apply, emit}
use quail.Server.Polling.{
  emits, calls, Poll, Turn, polled, ends, time_of, happen, take_turn, run_one,
}
use quail.Server.Liveness.{run_one-done}

-- A stand-in for the hash: the sum of the numbers.
abbrev hash_of : List Json → ℕ
hash_of [] = 0
hash_of (number n ∷ js) = n + hash_of js
hash_of (j ∷ js) = hash_of js

-- The ids "1" and "2".
abbrev one : QueryId
one = 49 ∷ []

abbrev two : QueryId
two = 50 ∷ []

abbrev submission : QueryId → ℕ → Submission
submission q timeout_s = record {
  spec = text "SELECT";
  config = null;
  inputs = null;
  timeout_s = timeout_s;
  query_id = some q;
  session_id = none;
  fresh_id = [];
}

abbrev success : Outcome
success = record { state = succeeded; error = none; result = some (text "manifest") }

-- Two submissions, the first of which has begun.
abbrev history : List (Call × ℕ)
history = (creates (submission one 60), 1) ∷ (creates (submission two 60), 2) ∷ (begins one, 3) ∷ []

abbrev first_row : Row
first_row = new_row none 60 (text "SELECT") null null 60 1

abbrev store : Store
store = run hash_of history init

-- The same, after which the execution has succeeded.
abbrev done_history : List (Call × ℕ)
done_history =
    (creates (submission one 60), 1)
    ∷ (creates (submission two 60), 2)
    ∷ (begins one, 3)
    ∷ (finishes one 1 success, 4)
    ∷ []

abbrev done_store : Store
done_store = run hash_of done_history init

abbrev done_row : Row
done_row = closed success 4 (begun 1 3 first_row)

abbrev later : List (Call × ℕ)
later =
    (requests_cancel one, 5) ∷ (updates one 1 no_report, 6) ∷ (recovers, 7) ∷ (discards two, 8) ∷ []

store-is : at_id one store ≡ some (begun 1 3 first_row)
unfolding run step create create_as check_query_id matches_pattern are_id_chars begin finish row_of
    update_where write put lookup same_list
store-is = refl

done_store-is : at_id one done_store ≡ some done_row
unfolding run step create create_as check_query_id matches_pattern are_id_chars begin finish row_of
    update_where write put lookup same_list
done_store-is = refl

run-init-IsConsistent_example : IsConsistent store
run-init-IsConsistent_example = run-init-IsConsistent hash_of history

store-IsConsistent : IsConsistent store
store-IsConsistent = run-init-IsConsistent hash_of history

store-IsDistinct : IsDistinct store
unfolding IsConsistent
store-IsDistinct = store-IsConsistent.0

done_store-IsDistinct : IsDistinct done_store
unfolding IsConsistent
done_store-IsDistinct = (run-init-IsConsistent hash_of done_history).0

step-Becomes_example :
    Becomes (at_id one store) (at_id one (step hash_of (finishes one 1 success) 4 store))
step-Becomes_example = step-Becomes hash_of (finishes one 1 success) 4 store one store-IsDistinct

run_terminal_example : at_id one (run hash_of later done_store) ≡ some done_row
run_terminal_example =
    run_terminal hash_of later done_store one done_row done_store-IsDistinct done_store-is refl

run-Follows_example :
    (after : Row) × (at_id one (run hash_of later store) ≡ some after)
    × Follows (begun 1 3 first_row) after
    × (is_queued after.state ≡ false)
run-Follows_example =
    run-Follows hash_of later store one (begun 1 3 first_row) store-IsDistinct store-is refl

create_twice_example :
    create hash_of (submission one 60) 9 (create hash_of (submission one 60) 1 init).1
    ≡ (ok (row_status one first_row), (create hash_of (submission one 60) 1 init).1)
unfolding run step create create_as check_query_id matches_pattern are_id_chars begin finish row_of
    update_where write put lookup same_list get
create_twice_example =
    create_twice hash_of (submission one 60) (submission one 60) one (row_status one first_row) 1 9
      init refl refl refl refl refl

closed_rejects_example :
    ((update one 1 no_report 9 (run hash_of later done_store)).0 ≡ ok false)
    × ((finish one 1 success 9 (run hash_of later done_store)).0 ≡ ok false)
closed_rejects_example =
    closed_rejects hash_of later done_store one done_row done_store-IsDistinct done_store-is refl 1
      no_report success 9 refl refl

finish-Finished_example :
    Finished 1 success 4
      (at_id one store)
      (finish one 1 success 4 store).0
      (at_id one (finish one 1 success 4 store).1)
finish-Finished_example = finish-Finished one 1 success 4 store

begin_once_example :
    begin two 9 (run hash_of later (begin two 5 store).1)
    ≡ (err invalid_request_error, run hash_of later (begin two 5 store).1)
unfolding run step create create_as check_query_id matches_pattern are_id_chars begin finish row_of
    update_where write put lookup same_list
begin_once_example = begin_once hash_of later store two 1 5 9 store-IsDistinct refl

recover-at_id_example : at_id one (recover 9 store).1 ≡ recovered 9 (at_id one store)
recover-at_id_example = recover-at_id store 9 one store-IsDistinct

next_queued_oldest_example :
    ((next_queued false store ≡ none)
      × ((j : QueryId) (r : Row) → at_id j store ≡ some r → is_queued r.state ≡ false))
    ⊎ ((q : QueryId) × (row : Row) × (next_queued false store ≡ some (row_status q row))
        × (at_id q store ≡ some row)
        × (is_queued row.state ≡ true)
        × ((j : QueryId) (r : Row)
            → at_id j store ≡ some r
            → is_queued r.state ≡ true
            → row.created_at ≤ r.created_at))
next_queued_oldest_example = next_queued_oldest store store-IsDistinct

-- An execution that reports that it runs, is asked to cancel, and ends after that.
abbrev first_poll : Poll
first_poll = record {
  happenings = emits (state_event running none) 11 ∷ calls (requests_cancel two) 12 ∷ [];
  now = 13;
  stopping = false;
  meanwhile = calls (updates two 1 no_report) 13 ∷ [];
}

abbrev turns : ℕ → Turn
turns zero = polled first_poll
turns (suc n) = ends [] (14 + n)

turns_advance : (t m : ℕ) → suc t ≤ m → t ≤ time_of (turns m)
turns_advance t zero h = absurd (omega arith)
turns_advance t (suc m) h = omega arith

abbrev status_two : QueryStatus
status_two = row_status two (new_row none 60 (text "SELECT") null null 60 2)

run_one-done_example :
    (fuel : ℕ) × (final : QueryStatus) × (after : Store) × (run_one hash_of
        (λ payload. none)
        "results/2"
        status_two
        []
        10
        11
        turns
        fuel
        store
      ≡ some (ok final, after))
    × (done final ≡ true)
unfolding run step create create_as check_query_id matches_pattern are_id_chars begin finish row_of
    update_where write put lookup same_list
run_one-done_example =
    run_one-done hash_of (λ payload. none) "results/2" status_two [] 10 11 turns store 1
      store-IsConsistent (λ t. (suc t, turns_advance t)) refl

-- The same poll, of the execution of the first record.
abbrev reporter : Reporter
reporter = record { last_progress = 0; counts = none; written = 0; saved = 0 }

abbrev cancelling : Poll
cancelling = record {
  happenings = emits (state_event running none) 11 ∷ calls (requests_cancel one) 12 ∷ [];
  now = 13;
  stopping = false;
  meanwhile = calls (updates one 1 no_report) 13 ∷ [];
}

abbrev seen_row : Row
seen_row =
    asked_to_cancel 12
      (reported (record no_report { state = some running }) 11 (begun 1 3 first_row))

take_turn-verdict_example :
    state_closed one (
      take_turn hash_of
        (λ payload. none)
        "results/1"
        one
        1
        60011
        (polled cancelling)
        none
        (reporter, store))
    ≡ some cancelled
unfolding run step create create_as check_query_id matches_pattern are_id_chars begin finish row_of
    update_where write put lookup same_list happen emit apply update request_cancel take_turn get
take_turn-verdict_example =
    take_turn-verdict hash_of (λ payload. none) "results/1" one 1 60011 cancelling none
      (reporter, store) seen_row (reported no_report 13 seen_row) refl refl refl refl refl
