-- ===== src/Server/Closing.antt =====
-- quail/server/store.py: what `finish` answers and what it makes of the record, on each branch.
use quail.Prelude.{
  ℕ, suc, ◌≡◌, ◌⊎◌, inl, inr, refl, Bool, true, false, not, ◌&&◌, Option, none, some, is_some,
  Bool-cases, Option-cases, arith,
}
use quail.Result.{Result, ok, err, value_error}
use quail.Server.Records.{State, succeeded, is_active, is_terminal, QueryId}
use quail.Server.Store.{Row, Store}
use quail.Server.Lifecycle.{Outcome, closed, is_current, is_succeeded, finish}
use quail.Server.Moves.{at_id}
use quail.Server.Stale.{finish-at_id}

-- A state that is terminal, with a result where it is `succeeded`.
abbrev pub Accepted : Outcome → Type 0
Accepted outcome =
    (is_terminal outcome.state ≡ true)
    × ((outcome.state ≡ succeeded) → is_some outcome.result ≡ true)

-- The record after it is closed.
pub record ClosedWith (outcome : Outcome) (now : ℕ) (row after : Row) : Type 0 where
  pub state : after.state ≡ outcome.state
  pub error : after.error ≡ outcome.error
  pub result : after.result ≡ outcome.result
  pub revision : after.revision ≡ suc row.revision
  pub updated_at : after.updated_at ≡ now
  pub execution_epoch : after.execution_epoch ≡ row.execution_epoch
  pub cancel_requested : after.cancel_requested ≡ row.cancel_requested
  pub spec : after.spec ≡ row.spec

-- The record of the id, the answer of `finish`, and the record afterwards.
pub data Finished (epoch : ℕ) (outcome : Outcome) (now : ℕ)
    : Option Row → Result Bool → Option Row → Type 0 where
  refuses :
      (found : Option Row)
      → (is_terminal outcome.state ≡ false)
        ⊎ ((outcome.state ≡ succeeded) × (outcome.result ≡ none))
      → Finished epoch outcome now found (err value_error) found
  misses : Accepted outcome → Finished epoch outcome now none (ok false) none
  is_late :
      (row : Row)
      → Accepted outcome
      → (¬ (row.execution_epoch ≡ epoch)) ⊎ (is_active row.state ≡ false)
      → Finished epoch outcome now (some row) (ok false) (some row)
  closes :
      (row after : Row)
      → Accepted outcome
      → row.execution_epoch ≡ epoch
      → is_active row.state ≡ true
      → ClosedWith outcome now row after
      → Finished epoch outcome now (some row) (ok true) (some after)

not_current :
    (epoch : ℕ) (row : Row)
    → is_current epoch row ≡ false
    → (¬ (row.execution_epoch ≡ epoch)) ⊎ (is_active row.state ≡ false)
not_current epoch row off = elim (Bool-cases (is_active row.state)) [
  | inl on ↦ inl (λ same. ground arith)
  | inr inactive ↦ inr inactive
]

succeeded_of : (s : State) → is_succeeded s ≡ true → s ≡ succeeded
succeeded_of s h = ground arith

-- `finish` raises ValueError and leaves the record where the outcome is not terminal, or succeeded
-- without a result; returns False and leaves the record where it is missing, inactive, or of another
-- execution; and else returns True, with the record closed: its state, error and result are those of
-- the outcome, its revision is one more, it is updated now, and its epoch, its cancel request and its
-- spec stay.
pub finish-Finished :
    (q : QueryId) (epoch : ℕ) (outcome : Outcome) (now : ℕ) (store : Store)
    → Finished epoch outcome now
        (at_id q store)
        (finish q epoch outcome now store).0
        (at_id q (finish q epoch outcome now store).1)
unfolding finish
finish-Finished q epoch outcome now store = elim (Bool-cases (is_terminal outcome.state)) [
  | inr not_over ↦ rw (not_over, finish) (refuses (at_id q store) (inl not_over))
  | inl over ↦ elim (Bool-cases (is_succeeded outcome.state && not (is_some outcome.result))) [
    | inl bare ↦
        rw (over, finish, bare)
          (refuses (at_id q store) (inr (succeeded_of outcome.state (ground arith), ground arith)))
    | inr legal ↦
        let accepted : Accepted outcome = (over, λ s. ground arith) in
        let (answer, made) = finish-at_id q epoch outcome now store (ground arith) in
        elim (Option-cases (at_id q store)) [
          | inl e ↦ rw (answer, made, e) (misses accepted)
          | inr (row, e) ↦ elim (Bool-cases (is_current epoch row)) [
            | inl on ↦
                rw (answer, made, e, on)
                  (closes row (closed outcome now row) accepted (ground arith) (ground arith)
                    (record {
                      state = refl;
                      error = refl;
                      result = refl;
                      revision = omega arith;
                      updated_at = refl;
                      execution_epoch = refl;
                      cancel_requested = refl;
                      spec = refl;
                    }))
            | inr off ↦ rw (answer, made, e, off) (is_late row accepted (not_current epoch row off))
          ]
        ]
  ]
]
