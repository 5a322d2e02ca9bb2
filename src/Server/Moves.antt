-- ===== src/Server/Moves.antt =====
-- quail/server/store.py: the state machine that the records follow, and that every write makes at
-- most one of its moves on a record.
use quail.Prelude.{
  ℕ, ◌+◌, ◌≡◌, inl, inr, refl, sym, ap, subst, ◌∙◌, Bool, true, false, not, ◌&&◌, Option, none,
  some, if◌then◌else◌, nat_eq, list_eq, same_list, same_list_iff, is_some, Bool-cases, Option-cases,
  arith,
}
use quail.Dict.{lookup, lookup-put_own, lookup-put_other}
use quail.Server.Json.{Json}
use quail.Server.Records.{is_active, is_terminal, is_queued, QueryId}
use quail.Server.Store.{
  Row, Store, write, update_where, row_of, new_row, cancelled_before, asked_to_cancel,
}
use quail.Server.Lifecycle.{
  begun, begin, Report, reported, sets_inactive, is_current, update, Outcome, closed, is_succeeded,
  finish, interrupted_by_restart,
}

-- One change of one record.
pub data Moves : Row → Row → Type 0 where
  begins_at :
      (row : Row) (now : ℕ)
      → is_queued row.state ≡ true
      → Moves row (begun (row.execution_epoch + 1) now row)
  reports_at :
      (row : Row) (report : Report) (now : ℕ)
      → is_active row.state ≡ true
      → sets_inactive report.state ≡ false
      → Moves row (reported report now row)
  closes_at :
      (row : Row) (outcome : Outcome) (now : ℕ)
      → is_active row.state ≡ true
      → is_terminal outcome.state ≡ true
      → (is_succeeded outcome.state && not (is_some outcome.result)) ≡ false
      → Moves row (closed outcome now row)
  cancels_at :
      (row : Row) (now : ℕ) → is_queued row.state ≡ true → Moves row (cancelled_before now row)
  asks_at :
      (row : Row) (now : ℕ)
      → is_active row.state ≡ true
      → row.cancel_requested ≡ false
      → Moves row (asked_to_cancel now row)
  interrupts_at :
      (row : Row) (now : ℕ)
      → is_active row.state ≡ true
      → Moves row (interrupted_by_restart now row)

-- What one write may do to the record of an id.
pub data Becomes : Option Row → Option Row → Type 0 where
  same : (o : Option Row) → Becomes o o
  moves : (row after : Row) → Moves row after → Becomes (some row) (some after)
  starts :
      (session_id : Option QueryId) (hash : ℕ) (spec config inputs : Json) (timeout_s now : ℕ)
      → Becomes none (some (new_row session_id hash spec config inputs timeout_s now))
  leaves : (row : Row) → is_queued row.state ≡ true → Becomes (some row) none

abbrev pub at_id : QueryId → Store → Option Row
at_id query_id store = lookup query_id store.queries

pub Becomes-eq : (o p q : Option Row) → Becomes o p → p ≡ q → Becomes o q
Becomes-eq o p q b e = subst (λ x. Becomes o x) e b

-- What an `UPDATE` of the row makes of it.
abbrev pub changed : (Row → Bool) → (Row → Row) → Option Row → Option Row
changed holds change none = none
changed holds change (some row) = if holds row then some (change row) else some row

pub update_where-own :
    (q : QueryId) (holds : Row → Bool) (change : Row → Row) (durable : Bool) (store : Store)
    → at_id q (update_where q holds change durable store).1 ≡ changed holds change (at_id q store)
unfolding update_where write
update_where-own q holds change durable store = elim (Option-cases (lookup q store.queries)) [
  | inl e ↦ rw (e, update_where) e
  | inr (row, e) ↦ elim (Bool-cases (holds row)) [
    | inl h ↦ rw (e, update_where, h, lookup-put_own q (change row) store.queries)
    | inr h ↦ rw (e, update_where, h) e
  ]
]

pub update_where-other :
    (q other : QueryId) (holds : Row → Bool) (change : Row → Row) (durable : Bool) (store : Store)
    → same_list q other ≡ false
    → at_id other (update_where q holds change durable store).1 ≡ at_id other store
unfolding update_where write
update_where-other q other holds change durable store apart =
    elim (Option-cases (lookup q store.queries)) [
      | inl e ↦ rw (e, update_where)
      | inr (row, e) ↦ elim (Bool-cases (holds row)) [
        | inl h ↦ rw (e, update_where, h, lookup-put_other q other (change row) store.queries apart)
        | inr h ↦ rw (e, update_where, h)
      ]
    ]

-- A case for the id that the statement names, and one for every other id.
pub by_id : (q j : QueryId) (P : QueryId → Type 0) → P q → (same_list q j ≡ false → P j) → P j
by_id q j P own others = elim (Bool-cases (same_list q j)) [
  | inl e ↦ subst P ((same_list_iff q j).0 e) own
  | inr e ↦ others e
]

pub changed-Becomes :
    (holds : Row → Bool) (change : Row → Row) (o : Option Row)
    → ((row : Row) → o ≡ some row → holds row ≡ true → Moves row (change row))
    → Becomes o (changed holds change o)
changed-Becomes holds change none legal = same none
changed-Becomes holds change (some row) legal = elim (Bool-cases (holds row)) [
  | inl h ↦ rw h (moves row (change row) (legal row refl h))
  | inr h ↦ rw h (same (some row))
]

pub update_where-Becomes :
    (q j : QueryId) (holds : Row → Bool) (change : Row → Row) (durable : Bool) (store : Store)
    → ((row : Row) → at_id q store ≡ some row → holds row ≡ true → Moves row (change row))
    → Becomes (at_id j store) (at_id j (update_where q holds change durable store).1)
update_where-Becomes q j holds change durable store legal =
    by_id q j (λ k. Becomes (at_id k store) (at_id k (update_where q holds change durable store).1))
      (Becomes-eq _ _ _ (changed-Becomes holds change (at_id q store) legal)
        (sym (update_where-own q holds change durable store)))
      (λ apart.
        Becomes-eq _ _ _ (same _) (sym (update_where-other q j holds change durable store apart)))

abbrev epoch_of : Option Row → ℕ
epoch_of none = 0
epoch_of (some row) = row.execution_epoch

same_epoch : (r row : Row) → some r ≡ some row → r.execution_epoch ≡ row.execution_epoch
same_epoch r row e = ap (λ o. epoch_of o) e

pub begin-Becomes :
    (q j : QueryId) (now : ℕ) (store : Store)
    → Becomes (at_id j store) (at_id j (begin q now store).1)
unfolding begin row_of
begin-Becomes q j now store = elim (Option-cases (lookup q store.queries)) [
  | inl e ↦ rw (e, begin) (same _)
  | inr (row, e) ↦ elim (Bool-cases (is_queued row.state)) [
    | inr h ↦ rw (e, begin, h) (same _)
    | inl h ↦
        rw (e, begin, h)
          (update_where-Becomes q j (λ r. is_queued r.state) (begun (row.execution_epoch + 1) now)
            true store
            (λ r is holds.
              subst (λ n. Moves r (begun (n + 1) now r)) (same_epoch r row (sym is ∙ e))
                (begins_at r now holds)))
  ]
]

pub update-Becomes :
    (q j : QueryId) (epoch : ℕ) (report : Report) (now : ℕ) (store : Store)
    → Becomes (at_id j store) (at_id j (update q epoch report now store).1)
unfolding update
update-Becomes q j epoch report now store = elim (Bool-cases (sets_inactive report.state)) [
  | inl e ↦ rw (e, update) (same _)
  | inr e ↦
      rw (e, update)
        (update_where-Becomes q j (is_current epoch) (reported report now) _ store
          (λ row is holds. reports_at row report now (ground arith) e))
]

pub finish-Becomes :
    (q j : QueryId) (epoch : ℕ) (outcome : Outcome) (now : ℕ) (store : Store)
    → Becomes (at_id j store) (at_id j (finish q epoch outcome now store).1)
unfolding finish
finish-Becomes q j epoch outcome now store = elim (Bool-cases (is_terminal outcome.state)) [
  | inr e ↦ rw (e, finish) (same _)
  | inl e ↦ elim (Bool-cases (is_succeeded outcome.state && not (is_some outcome.result))) [
    | inl f ↦ rw (e, finish, f) (same _)
    | inr f ↦
        rw (e, finish, f)
          (update_where-Becomes q j (is_current epoch) (closed outcome now) true store
            (λ row is holds. closes_at row outcome now (ground arith) e f))
  ]
]
