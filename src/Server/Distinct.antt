-- ===== src/Server/Distinct.antt =====
-- quail/server/store.py: the ids in the table of records stay distinct, as its primary key says.
use quail.Prelude.{
  ℕ, inl, inr, Bool, true, not, ◌&&◌, List, [], ◌∷◌, leb, ◌==◌, nat_eq, list_eq, is_some,
  Bool-cases, Option-cases,
}
use quail.Dict.{lookup, Uniq, put-Uniq, pop-Uniq}
use quail.Result.{Result-cases}
use quail.Server.Json.{Json}
use quail.Server.Records.{is_active, is_terminal, is_queued, QueryId}
use quail.Server.Store.{
  Row, Store, write, update_where, row_of, get, Submission, digest, create_as, create,
  cancelled_before, asked_to_cancel, request_cancel, delete_queued, discard, chosen_id,
}
use quail.Server.Lifecycle.{
  begin, Report, Outcome, sets_inactive, update, is_succeeded, finish, interrupted_by_restart,
  active_ids, interrupt_each, recover, put_input, Call, creates, discards, requests_cancel, begins,
  updates, finishes, recovers, puts_input, step,
}

abbrev pub IsDistinct : Store → Type 0
IsDistinct store = Uniq store.queries

update_where-IsDistinct :
    (q : QueryId) (holds : Row → Bool) (change : Row → Row) (durable : Bool) (store : Store)
    → IsDistinct store
    → IsDistinct (update_where q holds change durable store).1
unfolding update_where write
update_where-IsDistinct q holds change durable store u =
    elim (Option-cases (lookup q store.queries)) [
      | inl e ↦ rw (e, update_where) u
      | inr (row, e) ↦ elim (Bool-cases (holds row)) [
        | inl h ↦ rw (e, update_where, h) (put-Uniq q (change row) store.queries u)
        | inr h ↦ rw (e, update_where, h) u
      ]
    ]

interrupt_each-IsDistinct :
    (ids : List QueryId) (now : ℕ) (store : Store)
    → IsDistinct store
    → IsDistinct (interrupt_each ids now store)
unfolding interrupt_each
interrupt_each-IsDistinct [] now store u = u
interrupt_each-IsDistinct (q ∷ ids) now store u =
    interrupt_each-IsDistinct ids now _
      (update_where-IsDistinct q (λ row. true) (interrupted_by_restart now) true store u)

request_cancel-IsDistinct :
    (q : QueryId) (now : ℕ) (store : Store)
    → IsDistinct store
    → IsDistinct (request_cancel q now store).1
unfolding request_cancel get row_of
request_cancel-IsDistinct q now store u = elim (Option-cases (lookup q store.queries)) [
  | inl e ↦ rw (e, request_cancel, get) u
  | inr (row, e) ↦ elim (Bool-cases (is_queued row.state)) [
    | inl h ↦
        rw (e, request_cancel, get, h)
          (update_where-IsDistinct q (λ r. is_queued r.state) (cancelled_before now) true store u)
    | inr h ↦ elim (Bool-cases (is_active row.state && not row.cancel_requested)) [
      | inl a ↦
          rw (e, request_cancel, get, h, a)
            (update_where-IsDistinct q (λ r. true) (asked_to_cancel now) true store u)
      | inr a ↦ rw (e, request_cancel, get, h, a) u
    ]
  ]
]

delete_queued-IsDistinct :
    (q : QueryId) (store : Store) → IsDistinct store → IsDistinct (delete_queued q store).1
unfolding delete_queued write
delete_queued-IsDistinct q store u = elim (Option-cases (lookup q store.queries)) [
  | inl e ↦ rw (e, delete_queued) u
  | inr (row, e) ↦ elim (Bool-cases (is_queued row.state)) [
    | inr h ↦ rw (e, delete_queued, h) u
    | inl h ↦ rw (e, delete_queued, h) (pop-Uniq q store.queries u)
  ]
]

discard-IsDistinct :
    (q : QueryId) (now : ℕ) (store : Store) → IsDistinct store → IsDistinct (discard q now store).1
unfolding discard
discard-IsDistinct q now store u = elim (Bool-cases ((delete_queued q store).0 == 1)) [
  | inl e ↦ rw (e, discard) (delete_queued-IsDistinct q store u)
  | inr e ↦
      rw (e, discard)
        (request_cancel-IsDistinct q now (delete_queued q store).1
          (delete_queued-IsDistinct q store u))
]

pub begin-IsDistinct :
    (q : QueryId) (now : ℕ) (store : Store) → IsDistinct store → IsDistinct (begin q now store).1
unfolding begin row_of
begin-IsDistinct q now store u = elim (Option-cases (lookup q store.queries)) [
  | inl e ↦ rw (e, begin) u
  | inr (row, e) ↦ elim (Bool-cases (is_queued row.state)) [
    | inr h ↦ rw (e, begin, h) u
    | inl h ↦ rw (e, begin, h) (update_where-IsDistinct q _ _ true store u)
  ]
]

update-IsDistinct :
    (q : QueryId) (epoch : ℕ) (report : Report) (now : ℕ) (store : Store)
    → IsDistinct store
    → IsDistinct (update q epoch report now store).1
unfolding update
update-IsDistinct q epoch report now store u = elim (Bool-cases (sets_inactive report.state)) [
  | inl e ↦ rw (e, update) u
  | inr e ↦ rw (e, update) (update_where-IsDistinct q _ _ _ store u)
]

finish-IsDistinct :
    (q : QueryId) (epoch : ℕ) (outcome : Outcome) (now : ℕ) (store : Store)
    → IsDistinct store
    → IsDistinct (finish q epoch outcome now store).1
unfolding finish
finish-IsDistinct q epoch outcome now store u = elim (Bool-cases (is_terminal outcome.state)) [
  | inr e ↦ rw (e, finish) u
  | inl e ↦ elim (Bool-cases (is_succeeded outcome.state && not (is_some outcome.result))) [
    | inl f ↦ rw (e, finish, f) u
    | inr f ↦ rw (e, finish, f) (update_where-IsDistinct q _ _ true store u)
  ]
]

module _ (sha256 : List Json → ℕ) where
  create-IsDistinct :
      (s : Submission) (now : ℕ) (store : Store)
      → IsDistinct store
      → IsDistinct (create sha256 s now store).1
  unfolding create create_as write
  create-IsDistinct s now store u = elim (Bool-cases (leb s.timeout_s 0)) [
    | inl e ↦ rw (e, create) u
    | inr e ↦ elim (Result-cases (chosen_id s)) [
      | inr (x, f) ↦ rw (e, create, f) u
      | inl (q, f) ↦ elim (Option-cases (lookup q store.queries)) [
        | inl g ↦ rw (e, create, f, g, create_as) (put-Uniq q _ store.queries u)
        | inr (row, g) ↦ elim (Bool-cases (row.hash == digest sha256 s)) [
          | inl h ↦ rw (e, create, f, g, create_as, h) u
          | inr h ↦ rw (e, create, f, g, create_as, h) u
        ]
      ]
    ]
  ]

  -- No call gives two records one id.
  pub step-IsDistinct :
      (call : Call) (now : ℕ) (store : Store)
      → IsDistinct store
      → IsDistinct (step sha256 call now store)
  unfolding step
  step-IsDistinct (creates s) now store u = create-IsDistinct s now store u
  step-IsDistinct (discards q) now store u = discard-IsDistinct q now store u
  step-IsDistinct (requests_cancel q) now store u = request_cancel-IsDistinct q now store u
  step-IsDistinct (begins q) now store u = begin-IsDistinct q now store u
  step-IsDistinct (updates q epoch report) now store u =
      update-IsDistinct q epoch report now store u
  step-IsDistinct (finishes q epoch outcome) now store u =
      finish-IsDistinct q epoch outcome now store u
  step-IsDistinct recovers now store u =
      unfold recover in interrupt_each-IsDistinct (active_ids store.queries) now store u
  step-IsDistinct (puts_input content_id path num_bytes) now store u = unfold put_input in u
