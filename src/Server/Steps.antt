-- ===== src/Server/Steps.antt =====
-- quail/server/store.py: every call of `Store` makes at most one move on every record.
use quail.Prelude.{
  ℕ, ◌≡◌, inl, inr, refl, sym, ap, subst, ◌∙◌, true, false, not, ◌&&◌, Option, none, some, List,
  leb, ◌==◌, nat_eq, list_eq, same_list_iff, Bool-cases, Option-cases, arith,
}
use quail.Dict.{lookup, put, pop, lookup-put_own, lookup-put_other, lookup-pop}
use quail.Result.{Result-cases}
use quail.Server.Json.{Json}
use quail.Server.Records.{is_active, is_queued, QueryId}
use quail.Server.Store.{
  Row, Store, write, row_of, get, new_row, Submission, digest, create_as, create, cancelled_before,
  asked_to_cancel, request_cancel, delete_queued, discard, chosen_id,
}
use quail.Server.Moves.{
  Moves, cancels_at, asks_at, Becomes, same, starts, leaves, at_id, Becomes-eq, by_id,
  update_where-Becomes,
}

module _ (sha256 : List Json → ℕ) where
  create_as-Becomes :
      (q j : QueryId) (s : Submission) (now : ℕ) (store : Store)
      → Becomes (at_id j store) (at_id j (create_as sha256 q s now store).1)
  unfolding create_as write
  create_as-Becomes q j s now store = elim (Option-cases (lookup q store.queries)) [
    | inr (row, e) ↦ elim (Bool-cases (row.hash == digest sha256 s)) [
      | inl h ↦ rw (e, create_as, h) (same _)
      | inr h ↦ rw (e, create_as, h) (same _)
    ]
    | inl e ↦
        rw (e, create_as, write)
          (by_id q j
            (λ k. Becomes (lookup k store.queries) (
              lookup k (
                put q
                  (new_row s.session_id (digest sha256 s) s.spec s.config s.inputs s.timeout_s now)
                  store.queries)))
            (rw
              (
                e,
                lookup-put_own q
                    (new_row s.session_id (digest sha256 s) s.spec s.config s.inputs s.timeout_s
                      now)
                    store.queries,
              )
              (starts _ _ _ _ _ _ _))
            (λ apart. Becomes-eq _ _ _ (same _) (sym (lookup-put_other q j _ store.queries apart))))
  ]

  pub create-Becomes :
      (j : QueryId) (s : Submission) (now : ℕ) (store : Store)
      → Becomes (at_id j store) (at_id j (create sha256 s now store).1)
  unfolding create
  create-Becomes j s now store = elim (Bool-cases (leb s.timeout_s 0)) [
    | inl e ↦ rw (e, create) (same _)
    | inr e ↦ elim (Result-cases (chosen_id s)) [
      | inl (q, f) ↦ rw (e, create, f) (create_as-Becomes q j s now store)
      | inr (x, f) ↦ rw (e, create, f) (same _)
    ]
  ]

abbrev row_or : Row → Option Row → Row
row_or row none = row
row_or row (some r) = r

pub same_row : (r row : Row) → some r ≡ some row → r ≡ row
same_row r row e = ap (row_or r) e

pub request_cancel-Becomes :
    (q j : QueryId) (now : ℕ) (store : Store)
    → Becomes (at_id j store) (at_id j (request_cancel q now store).1)
unfolding request_cancel get row_of
request_cancel-Becomes q j now store = elim (Option-cases (lookup q store.queries)) [
  | inl e ↦ rw (e, request_cancel, get) (same _)
  | inr (row, e) ↦ elim (Bool-cases (is_queued row.state)) [
    | inl h ↦
        rw (e, request_cancel, get, h)
          (update_where-Becomes q j (λ r. is_queued r.state) (cancelled_before now) true store
            (λ r is holds. cancels_at r now holds))
    | inr h ↦ elim (Bool-cases (is_active row.state && not row.cancel_requested)) [
      | inl a ↦
          rw (e, request_cancel, get, h, a)
            (update_where-Becomes q j (λ r. true) (asked_to_cancel now) true store
              (λ r is holds.
                subst (λ x. Moves x (asked_to_cancel now x)) (same_row row r (sym e ∙ is))
                  (asks_at row now (ground arith) (ground arith))))
      | inr a ↦ rw (e, request_cancel, get, h, a) (same _)
    ]
  ]
]

delete_queued-Becomes :
    (q j : QueryId) (store : Store) → Becomes (at_id j store) (at_id j (delete_queued q store).1)
unfolding delete_queued write
delete_queued-Becomes q j store = elim (Option-cases (lookup q store.queries)) [
  | inl e ↦ rw (e, delete_queued) (same _)
  | inr (row, e) ↦ elim (Bool-cases (is_queued row.state)) [
    | inr h ↦ rw (e, delete_queued, h) (same _)
    | inl h ↦
        rw (e, delete_queued, h)
          (by_id q j (λ k. Becomes (lookup k store.queries) (lookup k (pop q store.queries)))
            (rw (e, lookup-pop q q store.queries, (same_list_iff q q).1 refl) (leaves row h))
            (λ apart. rw (lookup-pop q j store.queries, apart) (same _)))
  ]
]

delete_queued-kept :
    (q j : QueryId) (store : Store)
    → ((delete_queued q store).0 == 1) ≡ false
    → at_id j (delete_queued q store).1 ≡ at_id j store
unfolding delete_queued write
delete_queued-kept q j store h = elim (Option-cases (lookup q store.queries)) [
  | inl e ↦ rw (e, delete_queued)
  | inr (row, e) ↦ elim (Bool-cases (is_queued row.state)) [
    | inr f ↦ rw (e, delete_queued, f)
    | inl f ↦ let bad = rw (e, delete_queued, f) at h in ground arith
  ]
]

pub discard-Becomes :
    (q j : QueryId) (now : ℕ) (store : Store)
    → Becomes (at_id j store) (at_id j (discard q now store).1)
unfolding discard
discard-Becomes q j now store = elim (Bool-cases ((delete_queued q store).0 == 1)) [
  | inl e ↦ rw (e, discard) (delete_queued-Becomes q j store)
  | inr e ↦
      rw (e, discard)
        (subst (λ o. Becomes o (at_id j (request_cancel q now (delete_queued q store).1).1))
          (delete_queued-kept q j store e)
          (request_cancel-Becomes q j now (delete_queued q store).1))
]
