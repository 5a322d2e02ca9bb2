-- ===== src/Server/Submit.antt =====
-- quail/server/store.py: what a repeated submission gets.
use quail.Prelude.{
  ℕ, ◌≡◌, inl, inr, refl, sym, ap, ◌∙◌, true, false, none, some, List, leb, ◌==◌, ==_iff, nat_eq,
  list_eq, if◌then◌else◌, Bool-cases, Option-cases, arith,
}
use quail.Dict.{put, lookup-put_own}
use quail.Result.{Result, ok, err, query_id_conflict_error}
use quail.Server.Json.{Json}
use quail.Server.Records.{QueryId, QueryStatus}
use quail.Server.Store.{
  Row, row_status, Store, write, row_of, get, new_row, Submission, digest, create_as, create,
  chosen_id,
}
use quail.Server.Moves.{at_id}

pub get_known :
    (q : QueryId) (row : Row) (store : Store)
    → at_id q store ≡ some row
    → get q store ≡ ok (row_status q row)
unfolding get row_of
get_known q row store e = rw (e, get, row_of)

module _ (sha256 : List Json → ℕ) where
  -- What a row says of a submission of its id.
  abbrev replied : QueryId → Row → Submission → Result QueryStatus
  replied q row s =
      if row.hash == digest sha256 s then ok (row_status q row) else err query_id_conflict_error

  replied_as :
      (q : QueryId) (row : Row) (s : Submission) (hash : ℕ) (reply : Result QueryStatus)
      → row.hash ≡ hash
      → ok (row_status q row) ≡ reply
      → replied q row s ≡ (if hash == digest sha256 s then reply else err query_id_conflict_error)
  replied_as q row s hash reply e f = rw (e, f)

  create_known :
      (s : Submission) (q : QueryId) (row : Row) (now : ℕ) (store : Store)
      → leb s.timeout_s 0 ≡ false
      → chosen_id s ≡ ok q
      → at_id q store ≡ some row
      → create sha256 s now store ≡ (replied q row s, store)
  unfolding create create_as
  create_known s q row now store p c e = elim (Bool-cases (row.hash == digest sha256 s)) [
    | inl h ↦ rw (p, create, c, e, create_as, h)
    | inr h ↦ rw (p, create, c, e, create_as, h)
  ]

  -- The store with the record of a new id.
  abbrev added : QueryId → Submission → ℕ → Store → Store
  added q s now store =
      write true
        (put q (new_row s.session_id (digest sha256 s) s.spec s.config s.inputs s.timeout_s now)
          store.queries)
        store

  added-at_id :
      (s : Submission) (q : QueryId) (now : ℕ) (store : Store)
      → at_id q (added q s now store)
        ≡ some (new_row s.session_id (digest sha256 s) s.spec s.config s.inputs s.timeout_s now)
  unfolding write
  added-at_id s q now store = lookup-put_own q _ store.queries

  create_new :
      (s : Submission) (q : QueryId) (now : ℕ) (store : Store)
      → leb s.timeout_s 0 ≡ false
      → chosen_id s ≡ ok q
      → at_id q store ≡ none
      → create sha256 s now store ≡ (get q (added q s now store), added q s now store)
  unfolding create create_as
  create_new s q now store p c e = rw (p, create, c, e, create_as)

  -- The row that an accepted submission has, new or old.
  create_row :
      (s : Submission) (q : QueryId) (status : QueryStatus) (now : ℕ) (store : Store)
      → leb s.timeout_s 0 ≡ false
      → chosen_id s ≡ ok q
      → (create sha256 s now store).0 ≡ ok status
      → (row : Row) × (at_id q (create sha256 s now store).1 ≡ some row)
        × (row.hash ≡ digest sha256 s)
        × (ok (row_status q row) ≡ ok status)
  create_row s q status now store p c r = elim (Option-cases (at_id q store)) [
    | inl e ↦
        let made = create_new s q now store p c e in
        (
          new_row s.session_id (digest sha256 s) s.spec s.config s.inputs s.timeout_s now,
          ap (λ x. at_id q x.1) made ∙ added-at_id s q now store,
          refl,
          sym (get_known q _ (added q s now store) (added-at_id s q now store))
              ∙ (sym (ap (λ x. x.0) made) ∙ r),
        )
    | inr (row, e) ↦ elim (Bool-cases (row.hash == digest sha256 s)) [
      | inl h ↦
          let made = create_known s q row now store p c e in
          (
            row,
            ap (λ x. at_id q x.1) made ∙ e,
            (==_iff row.hash (digest sha256 s)).0 h,
            rw h at (sym (ap (λ x. x.0) made) ∙ r),
          )
      | inr h ↦
          let bad : replied q row s ≡ ok status =
            sym (ap (λ x. x.0) (create_known s q row now store p c e)) ∙ r in
          let worse = rw h at bad in ground arith
    ]
  ]

  -- A submission with a positive timeout that was accepted under an id, and after it another one with
  -- the same id: if the two have one hash, the second gets the same snapshot; if not, it is refused;
  -- either way the store stays as the first left it.
  pub create_twice :
      (s again : Submission) (q : QueryId) (status : QueryStatus) (now later : ℕ) (store : Store)
      → leb s.timeout_s 0 ≡ false
      → chosen_id s ≡ ok q
      → (create sha256 s now store).0 ≡ ok status
      → leb again.timeout_s 0 ≡ false
      → chosen_id again ≡ ok q
      → create sha256 again later (create sha256 s now store).1 ≡ (
        (if digest sha256 s == digest sha256 again then ok status else err query_id_conflict_error),
        (create sha256 s now store).1,
      )
  create_twice s again q status now later store p c r p2 c2 =
      let made = create_row s q status now store p c r in
      create_known again q made.0 later (create sha256 s now store).1 p2 c2 made.1
      ∙ ap (λ x. (x, (create sha256 s now store).1))
          (replied_as q made.0 again (digest sha256 s) (ok status) made.2 made.3)
