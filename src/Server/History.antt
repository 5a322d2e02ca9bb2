-- ===== src/Server/History.antt =====
-- quail/server/store.py: what a record goes through over any sequence of calls.
use quail.Prelude.{ℕ, ◌≡◌, refl, sym, subst, Option, some, List, [], ◌∷◌, arith}
use quail.Dict.{lookup}
use quail.Server.Json.{Json}
use quail.Server.Records.{is_active, QueryId}
use quail.Server.Store.{Row, Store, init}
use quail.Server.Lifecycle.{
  recover, interrupted_by_restart, put_input, Call, creates, discards, requests_cancel, begins,
  updates, finishes, recovers, puts_input, step, run,
}
use quail.Server.Moves.{
  interrupts_at, Becomes, same, moves, starts, leaves, at_id, Becomes-eq, changed-Becomes,
  begin-Becomes, update-Becomes, finish-Becomes,
}
use quail.Server.Steps.{create-Becomes, request_cancel-Becomes, discard-Becomes, same_row}
use quail.Server.Recovery.{recover-at_id}
use quail.Server.Distinct.{IsDistinct, step-IsDistinct}
use quail.Server.Legal.{IsLegal, Moves-IsLegal}

recover-Becomes :
    (q : QueryId) (now : ℕ) (store : Store)
    → IsDistinct store
    → Becomes (at_id q store) (at_id q (recover now store).1)
recover-Becomes q now store u =
    Becomes-eq _ _ _
      (changed-Becomes (λ row. is_active row.state) (interrupted_by_restart now) (at_id q store)
        (λ row is active. interrupts_at row now active))
      (sym (recover-at_id store now q u))

module _ (sha256 : List Json → ℕ) where
  -- In a store whose ids are distinct, every call leaves the record of an id as it is, makes one
  -- move of the state machine on it, puts a queued record where there was none, or removes it while
  -- it is queued.
  pub step-Becomes :
      (call : Call) (now : ℕ) (store : Store) (q : QueryId)
      → IsDistinct store
      → Becomes (at_id q store) (at_id q (step sha256 call now store))
  unfolding step
  step-Becomes (creates s) now store q u = create-Becomes sha256 q s now store
  step-Becomes (discards p) now store q u = discard-Becomes p q now store
  step-Becomes (requests_cancel p) now store q u = request_cancel-Becomes p q now store
  step-Becomes (begins p) now store q u = begin-Becomes p q now store
  step-Becomes (updates p epoch report) now store q u = update-Becomes p q epoch report now store
  step-Becomes (finishes p epoch outcome) now store q u = finish-Becomes p q epoch outcome now store
  step-Becomes recovers now store q u = recover-Becomes q now store u
  step-Becomes (puts_input content_id path num_bytes) now store q u = unfold put_input in same _

Becomes-IsLegal :
    (o p : Option Row)
    → Becomes o p
    → ((row : Row) → o ≡ some row → IsLegal row)
    → (row : Row) → p ≡ some row
    → IsLegal row
Becomes-IsLegal _ _ (same o) l row is = l row is
Becomes-IsLegal _ _ (moves row after move) l r is =
    subst IsLegal (same_row after r is) (Moves-IsLegal row after move (l row refl))
Becomes-IsLegal _ _ (starts session_id hash spec config inputs timeout_s now) l r is =
    subst IsLegal (same_row _ r is) (refl, (refl, (refl, (refl, (refl, refl)))))
Becomes-IsLegal _ _ (leaves row q) l r is = ground arith

unfoldable pub IsConsistent : Store → Type 0
IsConsistent store =
    IsDistinct store × ((q : QueryId) (row : Row) → at_id q store ≡ some row → IsLegal row)

module _ (sha256 : List Json → ℕ) where
  pub step-IsConsistent :
      (call : Call) (now : ℕ) (store : Store)
      → IsConsistent store
      → IsConsistent (step sha256 call now store)
  unfolding IsConsistent
  step-IsConsistent call now store (u, l) = (
    step-IsDistinct sha256 call now store u,
    λ q row is. Becomes-IsLegal _ _ (step-Becomes sha256 call now store q u) (l q) row is,
  )

  run-IsConsistent :
      (calls : List (Call × ℕ)) (store : Store)
      → IsConsistent store
      → IsConsistent (run sha256 calls store)
  unfolding run
  run-IsConsistent [] store sound = sound
  run-IsConsistent ((call, now) ∷ calls) store sound =
      run-IsConsistent calls (step sha256 call now store) (step-IsConsistent call now store sound)

  -- After any calls on an empty store, the ids of the records are distinct, and every record is as
  -- its state says: a queued one has epoch 0 and revision 1 and nothing begun, an active one has
  -- epoch 1, a start time and neither error nor result, a succeeded one has its result, and no
  -- record ever has an epoch above 1.
  pub run-init-IsConsistent : (calls : List (Call × ℕ)) → IsConsistent (run sha256 calls init)
  unfolding IsConsistent lookup
  run-init-IsConsistent calls = run-IsConsistent calls init (tt, λ q row is. ground arith)
