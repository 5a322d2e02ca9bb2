-- ===== src/Server/Oldest.antt =====
-- quail/server/store.py: `next_queued` gives a queued record that no queued record is older than.
use quail.Prelude.{
  ◌≤◌, ◌≡◌, inl, inr, refl, ◌⊎◌, sym, ap, subst, ◌∙◌, true, false, ◌&&◌, Option, none, some, [],
  ◌∷◌, ltb, nat_eq, list_eq, same_list, same_list_iff, Bool-cases, Option-cases, arith,
}
use quail.Dict.{Dict, lookup, Uniq}
use quail.Server.Records.{is_queued, QueryId}
use quail.Server.Store.{Row, row_status, Store}
use quail.Server.Lifecycle.{older, oldest_queued, next_queued}
use quail.Server.Moves.{at_id}
use quail.Server.Steps.{same_row}
use quail.Server.Distinct.{IsDistinct}

-- What the best so far comes to: never younger.
oldest_queued_le :
    (q : QueryId) (row : Row) (rows : Dict QueryId Row)
    → (best : QueryId × Row) × (oldest_queued (some (q, row)) rows ≡ some best)
      × (best.1.created_at ≤ row.created_at)
unfolding oldest_queued
oldest_queued_le q row [] = ((q, row), refl, omega arith)
oldest_queued_le q row ((p, r) ∷ rows) =
    elim (Bool-cases (is_queued r.state && ltb r.created_at row.created_at)) [
      | inl h ↦
          let next = oldest_queued_le p r rows in (next.0, rw h next.1, ground (arith, next.2))
      | inr h ↦ let next = oldest_queued_le q row rows in (next.0, rw h next.1, next.2)
    ]

-- The best after a queued row, which is no younger than the row.
older_le :
    (start : Option (QueryId × Row)) (q : QueryId) (row : Row)
    → is_queued row.state ≡ true
    → (best : QueryId × Row) × (older start q row ≡ some best)
      × (best.1.created_at ≤ row.created_at)
older_le none q row h = ((q, row), rw h, omega arith)
older_le (some b) q row h = elim (Bool-cases (ltb row.created_at b.1.created_at)) [
  | inl l ↦ ((q, row), rw (h, l), omega arith)
  | inr l ↦ (b, rw (h, l), ground (arith, l))
]

oldest_queued_bound :
    (start : Option (QueryId × Row)) (rows : Dict QueryId Row) (j : QueryId) (r : Row)
    → lookup j rows ≡ some r
    → is_queued r.state ≡ true
    → (best : QueryId × Row) × (oldest_queued start rows ≡ some best)
      × (best.1.created_at ≤ r.created_at)
unfolding oldest_queued lookup
oldest_queued_bound start [] j r is h = ground arith
oldest_queued_bound start ((q, row) ∷ rows) j r is h = elim (Bool-cases (same_list q j)) [
  | inr apart ↦ oldest_queued_bound (older start q row) rows j r (rw apart at is) h
  | inl here ↦
      let same : some row ≡ some r = rw here at is in
      let first = older_le start q r h in
      let rest = oldest_queued_le first.0.0 first.0.1 rows in
      (
        rest.0,
        ap (λ y. oldest_queued (older start q y) rows) (same_row row r same)
            ∙ (ap (λ o. oldest_queued o rows) first.1 ∙ rest.1),
        ground (arith, rest.2, first.2),
      )
]

older_from :
    (start : Option (QueryId × Row)) (q : QueryId) (row : Row) (best : QueryId × Row)
    → older start q row ≡ some best
    → (start ≡ some best) ⊎ ((some (q, row) ≡ some best) × (is_queued row.state ≡ true))
older_from none q row best e = elim (Bool-cases (is_queued row.state)) [
  | inl h ↦ inr (rw h at e, h)
  | inr h ↦ inl (rw h at e)
]
older_from (some b) q row best e =
    elim (Bool-cases (is_queued row.state && ltb row.created_at b.1.created_at)) [
      | inl h ↦ inr (rw h at e, ground arith)
      | inr h ↦ inl (rw h at e)
    ]

abbrev pair_or : QueryId × Row → Option (QueryId × Row) → QueryId × Row
pair_or p none = p
pair_or p (some q) = q

IsRow : Dict QueryId Row → QueryId × Row → Type 0
IsRow rows best = (lookup best.0 rows ≡ some best.1) × (is_queued best.1.state ≡ true)

IsRow-head :
    (q : QueryId) (row : Row) (rows : Dict QueryId Row)
    → is_queued row.state ≡ true
    → IsRow ((q, row) ∷ rows) (q, row)
unfolding IsRow lookup
IsRow-head q row rows h = (rw (same_list_iff q q).1 refl, h)

IsRow-tail :
    (q : QueryId) (row : Row) (rows : Dict QueryId Row) (best : QueryId × Row)
    → lookup q rows ≡ none
    → IsRow rows best
    → IsRow ((q, row) ∷ rows) best
unfolding IsRow lookup
IsRow-tail q row rows best fresh (is, h) = elim (Bool-cases (same_list q best.0)) [
  | inr apart ↦ (rw apart is, h)
  | inl here ↦
      let absent = subst (λ k. lookup k rows ≡ none) ((same_list_iff q best.0).0 here) fresh in
      ground arith
]

oldest_queued_from :
    (start : Option (QueryId × Row)) (rows : Dict QueryId Row) (best : QueryId × Row)
    → Uniq rows
    → oldest_queued start rows ≡ some best
    → (start ≡ some best) ⊎ IsRow rows best
unfolding oldest_queued
oldest_queued_from start [] best u e = inl e
oldest_queued_from start ((q, row) ∷ rows) best u e =
    elim (oldest_queued_from (older start q row) rows best u.1 e) [
      | inr found ↦ inr (IsRow-tail q row rows best u.0 found)
      | inl last ↦ elim (older_from start q row best last) [
        | inl old ↦ inl old
        | inr new ↦ inr (
            subst (IsRow ((q, row) ∷ rows)) (ap (pair_or best) new.0) (IsRow-head q row rows new.1))
      ]
    ]

-- With no submission in flight and distinct ids, `next_queued` gives None just if no record is
-- queued, and else the snapshot of a queued record that was created no later than any other.
pub next_queued_oldest :
    (store : Store)
    → IsDistinct store
    → ((next_queued false store ≡ none)
        × ((j : QueryId) (r : Row) → at_id j store ≡ some r → is_queued r.state ≡ false))
      ⊎ ((q : QueryId) × (row : Row) × (next_queued false store ≡ some (row_status q row))
          × (at_id q store ≡ some row)
          × (is_queued row.state ≡ true)
          × ((j : QueryId) (r : Row)
              → at_id j store ≡ some r
              → is_queued r.state ≡ true
              → row.created_at ≤ r.created_at))
unfolding next_queued IsRow
next_queued_oldest store u = elim (Option-cases (oldest_queued none store.queries)) [
  | inl e ↦ inl (
    rw (e, next_queued),
    λ j r is. elim (Bool-cases (is_queued r.state)) [
      | inr h ↦ h
      | inl h ↦
          let some_best = oldest_queued_bound none store.queries j r is h in
          let bad = sym e ∙ some_best.1 in ground arith
    ],
  )
  | inr (best, e) ↦ elim (oldest_queued_from none store.queries best u e) [
    | inl bad ↦ ground arith
    | inr found ↦ inr (
      best.0,
      best.1,
      rw (e, next_queued),
      found.0,
      found.1,
      λ j r is h.
          let other = oldest_queued_bound none store.queries j r is h in
          let one = ap (pair_or best) (sym e ∙ other.1) in ground (arith, one, other.2),
    )
  ]
]
