-- ===== src/Server/Recovery.antt =====
-- quail/server/store.py: `recover` closes every record that an earlier process left active.
use quail.Prelude.{
  ℕ, ◌≡◌, inl, inr, refl, ap, ◌∙◌, Bool, true, false, ◌||◌, Option, none, some, List, [], ◌∷◌,
  if◌then◌else◌, nat_eq, list_eq, same_list, same_list_iff, Bool-cases,
}
use quail.Dict.{Dict, lookup, Uniq}
use quail.Server.Records.{is_active, QueryId}
use quail.Server.Store.{Row, Store, update_where}
use quail.Server.Lifecycle.{interrupted_by_restart, active_ids, interrupt_each, recover}
use quail.Server.Moves.{at_id, changed, by_id, update_where-own, update_where-other}

abbrev listed : QueryId → List QueryId → Bool
listed q [] = false
listed q (p ∷ ps) = same_list p q || listed q ps

abbrev NoDup : List QueryId → Type 0
NoDup [] = Unit
NoDup (q ∷ qs) = (listed q qs ≡ false) × NoDup qs

abbrev is_active_at : Option Row → Bool
is_active_at none = false
is_active_at (some row) = is_active row.state

abbrev pub recovered : ℕ → Option Row → Option Row
recovered now = changed (λ row. is_active row.state) (interrupted_by_restart now)

abbrev interrupted_if : Bool → ℕ → Option Row → Option Row
interrupted_if b now o = if b then changed (λ row. true) (interrupted_by_restart now) o else o

interrupt_each-at_id :
    (ids : List QueryId) (j : QueryId) (now : ℕ) (store : Store)
    → NoDup ids
    → at_id j (interrupt_each ids now store) ≡ interrupted_if (listed j ids) now (at_id j store)
unfolding interrupt_each
interrupt_each-at_id [] j now store distinct = refl
interrupt_each-at_id (q ∷ ids) j now store distinct =
    let first = (update_where q (λ row. true) (interrupted_by_restart now) true store).1 in
    interrupt_each-at_id ids j now first distinct.1
    ∙ by_id q j
        (λ k.
          interrupted_if (listed k ids) now (at_id k first)
          ≡ interrupted_if (same_list q k || listed k ids) now (at_id k store))
        (rw (distinct.0, (same_list_iff q q).1 refl)
          (update_where-own q (λ row. true) (interrupted_by_restart now) true store))
        (λ apart. rw apart (
          ap (interrupted_if (listed j ids) now)
            (update_where-other q j (λ row. true) (interrupted_by_restart now) true store apart)))

listed-active_ids :
    (j : QueryId) (rows : Dict QueryId Row)
    → Uniq rows
    → listed j (active_ids rows) ≡ is_active_at (lookup j rows)
unfolding active_ids lookup
listed-active_ids j [] u = refl
listed-active_ids j ((q, row) ∷ rows) u =
    by_id q j
      (λ k.
        listed k (let rest = active_ids rows in if is_active row.state then q ∷ rest else rest)
        ≡ is_active_at (if same_list q k then some row else lookup k rows))
      (rw ((same_list_iff q q).1 refl) (elim (Bool-cases (is_active row.state)) [
        | inl a ↦ rw (a, (same_list_iff q q).1 refl)
        | inr a ↦ rw a (listed-active_ids q rows u.1 ∙ rw u.0)
      ]))
      (λ apart. elim (Bool-cases (is_active row.state)) [
        | inl a ↦ rw (a, apart) (listed-active_ids j rows u.1)
        | inr a ↦ rw (a, apart) (listed-active_ids j rows u.1)
      ])

active_ids-NoDup : (rows : Dict QueryId Row) → Uniq rows → NoDup (active_ids rows)
unfolding active_ids
active_ids-NoDup [] u = tt
active_ids-NoDup ((q, row) ∷ rows) u = elim (Bool-cases (is_active row.state)) [
  | inl a ↦ rw a (listed-active_ids q rows u.1 ∙ rw u.0, active_ids-NoDup rows u.1)
  | inr a ↦ rw a (active_ids-NoDup rows u.1)
]

interrupted_if-active :
    (o : Option Row) (now : ℕ) → interrupted_if (is_active_at o) now o ≡ recovered now o
interrupted_if-active none now = refl
interrupted_if-active (some row) now = elim (Bool-cases (is_active row.state)) [
  | inl a ↦ rw a
  | inr a ↦ rw a
]

-- In a store whose ids are distinct, `recover` interrupts every record that is planning or running
-- and leaves every other record as it is.
pub recover-at_id :
    (store : Store) (now : ℕ) (j : QueryId)
    → Uniq store.queries
    → at_id j (recover now store).1 ≡ recovered now (at_id j store)
unfolding recover
recover-at_id store now j u =
    interrupt_each-at_id (active_ids store.queries) j now store (active_ids-NoDup store.queries u)
    ∙ (ap (λ b. interrupted_if b now (at_id j store)) (listed-active_ids j store.queries u)
        ∙ interrupted_if-active (at_id j store) now)
