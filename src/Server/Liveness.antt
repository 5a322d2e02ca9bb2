-- ===== src/Server/Liveness.antt =====
-- quail/server/scheduler.py: the turns of `run_one` end, with the record in a terminal state.
use quail.Prelude.{
  ℕ, zero, suc, ◌+◌, ◌*◌, ◌≤◌, ◌<◌, Bool, ◌≡◌, ◌⊎◌, inl, inr, refl, sym, ap, subst, ◌∙◌, true,
  Option, none, some, List, arith,
}
use Prim.Native.String.{String}
use quail.Result.{ok, Result-cases}
use quail.Server.Json.{Json, error_of}
use quail.Server.Records.{QueryId, QueryStatus, done}
use quail.Server.Store.{Store}
use quail.Server.Lifecycle.{begin, finish}
use quail.Server.History.{IsConsistent}
use quail.Server.Scheduler.{Reporter, failure}
use quail.Server.Polling.{
  Turn, time_of, snapshot_paths, goes_on, decide, Next, over, again, take_turn, loop, run_one,
}
use quail.Server.Begun.{IsBegun}
use quail.Server.Turns.{
  IsClosed, closed_status, finish-IsClosed, begin-IsBegun, decide_kept, decide_late, Leaves,
  take_turn-Leaves, goes_on_of,
}

-- Time passes: each time is over from some turn on.
abbrev pub Advances : (ℕ → Turn) → Type 0
Advances turns = (t : ℕ) → (from : ℕ) × ((m : ℕ) → from ≤ m → t ≤ time_of (turns m))

module _ (sha256 : List Json → ℕ) (verify : Json → Option String) (directory : String) where
  module _ (q : QueryId) (deadline : ℕ) (turns : ℕ → Turn) where
    -- With some fuel, the loop from a turn returns, and the record is closed.
    abbrev Ends : ℕ → Option ℕ → Reporter × Store → Type 0
    Ends n grace r =
        (fuel : ℕ) × (store : Store) × (loop sha256 verify directory q 1 deadline turns n fuel grace
            r
          ≡ some store)
        × IsClosed q store

    Ends-over :
        (n : ℕ) (grace : Option ℕ) (r : Reporter) (store after : Store)
        → take_turn sha256 verify directory q 1 deadline (turns n) grace (r, store) ≡ over after
        → IsClosed q after
        → Ends n grace (r, store)
    unfolding loop
    Ends-over n grace r store after h closed_after = (1, after, rw (loop, h) refl, closed_after)

    Ends-again :
        (n : ℕ) (grace later : Option ℕ) (r : Reporter) (store : Store) (next : Reporter × Store)
        → take_turn sha256 verify directory q 1 deadline (turns n) grace (r, store)
          ≡ again later next
        → Ends (suc n) later next
        → Ends n grace (r, store)
    unfolding loop
    Ends-again n grace later r store next h (fuel, after, is, closed_after) =
        (suc fuel, after, rw (loop, h) is, closed_after)

    Next-cases :
        (x : Next)
        → ((store : Store) × (x ≡ over store))
          ⊎ ((later : Option ℕ) × (next : Reporter × Store) × (x ≡ again later next))
    Next-cases (over store) = inl (store, refl)
    Next-cases (again later next) = inr (later, next, refl)

    -- A loop ends if it does so after every turn with which it goes on.
    by_turn :
        (n : ℕ) (grace : Option ℕ) (r : Reporter × Store)
        → IsBegun q r.1
        → ((later : Option ℕ) (next : Reporter × Store) (status : QueryStatus) (stopping : Bool)
            → decide status deadline stopping (time_of (turns n)) grace ≡ goes_on later
            → IsBegun q next.1
            → Ends (suc n) later next)
        → Ends n grace r
    by_turn n grace r b rest =
        let leaves =
          take_turn-Leaves sha256 verify directory q deadline (turns n) grace r.0 r.1 b in
        elim (Next-cases (take_turn sha256 verify directory q 1 deadline (turns n) grace r)) [
          | inl (after, h) ↦
              Ends-over n grace r.0 r.1 after h (subst (Leaves sha256 verify directory q) h leaves)
          | inr (later, next, h) ↦
              let (status, stopping, on) =
                goes_on_of sha256 verify directory q deadline (turns n) grace later r next h in
              Ends-again n grace later r.0 r.1 next h (
                rest later next status stopping on
                  (subst (Leaves sha256 verify directory q) h leaves))
        ]

    -- A loop that waits for the executor to report is over once the grace and the timeout are.
    graced-Ends :
        (k n d from : ℕ) (r : Reporter × Store)
        → ((m : ℕ) → from ≤ m → (d ≤ time_of (turns m)) × (deadline < time_of (turns m)))
        → from ≤ n + k
        → IsBegun q r.1
        → Ends n (some d) r
    graced-Ends zero n d from r late near b =
        by_turn n (some d) r b λ later next status stopping on c.
          let (expired, past) = late n (omega arith) in
          let kept = (decide_late status deadline stopping _ (some d) later past on).1 in
          absurd (omega arith)
    graced-Ends (suc k) n d from r late near b =
        by_turn n (some d) r b λ later next status stopping on c.
          subst (λ g. Ends (suc n) g next) (sym (decide_kept status deadline stopping _ d later on))
            (graced-Ends k (suc n) d from next late (omega arith) c)

    closed-Ends :
        (n d : ℕ) (r : Reporter × Store) → Advances turns → IsBegun q r.1 → Ends n (some d) r
    closed-Ends n d r advances b =
        let (from, later) = advances (d + suc deadline) in
        graced-Ends from n d from r
          (λ m h. (let t = later m h in omega arith, let t = later m h in omega arith))
          (omega arith) b

    next-Ends :
        (n : ℕ) (grace : Option ℕ) (r : Reporter × Store)
        → Advances turns
        → ((r : Reporter × Store) → IsBegun q r.1 → Ends n none r)
        → IsBegun q r.1
        → Ends n grace r
    next-Ends n none r advances rest b = rest r b
    next-Ends n (some d) r advances rest b = closed-Ends n d r advances b

    open-Ends :
        (k n from : ℕ) (r : Reporter × Store)
        → Advances turns
        → ((m : ℕ) → from ≤ m → deadline < time_of (turns m))
        → from ≤ n + k
        → IsBegun q r.1
        → Ends n none r
    open-Ends zero n from r advances late near b =
        by_turn n none r b λ later next status stopping on c.
          let past = late n (omega arith) in
          let (same, left) = decide_late status deadline stopping _ none later past on in
          subst (λ g. Ends (suc n) g next) (sym same) (closed-Ends (suc n) _ next advances c)
    open-Ends (suc k) n from r advances late near b =
        by_turn n none r b λ later next status stopping on c.
          next-Ends (suc n) later next advances
            (λ x c'. open-Ends k (suc n) from x advances late (omega arith) c') c

    loop-Ends : (r : Reporter × Store) → Advances turns → IsBegun q r.1 → Ends 0 none r
    loop-Ends r advances b =
        let (from, late) = advances (suc deadline) in
        open-Ends from 0 from r advances (λ m h. let t = late m h in omega arith) (omega arith) b

  -- On a consistent store, where the times of the turns pass every bound, a `run_one` whose `begin`
  -- succeeds returns, with some fuel, the snapshot of a record in a terminal state: however the
  -- execution goes, whether or not it ends, whatever events it sends, and whatever other threads call
  -- on the store between the turns and between a turn's look at the record and its write.
  pub run_one-done :
      (status : QueryStatus) (content_ids : List QueryId) (now started : ℕ) (turns : ℕ → Turn)
      (store : Store) (epoch : ℕ)
      → IsConsistent store
      → Advances turns
      → (begin status.id now store).0 ≡ ok epoch
      → (fuel : ℕ) × (final : QueryStatus) × (after : Store) × (run_one sha256 verify directory
            status content_ids now started turns fuel store
          ≡ some (ok final, after))
        × (done final ≡ true)
  unfolding run_one
  run_one-done status content_ids now started turns store epoch c advances b =
      let start = begin-IsBegun status.id epoch now store c b in
      let one = b ∙ ap ok start.0 in
      elim (Result-cases (snapshot_paths content_ids (begin status.id now store).1)) [
        | inl (entries, e) ↦
            let (fuel, after, is, closed_after) =
              loop-Ends status.id (started + status.timeout_s * 1000) turns
                (
                  record { last_progress = 0; counts = none; written = 0; saved = 0 },
                  (begin status.id now store).1,
                )
                advances start.1 in
            let (final, got, over_then) = closed_status status.id after closed_after in
            (fuel, final, after, rw (one, run_one, e, is, got) refl, over_then)
        | inr (x, e) ↦
            let after =
              (finish status.id 1
                (failure (error_of "InvalidRequestError" "input snapshot was not uploaded")) now
                (begin status.id now store).1).1 in
            let (final, got, over_then) =
              closed_status status.id after (finish-IsClosed status.id _ now _ start.1 refl) in
            (0, final, after, rw (one, run_one, e, got) refl, over_then)
      ]
