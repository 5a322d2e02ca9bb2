-- ===== src/KvArena/Borrowing.antt =====
-- quail/backends/quail/executor/arena.py: what queued borrowers may count on.
use quail.Prelude.{
  ℕ, ◌≤◌, ◌≡◌, refl, sym, ap, subst, ◌∙◌, true, false, ◌&&◌, ◌||◌, ◌-◌, ◌/◌, Option, none, some,
  List, [], ◌∷◌, Eq, given, given-all, if-all, arith, min, leb, leb→le, if◌then◌else◌,
}
use quail.Result.{Result, ok, err}
use quail.Dict.{lookup, has, pop, lookup-put_own, pop_absent}
use quail.Pages.Pool.{tokens_of, or_default}
use quail.Pages.Retention.{among, add, discard}
use quail.Pages.Arena.{PageArena, is_resident}
use quail.KvArena.State.{
  KvArena, M, resume, on_sliding, origin, pure, can_borrow, start_of, refresh_rows, page_tokens,
}
use quail.KvArena.Holds.{
  keep_window, trim_origin, drop_rows, release_rows, trim_to_origin, trim_window, lift_floor,
  is_kept, free_key, release_hold, release,
}

module _ {K : Type 0} ⦃e : Eq K⦄ where
  discard_absent : (key : K) (keys : List K) → among key keys ≡ false → discard key keys ≡ keys
  unfolding discard
  discard_absent key [] h = refl
  discard_absent key (k ∷ keys) h = ground (arith, discard_absent key keys)

  discard-add :
      (key : K) (keys : List K) → among key keys ≡ false → discard key (add key keys) ≡ keys
  unfolding add
  discard-add key keys h =
      rw h (unfold discard in ground (arith, e.same_iff key key, discard_absent key keys))

  among-add_own :
      (key : K) (keys : List K) → among key keys ≡ false → among key (add key keys) ≡ true
  unfolding add
  among-add_own key keys h = rw h (ground (arith, e.same_iff key key))

module _ {K P : Type 0} ⦃e : Eq K⦄ where
  resume_done :
      {A : Type 0} (r : Result A × KvArena K P) → (resume r (λ _. pure {A = Unit {0}} tt)).1 ≡ r.1
  resume_done (ok x, t) = refl
  resume_done (err x, t) = refl

  -- A held key that is freed waits.
  freed_held :
      (key : K) (s : KvArena K P)
      → is_kept s key ≡ true
      → (free_key key s).1 ≡ record s { deferred = add key s.deferred }
  unfolding free_key
  freed_held key s kept = rw kept

  last_hold :
      (key : K) (s : KvArena K P) → lookup key s.holds ≡ some 1 → release key s ≡ release_hold key s
  unfolding release
  last_hold key s held = rw held

  waited :
      (key : K) (s : KvArena K P)
      → has key s.holds ≡ true
      → among key s.deferred ≡ true
      → (release_hold key s).1
        ≡ (free_key key (record s { holds = pop key s.holds; deferred = discard key s.deferred })).1
  unfolding release_hold
  waited key s held late = rw (held, late) (resume_done _)

  unwaited :
      (key : K) (s : KvArena K P)
      → has key s.holds ≡ true
      → among key s.deferred ≡ false
      → lookup key s.window_floor ≡ none
      → (release_hold key s).1 ≡ record s { holds = pop key s.holds }
  unfolding release_hold lift_floor
  unwaited key s held early low = rw (held, early, low) (rw (pop_absent key s.window_floor low))

  -- Freeing a key that is held once, and then releasing the hold, leaves the arena as releasing the
  -- hold first and then freeing the key does, whether or not a reader has the key, where its freeing
  -- does not wait already and no row of its window is kept for a borrower.
  pub release-free_key :
      (key : K) (s : KvArena K P)
      → lookup key s.holds ≡ some 1
      → among key s.deferred ≡ false
      → lookup key s.window_floor ≡ none
      → (release key (free_key key s).1).1 ≡ (free_key key (release key s).1).1
  release-free_key key s held early low =
      let holds : has key s.holds ≡ true = rw held in
      let late : KvArena K P = record s { deferred = add key s.deferred } in
      let gone : KvArena K P = record s { holds = pop key s.holds } in
      ap (λ t. (release key t).1) (freed_held key s (ap (λ b. b || has key s.reading) holds))
      ∙ ap (λ r. r.1) (last_hold key late held)
      ∙ waited key late holds (among-add_own key s.deferred early)
      ∙ ap (λ d. (free_key key (record gone { deferred = d })).1) (discard-add key s.deferred early)
      ∙ ap (λ t. (free_key key t).1)
          (sym (ap (λ r. r.1) (last_hold key s held) ∙ unwaited key s holds early low))

  -- What lending a prefix asks of a parent.
  borrow_intro :
      (parent : K) (shared : ℕ) (s : KvArena K P)
      → (is_resident s.accounting parent
          && leb shared (tokens_of (lookup parent s.accounting.pool.tokens)))
        ≡ true
      → ((b : PageArena K P) → s.sliding ≡ some b → start_of s parent ≤ origin s shared)
      → can_borrow s parent shared ≡ true
  unfolding can_borrow
  borrow_intro parent shared s full low = rw full (
      given-all (λ r. r ≡ true) s.sliding true _ (λ _. refl)
        (λ b there. ground (arith, low b there)))

  borrow_full :
      (parent : K) (shared : ℕ) (s : KvArena K P)
      → can_borrow s parent shared ≡ true
      → (is_resident s.accounting parent
          && leb shared (tokens_of (lookup parent s.accounting.pool.tokens)))
        ≡ true
  unfolding can_borrow
  borrow_full parent shared s may = ground arith

  borrow_low :
      (parent : K) (shared : ℕ) (s : KvArena K P) (b : PageArena K P)
      → can_borrow s parent shared ≡ true
      → s.sliding ≡ some b
      → start_of s parent ≤ origin s shared
  unfolding can_borrow
  borrow_low parent shared s b may there =
      let open_pool : (if is_resident s.accounting parent
              && leb shared (tokens_of (lookup parent s.accounting.pool.tokens))
            then given s.sliding true (λ c. leb (start_of s parent) (origin s shared))
            else false)
          ≡ true =
        may in
      let at_pool =
        subst
          (λ (pool : Option (PageArena K P)).
            (if is_resident s.accounting parent
                && leb shared (tokens_of (lookup parent s.accounting.pool.tokens))
              then given pool true (λ c. leb (start_of s parent) (origin s shared))
              else false)
            ≡ true)
          there open_pool in
      leb→le (start_of s parent) (origin s shared) (ground arith)

  -- The states that a trim of the parent passes through: nothing that lending asks for has changed
  -- but the start of the sliding rows, which is low enough.
  record Lends (parent : K) (shared : ℕ) (s t : KvArena K P) : Type 0 where
    accounting : t.accounting ≡ s.accounting
    window : t.window ≡ s.window
    low : start_of t parent ≤ origin s shared

  same_origin :
      (shared : ℕ) (s t : KvArena K P)
      → t.accounting ≡ s.accounting
      → t.window ≡ s.window
      → origin t shared ≡ origin s shared
  unfolding origin
  same_origin shared s t full window =
      rw (window, ap (λ (a : PageArena K P). a.pool.page_tokens) full) refl

  Lends-can_borrow :
      (parent : K) (shared : ℕ) (s t : KvArena K P)
      → can_borrow s parent shared ≡ true
      → Lends parent shared s t
      → can_borrow t parent shared ≡ true
  Lends-can_borrow parent shared s t may lends =
      borrow_intro parent shared t
        (ap
            (λ (a : PageArena K P).
              is_resident a parent && leb shared (tokens_of (lookup parent a.pool.tokens)))
            lends.accounting
          ∙ borrow_full parent shared s may)
        (λ b there.
          subst (λ row. start_of t parent ≤ row)
            (sym (same_origin shared s t lends.accounting lends.window)) lends.low)

  release_rows-Lends :
      (parent : K) (shared start first : ℕ) (s t : KvArena K P)
      → Lends parent shared s t
      → first ≤ origin s shared
      → Lends parent shared s (release_rows parent start first t).1
  unfolding release_rows refresh_rows
  release_rows-Lends parent shared start first s t lends low =
      dropped-Lends parent shared first s
        (on_sliding 0 (drop_rows parent ((first - start) / page_tokens t) (first - start)) t) _
        (given-all (λ (r : Result ℕ × KvArena K P). Lends parent shared s r.1) t.sliding _ _
          (λ _. lends)
          (λ b _. record { accounting = lends.accounting; window = lends.window; low = lends.low }))
        (λ n u w. record {
          accounting = w.accounting;
          window = w.window;
          low = rw (lookup-put_own parent first u.sliding_start) low;
        })
    where
      dropped-Lends :
          (parent : K) (shared first : ℕ) (s : KvArena K P) (r : Result ℕ × KvArena K P)
          (f : ℕ → M K P ℕ)
          → Lends parent shared s r.1
          → ((n : ℕ) (u : KvArena K P) → Lends parent shared s u → Lends parent shared s (f n u).1)
          → Lends parent shared s (resume r f).1
      dropped-Lends parent shared first s (ok n, u) f w h = h n u w
      dropped-Lends parent shared first s (err x, u) f w h = w

  trim_to_origin-Lends :
      (parent : K) (shared : ℕ) (base : Option ℕ) (s t : KvArena K P)
      → Lends parent shared s t
      → ((tokens : ℕ) → trim_origin t parent tokens ≤ origin s shared)
      → Lends parent shared s (trim_to_origin parent base t).1
  unfolding trim_to_origin
  trim_to_origin-Lends parent shared none s t lends low = lends
  trim_to_origin-Lends parent shared (some tokens) s t lends low =
      if-all (λ (r : Result ℕ × KvArena K P). Lends parent shared s r.1)
        (leb (trim_origin t parent tokens) (start_of t parent)) _ _ (λ _. lends)
        (λ _. release_rows-Lends parent shared _ _ s t lends (low tokens))

  -- The row that is kept for the borrower bounds every trim.
  kept_row :
      (parent : K) (shared tokens : ℕ) (s : KvArena K P)
      → trim_origin (keep_window parent shared s) parent tokens ≤ origin s shared
  unfolding trim_origin keep_window
  kept_row parent shared tokens s =
      rw
        (lookup-put_own parent
          (min (or_default (lookup parent s.window_floor) (origin s shared)) (origin s shared))
          s.window_floor)
        (omega arith)

  -- A parent that may lend a prefix still may after `keep_window` for the prefix and a trim of its
  -- window, whether the trim releases pages, finds nothing to release or raises.
  pub trim_window-can_borrow :
      (parent : K) (shared : ℕ) (s : KvArena K P)
      → can_borrow s parent shared ≡ true
      → can_borrow (trim_window parent (keep_window parent shared s)).1 parent shared ≡ true
  unfolding trim_window keep_window trim_origin
  trim_window-can_borrow parent shared s may =
      let kept = keep_window parent shared s in
      let trimmed : KvArena K P = record kept { trimmed = add parent kept.trimmed } in
      given-all (λ (r : Result ℕ × KvArena K P). can_borrow r.1 parent shared ≡ true) s.sliding
        (ok 0, kept) (λ b. trim_to_origin parent (lookup parent s.base) trimmed)
        (λ absent.
          borrow_intro parent shared kept (borrow_full parent shared s may)
            (λ b there. absurd (cc (absent, there))))
        (λ b there. Lends-can_borrow parent shared s _ may (
          trim_to_origin-Lends parent shared (lookup parent s.base) s trimmed
            (record {
              accounting = refl;
              window = refl;
              low = borrow_low parent shared s b may there;
            })
            (λ tokens. kept_row parent shared tokens s)))
