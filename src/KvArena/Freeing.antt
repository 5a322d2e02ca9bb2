-- ===== src/KvArena/Freeing.antt =====
-- quail/backends/quail/executor/arena.py: trimming and freeing keep the invariant.
use quail.Prelude.{ℕ, ◌-◌, ◌/◌, ◌≡◌, refl, true, false, ◌&&◌, Option, none, some, Eq, arith, leb}
use quail.Result.{Result, ok, err}
use quail.Dict.{Dict, has, put, pop, lookup-put, lookup-pop}
use quail.Pages.Pool
use quail.Pages.Pool.{tokens_of}
use quail.Pages.Release.{drop_leading-IsValid}
use quail.Pages.Resident.{drop_leading_resident}
use quail.Pages.Retention.{among}
use quail.Pages.Tracking.{among-add}
use quail.Pages.Arena
use quail.Pages.Arena.{PageArena, is_resident}
use quail.Pages.Sound
use quail.Pages.Sound.{pool-IsSound, free_key-IsSound}
use quail.KvArena.State.{resume, on_sliding, page_tokens, start_of}
use quail.KvArena.Holds.{
  fewer_tokens, drop_rows, release_rows, trim_to_origin, trim_window, lift_floor, forget_rows,
  is_kept, free_now, free_key, trim_origin,
}
use quail.KvArena.Sound.{
  IsSound, Keeps, bind-Keeps, on_full-Keeps, on_sliding-Keeps, refresh_rows-IsSound, if-IsSound,
  given-IsSound,
}

drop_leading-ok :
    {K : Type 0} ⦃e : Eq K⦄ (pool : Pool.Pool K) (key : K) (pages n : ℕ)
    → (Pool.drop_leading pool key pages).0 ≡ ok n
    → has key pool.owned ≡ true
unfolding Pool.drop_leading
drop_leading-ok pool key pages n h = ground arith

module _ {K : Type 0} ⦃e : Eq K⦄ where
  pub pop_other : (key k : K) (d : Dict K ℕ) → e.same key k ≡ false → has k (pop key d) ≡ has k d
  pop_other key k d other = ground (arith, lookup-pop key k d)

  pub put_other :
      (key k : K) (n : ℕ) (d : Dict K ℕ) → e.same key k ≡ false → has k (put key n d) ≡ has k d
  put_other key k n d other = ground (arith, lookup-put key k n d)

module _ {K P : Type 0} ⦃e : Eq K⦄ where
  -- A write to the tokens of a resident key.
  pub tokens-IsSound :
      (key : K) (n : ℕ) (a : PageArena K P)
      → is_resident a key ≡ true
      → Sound.IsSound a
      → Sound.IsSound (record a { pool = record a.pool { tokens = put key n a.pool.tokens } })
  tokens-IsSound key n a resident v =
      pool-IsSound a _ v
        (record {
          positive = v.pages.positive;
          uniq_owned = v.pages.uniq_owned;
          uniq_borrowed = v.pages.uniq_borrowed;
          same_keys = v.pages.same_keys;
          same_keys_tokens = λ k. ground (
            arith,
            lookup-put key k n a.pool.tokens,
            v.pages.same_keys_tokens k,
            e.same_iff key k,
          );
          counted = v.pages.counted;
          placed = v.pages.placed;
          distinct = v.pages.distinct;
          one_writer = v.pages.one_writer;
          once = v.pages.once;
        })
        (λ k h. h)

  -- A write to the tokens after a page operation that succeeds for a resident key only.
  fewer-IsSound :
      (key : K) (rows : ℕ) (a : PageArena K P) (r : Result ℕ × Pool.Pool K)
      → Sound.IsSound (record a { pool = r.1 })
      → ((n : ℕ) → r.0 ≡ ok n → has key r.1.owned ≡ true)
      → Sound.IsSound
          (resume (r.0, record a { pool = r.1 }) λ n b. (ok n, fewer_tokens key rows b)).1
  fewer-IsSound key rows a (ok n, pool) v h = tokens-IsSound key _ _ (h n refl) v
  fewer-IsSound key rows a (err x, pool) v h = v

  drop_rows-IsSound :
      (key : K) (pages rows : ℕ) (a : PageArena K P)
      → Sound.IsSound a
      → Sound.IsSound (drop_rows key pages rows a).1
  drop_rows-IsSound key pages rows a v =
      fewer-IsSound key rows a (Pool.drop_leading a.pool key pages)
        (pool-IsSound a _ v (drop_leading-IsValid a.pool key pages v.pages)
          (λ k h. drop_leading_resident a.pool key k h pages))
        (λ n h. drop_leading_resident a.pool key key (drop_leading-ok a.pool key pages n h) pages)

  pub release_rows-Keeps :
      (key : K) (start first : ℕ) → Keeps (release_rows {P = P} key start first)
  unfolding release_rows
  release_rows-Keeps key start first s v =
      bind-Keeps (on_sliding 0 (drop_rows key ((first - start) / page_tokens s) (first - start))) _
        (on_sliding-Keeps _ _ (drop_rows-IsSound key _ _))
        (λ _ s' w. refresh_rows-IsSound key none _ (record { parts = w.parts })) s v

  trim_to_origin-Keeps : (key : K) (base : Option ℕ) → Keeps (trim_to_origin {P = P} key base)
  unfolding trim_to_origin
  trim_to_origin-Keeps key none s v = v
  trim_to_origin-Keeps key (some base) s v =
      if-IsSound (leb (trim_origin s key base) (start_of s key)) _ _ (λ _. v)
        (λ _. release_rows-Keeps key _ _ s v)

  pub trim_window-Keeps : (key : K) → Keeps (trim_window {P = P} key)
  unfolding trim_window
  trim_window-Keeps key s v =
      given-IsSound s.sliding _ _ (λ _. v)
        (λ b _. trim_to_origin-Keeps key _ _ (record { parts = v.parts }))

  pub lift_floor-Keeps : (key : K) → Keeps (lift_floor {P = P} key)
  unfolding lift_floor
  lift_floor-Keeps key s v =
      let w : IsSound (record s { window_floor = pop key s.window_floor }) = record {
        parts = v.parts;
      } in
      if-IsSound (has key s.window_floor && among key s.trimmed) _ _
        (λ _. bind-Keeps (trim_window key) _ (trim_window-Keeps key) (λ _ t u. u) _ w) (λ _. w)

  free_now-Keeps : (key : K) → Keeps (free_now {P = P} key)
  unfolding free_now forget_rows
  free_now-Keeps key s v =
      if-IsSound (has key s.rows) _ _
        (λ _.
          bind-Keeps (on_sliding 0 (λ b. Arena.free_key b key)) _
            (on_sliding-Keeps _ _ (λ b. free_key-IsSound b key))
            (λ _. on_full-Keeps (λ a. Arena.free_key a key) (λ a. free_key-IsSound a key)) _
            (record { parts = v.parts }))
        (λ _. record { parts = v.parts })

  pub free_key-Keeps : (key : K) → Keeps (free_key {P = P} key)
  unfolding free_key
  free_key-Keeps key s v =
      if-IsSound (is_kept s key) _ _
        (λ kept. record {
          parts = record {
            full_pool = v.parts.full_pool;
            sliding_pool = v.parts.sliding_pool;
            waiting = λ k h.
                ground
                  (arith, among-add key k s.deferred, v.parts.waiting k, e.same_iff key k, kept);
            held = v.parts.held;
            read = v.parts.read;
          };
        })
        (λ _. free_now-Keeps key s v)
