-- ===== src/Pages/RoundTrip.antt =====
-- quail/backends/quail/executor/pages.py: what `alloc` gives a key, and `free_key` after it.
use quail.Prelude.{
  ℕ, ◌+◌, ◌-◌, ◌*◌, ◌≤◌, ◌<◌, ◌≡◌, refl, ◌∙◌, true, false, Option, some, List, ◌++◌, Eq, arith,
  length, take, count, length-take, length-append,
}
use quail.Result.{ok}
use quail.Dict.{Dict, Uniq, has, put, pop, weigh, lookup-put, weigh-put, weigh-pop, put-Uniq}
use mathlib.Core.Path.{ap₂}
use quail.Pages.Pool.{Pool, pages_needed, alloc, allocated, table_pages, free_pages_of, or_default}
use quail.Pages.Holding.{IsValid, tabled}
use quail.Pages.Alloc.{Lends, allocated-IsValid}
use quail.Pages.Release.{free_pages_of-IsValid}

-- With a positive page size, `pages_needed` is the least number of pages that hold the tokens.
pub pages_needed_least {ℓ} :
    {K : Type ℓ} (a : Pool K) (tokens n : ℕ)
    → 0 < a.page_tokens
    → (tokens ≤ pages_needed a tokens * a.page_tokens)
      × (tokens ≤ n * a.page_tokens → pages_needed a tokens ≤ n)
unfolding pages_needed
pages_needed_least a tokens n h = (grind arith, λ fits. grind arith)

module _ {ℓ} {K : Type ℓ} ⦃e : Eq K⦄ where
  weigh-pop-put :
      (f : List ℕ → ℕ) (key : K) (pages : List ℕ) (d : Dict K (List ℕ))
      → Uniq d
      → has key d ≡ false
      → weigh f (pop key (put key pages d)) ≡ weigh f d
  weigh-pop-put f key pages d u fresh = ground (
    arith,
    weigh-pop f key (put key pages d) (put-Uniq key pages d u),
    weigh-put f key pages d,
    lookup-put key key pages d,
    e.same_iff key key,
  )

  same_places :
      (a b : Pool K) (p : ℕ)
      → IsValid a
      → IsValid b
      → b.num_pages ≡ a.num_pages
      → tabled b p ≡ tabled a p
      → (count p b.free ≡ count p a.free) × (b.holds p ≡ a.holds p)
  same_places a b p v w same tables =
      let same_holds : b.holds p ≡ a.holds p = omega (arith, v.counted p, w.counted p) in
      (ground (arith, v.placed p, w.placed p, same), same_holds)

  -- An `alloc` that gives pages.
  record Given (a b : Pool K) (key : K) (tokens need : ℕ) (borrowed pages : List ℕ) : Type ℓ where
    fresh : has key a.owned ≡ false
    room : need ≤ length a.free
    given : pages ≡ take need a.free
    after : b ≡ allocated a key tokens need borrowed

  alloc-Given :
      (a b : Pool K) (key : K) (tokens : ℕ) (capacity_tokens : Option ℕ) (borrowed pages : List ℕ)
      → alloc a key tokens capacity_tokens borrowed ≡ (ok (some pages), b)
      → Given a b key tokens
          (pages_needed a (or_default capacity_tokens tokens) - length borrowed)
          borrowed
          pages
  unfolding alloc
  alloc-Given a b key tokens capacity_tokens borrowed pages h = record {
    fresh = ground arith;
    room = ground arith;
    given = ground arith;
    after = ground arith;
  }

  freed_tables :
      (b : Pool K) (key : K) (p : ℕ)
      → has key b.owned ≡ true
      → ((free_pages_of b key).1.num_pages ≡ b.num_pages)
        × (tabled (free_pages_of b key).1 p
            ≡ weigh (count p) (pop key b.borrowed) + weigh (count p) (pop key b.owned))
  unfolding free_pages_of
  freed_tables b key p resident = rw resident (refl, refl)

  allocated_tables :
      (a : Pool K) (key : K) (tokens need : ℕ) (borrowed : List ℕ) (p : ℕ)
      → IsValid a
      → has key a.owned ≡ false
      → let b = allocated a key tokens need borrowed in
        (has key b.owned ≡ true)
        × (b.num_pages ≡ a.num_pages)
        × (weigh (count p) (pop key b.borrowed) + weigh (count p) (pop key b.owned) ≡ tabled a p)
  unfolding allocated
  allocated_tables a key tokens need borrowed p v fresh = (
    rw (lookup-put key key (take need a.free) a.owned) (ground (arith, e.same_iff key key)),
    refl,
    ap₂ (λ m n. m + n)
        (weigh-pop-put (count p) key borrowed a.borrowed v.uniq_borrowed
          (ground (arith, v.same_keys key)))
        (weigh-pop-put (count p) key (take need a.free) a.owned v.uniq_owned fresh),
  )

  allocated_given :
      (a : Pool K) (key : K) (tokens need : ℕ) (borrowed : List ℕ)
      → (table_pages (allocated a key tokens need borrowed) key ≡ borrowed ++ take need a.free)
  unfolding allocated table_pages
  allocated_given a key tokens need borrowed =
      rw (lookup-put key key borrowed a.borrowed, lookup-put key key (take need a.free) a.owned)
        (ground (arith, e.same_iff key key))

  -- After a key is allocated, with borrowed pages that may be lent, and then freed, every page is in
  -- the free list as often as before and has as many holders as before.
  pub free-alloc :
      (a b : Pool K) (key : K) (tokens : ℕ) (capacity_tokens : Option ℕ) (borrowed pages : List ℕ)
      → IsValid a
      → Lends a borrowed
      → alloc a key tokens capacity_tokens borrowed ≡ (ok (some pages), b)
      → (p : ℕ)
      → (count p (free_pages_of b key).1.free ≡ count p a.free)
        × ((free_pages_of b key).1.holds p ≡ a.holds p)
  free-alloc a b key tokens capacity_tokens borrowed pages v lends h p =
      let need = pages_needed a (or_default capacity_tokens tokens) - length borrowed in
      let g = alloc-Given a b key tokens capacity_tokens borrowed pages h in
      let c = allocated a key tokens need borrowed in
      let (resident, same_pages, same_tables) =
        allocated_tables a key tokens need borrowed p v g.fresh in
      let (kept, tables) = freed_tables c key p resident in
      let w =
        free_pages_of-IsValid c key
          (allocated-IsValid a key tokens need borrowed v g.fresh lends) in
      rw g.after
        (same_places a (free_pages_of c key).1 p v w (kept ∙ same_pages) (tables ∙ same_tables))

  -- In a valid pool, the table of a key that `alloc` gave pages is its borrowed pages and then the
  -- given ones, and has room for the capacity that was asked for.
  pub alloc_covers :
      (a b : Pool K) (key : K) (tokens : ℕ) (capacity_tokens : Option ℕ) (borrowed pages : List ℕ)
      → IsValid a
      → alloc a key tokens capacity_tokens borrowed ≡ (ok (some pages), b)
      → (table_pages b key ≡ borrowed ++ pages)
        × (or_default capacity_tokens tokens ≤ length (table_pages b key) * a.page_tokens)
  alloc_covers a b key tokens capacity_tokens borrowed pages v h =
      let capacity = or_default capacity_tokens tokens in
      let need = pages_needed a capacity - length borrowed in
      let g = alloc-Given a b key tokens capacity_tokens borrowed pages h in
      let table = allocated_given a key tokens need borrowed in
      let enough : pages_needed a capacity ≤ length (borrowed ++ take need a.free) =
        omega (arith, length-append borrowed (take need a.free), length-take need a.free, g.room) in
      (
        rw (g.after, g.given) table,
        rw (g.after, table) (grind (arith, (pages_needed_least a capacity 0 v.positive).0, enough)),
      )
