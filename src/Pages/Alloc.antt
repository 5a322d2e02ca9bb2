-- ===== src/Pages/Alloc.antt =====
-- quail/backends/quail/executor/pages.py: `alloc`, `shared_pages`, `grow` keep the page invariant.
use quail.Prelude.{
  ℕ, ◌+◌, ◌-◌, ◌/◌, ◌≤◌, ◌<◌, ◌≡◌, false, Option, List, ◌++◌, ltb, if◌then◌else◌, Eq, length, take,
  drop, count, arith, count-append, count-take-drop,
}
use quail.Result.{ok}
use quail.Dict.{Dict, lookup, has, weigh, at, put, lookup-put, weigh-put, put-Uniq}
use quail.Pages.Pool.{
  Pool, or_default, owned_by, borrowed_by, table_pages, alloc, allocated, shared_pages,
}
use quail.Pages.Holding.{
  in_table-le-holds, IsValid, taken, in_range, tabled, in_table, add_hold-eq-count,
}

-- A page of the free list has no holder and stands there once.
free_once : (f h r n : ℕ) → f + taken h ≡ (if ltb r n then 1 else 0) → (f ≤ 1) × (0 < f → h ≡ 0)
free_once f h r n e = ground arith

abbrev pub Lends {ℓ} : {K : Type ℓ} → Pool K → List ℕ → Type 0
Lends a pages = (p : ℕ) → (count p pages ≤ 1) × (0 < count p pages → 0 < a.holds p)

module _ {ℓ} {K : Type ℓ} ⦃e : Eq K⦄ where
  absent :
      (d : Dict K (List ℕ)) (key : K) (p : ℕ) → has key d ≡ false → at (count p) (lookup key d) ≡ 0
  absent d key p h = ground arith

  module _ (a : Pool K) (key : K) (tokens need : ℕ) (borrowed : List ℕ) (v : IsValid a)
      (fresh : has key a.owned ≡ false) (lends : Lends a borrowed) (p : ℕ) where
    taken_once : count p (borrowed ++ take need a.free) ≤ 1
    taken_once =
        rw (count-append p borrowed (take need a.free))
          (ground (arith, v.placed p, lends p, count-take-drop p need a.free))

    allocated_counted :
        (allocated a key tokens need borrowed).holds p
        ≡ tabled (allocated a key tokens need borrowed) p
    unfolding allocated
    allocated_counted = omega (
      arith,
      add_hold-eq-count (borrowed ++ take need a.free) a.holds p taken_once,
      count-append p borrowed (take need a.free),
      weigh-put (count p) key borrowed a.borrowed,
      weigh-put (count p) key (take need a.free) a.owned,
      absent a.owned key p fresh,
      absent a.borrowed key p (ground (arith, v.same_keys key)),
      v.counted p,
    )

    allocated_placed :
        count p (drop need a.free) + taken ((allocated a key tokens need borrowed).holds p)
        ≡ in_range p a.num_pages
    unfolding allocated
    allocated_placed = rw (add_hold-eq-count (borrowed ++ take need a.free) a.holds p taken_once) (
        ground (
          arith,
          v.placed p,
          lends p,
          count-take-drop p need a.free,
          count-append p borrowed (take need a.free),
        ))

    allocated_distinct : (k : K) → in_table (allocated a key tokens need borrowed) k p ≤ 1
    unfolding allocated
    allocated_distinct k =
        rw (lookup-put key k borrowed a.borrowed, lookup-put key k (take need a.free) a.owned)
          (ground (arith, v.distinct k p, taken_once, count-append p borrowed (take need a.free)))

    allocated_one_writer : weigh (count p) (put key (take need a.free) a.owned) ≤ 1
    allocated_one_writer = ground (
      arith,
      weigh-put (count p) key (take need a.free) a.owned,
      absent a.owned key p fresh,
      v.placed p,
      v.counted p,
      v.one_writer p,
      count-take-drop p need a.free,
    )

  pub allocated-IsValid :
      (a : Pool K) (key : K) (tokens need : ℕ) (borrowed : List ℕ)
      → IsValid a
      → has key a.owned ≡ false
      → Lends a borrowed
      → IsValid (allocated a key tokens need borrowed)
  allocated-IsValid a key tokens need borrowed v fresh lends = record {
    positive = unfold allocated in v.positive;
    uniq_owned = unfold allocated in put-Uniq key (take need a.free) a.owned v.uniq_owned;
    uniq_borrowed = unfold allocated in put-Uniq key borrowed a.borrowed v.uniq_borrowed;
    same_keys = λ k.
        unfold allocated in
        rw (lookup-put key k borrowed a.borrowed, lookup-put key k (take need a.free) a.owned)
          (ground (arith, v.same_keys k));
    same_keys_tokens = λ k.
        unfold allocated in
        rw (lookup-put key k tokens a.tokens, lookup-put key k (take need a.free) a.owned)
          (ground (arith, v.same_keys_tokens k));
    counted = λ p. omega (arith, allocated_counted a key tokens need borrowed v fresh lends p);
    placed = λ p. unfold allocated in allocated_placed a key tokens need borrowed v fresh lends p;
    distinct = λ k p. allocated_distinct a key tokens need borrowed v fresh lends p k;
    one_writer =
        λ p. unfold allocated in allocated_one_writer a key tokens need borrowed v fresh lends p;
    once = λ p. omega arith;
  }

  -- Whatever it answers, `alloc` with pages that a resident key lends keeps the page invariant.
  pub alloc-IsValid :
      (a : Pool K) (key : K) (tokens : ℕ) (capacity_tokens : Option ℕ) (borrowed : List ℕ)
      → IsValid a
      → Lends a borrowed
      → IsValid (alloc a key tokens capacity_tokens borrowed).1
  unfolding alloc
  alloc-IsValid a key tokens capacity_tokens borrowed v lends = ground (
    arith,
    allocated-IsValid a key tokens
        (((or_default capacity_tokens tokens) + a.page_tokens - 1) / a.page_tokens
          - length borrowed)
        borrowed v,
  )

count-drop-take-le : (p m n : ℕ) (xs : List ℕ) → count p (drop m (take n xs)) ≤ count p xs
count-drop-take-le p m n xs = omega (arith, count-take-drop p m (take n xs), count-take-drop p n xs)

module _ {ℓ} {K : Type ℓ} ⦃e : Eq K⦄ where
  pub count-table_pages : (a : Pool K) (k : K) (p : ℕ) → count p (table_pages a k) ≡ in_table a k p
  unfolding table_pages
  count-table_pages a k p = rw (count-append p (borrowed_by a k) (owned_by a k)) (ground arith)

  -- In a valid pool, the pages that `shared_pages` answers may be borrowed: they are distinct and
  -- held.
  pub shared_pages-Lends :
      (a : Pool K) (parent : K) (shared start : ℕ) (pages : List ℕ)
      → IsValid a
      → shared_pages a parent shared start ≡ ok pages
      → Lends a pages
  unfolding shared_pages
  shared_pages-Lends a parent shared start pages v h p = ground (
    arith,
    count-drop-take-le p (start / a.page_tokens) (shared / a.page_tokens) (table_pages a parent),
    count-table_pages a parent p,
    in_table-le-holds v parent p,
    v.distinct parent p,
  )
