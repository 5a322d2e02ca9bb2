-- ===== src/Pages/Release.antt =====
-- quail/backends/quail/executor/pages.py: `drop_leading`, `rewind` and `free_key` keep the page
-- invariant, and answer by how much the free list grows.
use quail.Prelude.{
  ℕ, ◌+◌, ◌-◌, ◌/◌, ◌≤◌, ◌≡◌, refl, true, List, ◌++◌, Eq, length, take, drop, count, arith,
  count-append, count-take-drop, Bool-cases, inl, inr, min,
}
use quail.Dict.{
  has, Uniq, weigh, put, pop, lookup-put, lookup-pop, weigh-put, weigh-pop, put-Uniq, pop-Uniq,
}
use quail.Pages.Pool.{
  Pool, owned_by, borrowed_by, release_pages, drop_leading, rewind_pages, free_pages_of,
}
use quail.Pages.Holding.{Holding, IsValid, tabled, in_table, release_pages-IsValid}

module _ {ℓ} {K : Type ℓ} ⦃e : Eq K⦄ where
  -- `b` is `a` with some pages taken out of one key's tables and kept by the caller.
  record Cut (pages : List ℕ) (a b : Pool K) : Type ℓ where
    keeps :
        (b.page_tokens ≡ a.page_tokens)
        × (b.num_pages ≡ a.num_pages)
        × (b.free ≡ a.free)
        × (b.holds ≡ a.holds)
    uniq_owned : Uniq b.owned
    uniq_borrowed : Uniq b.borrowed
    same_keys : (k : K) → has k b.borrowed ≡ has k b.owned
    same_keys_tokens : (k : K) → has k b.tokens ≡ has k b.owned
    weighs : (p : ℕ) → tabled b p + count p pages ≡ tabled a p
    writes : (p : ℕ) → weigh (count p) b.owned ≤ weigh (count p) a.owned
    shrinks : (k : K) (p : ℕ) → in_table b k p ≤ in_table a k p
    once : (p : ℕ) → count p pages ≤ 1

  Cut-Holding : {pages : List ℕ} {a b : Pool K} → IsValid a → Cut pages a b → Holding pages b
  Cut-Holding {pages} {a} {b} v c = record {
    positive = rw c.keeps.0 v.positive;
    uniq_owned = c.uniq_owned;
    uniq_borrowed = c.uniq_borrowed;
    same_keys = c.same_keys;
    same_keys_tokens = c.same_keys_tokens;
    counted = λ p. rw c.keeps.3 (omega (arith, v.counted p, c.weighs p));
    placed = λ p. rw (c.keeps.2, c.keeps.3, c.keeps.1) (v.placed p);
    distinct = λ k p. omega (arith, c.shrinks k p, v.distinct k p);
    one_writer = λ p. omega (arith, c.writes p, v.one_writer p);
    once = c.once;
  }

  Cut-IsValid :
      {pages : List ℕ} {a b : Pool K}
      → IsValid a
      → Cut pages a b
      → IsValid (release_pages b pages).1
  Cut-IsValid {pages} {a} {b} v c = release_pages-IsValid b pages (Cut-Holding v c)

  -- `free_key` before the pages are released.
  popped-Cut :
      (a : Pool K) (key : K)
      → IsValid a
      → Cut (borrowed_by a key ++ owned_by a key) a (record a {
        owned = pop key a.owned;
        borrowed = pop key a.borrowed;
        tokens = pop key a.tokens;
      })
  popped-Cut a key v = record {
    keeps = (refl, refl, refl, refl);
    uniq_owned = pop-Uniq key a.owned v.uniq_owned;
    uniq_borrowed = pop-Uniq key a.borrowed v.uniq_borrowed;
    same_keys = λ k.
        rw (lookup-pop key k a.borrowed, lookup-pop key k a.owned) (ground (arith, v.same_keys k));
    same_keys_tokens = λ k.
        rw (lookup-pop key k a.tokens, lookup-pop key k a.owned)
          (ground (arith, v.same_keys_tokens k));
    weighs = λ p. ground (
      arith,
      weigh-pop (count p) key a.owned v.uniq_owned,
      weigh-pop (count p) key a.borrowed v.uniq_borrowed,
      count-append p (borrowed_by a key) (owned_by a key),
    );
    writes = λ p. omega (arith, weigh-pop (count p) key a.owned v.uniq_owned);
    shrinks = λ k p. rw (lookup-pop key k a.borrowed, lookup-pop key k a.owned) (ground arith);
    once =
        λ p. ground (arith, v.distinct key p, count-append p (borrowed_by a key) (owned_by a key));
  }

  -- `free_key` keeps the page invariant.
  pub free_pages_of-IsValid : (a : Pool K) (key : K) → IsValid a → IsValid (free_pages_of a key).1
  unfolding free_pages_of
  free_pages_of-IsValid a key v = ground (arith, Cut-IsValid v (popped-Cut a key v))

  -- `drop_leading` before the pages are released.
  leading-Cut :
      (a : Pool K) (key : K) (m n : ℕ)
      → IsValid a
      → has key a.owned ≡ true
      → Cut (take m (borrowed_by a key) ++ take n (owned_by a key)) a (record a {
        borrowed = put key (drop m (borrowed_by a key)) a.borrowed;
        owned = put key (drop n (owned_by a key)) a.owned;
      })
  leading-Cut a key m n v resident = record {
    keeps = (refl, refl, refl, refl);
    uniq_owned = put-Uniq key _ a.owned v.uniq_owned;
    uniq_borrowed = put-Uniq key _ a.borrowed v.uniq_borrowed;
    same_keys = λ k.
        rw
          (
            lookup-put key k (drop m (borrowed_by a key)) a.borrowed,
            lookup-put key k (drop n (owned_by a key)) a.owned,
          )
          (ground (arith, v.same_keys k));
    same_keys_tokens = λ k.
        rw (lookup-put key k (drop n (owned_by a key)) a.owned)
          (ground (arith, e.same_iff key k, v.same_keys_tokens k));
    weighs = λ p. ground (
      arith,
      weigh-put (count p) key (drop m (borrowed_by a key)) a.borrowed,
      weigh-put (count p) key (drop n (owned_by a key)) a.owned,
      count-take-drop p m (borrowed_by a key),
      count-take-drop p n (owned_by a key),
      count-append p (take m (borrowed_by a key)) (take n (owned_by a key)),
    );
    writes = λ p. ground (
      arith,
      weigh-put (count p) key (drop n (owned_by a key)) a.owned,
      count-take-drop p n (owned_by a key),
    );
    shrinks = λ k p.
        rw
          (
            lookup-put key k (drop m (borrowed_by a key)) a.borrowed,
            lookup-put key k (drop n (owned_by a key)) a.owned,
          )
          (ground (
            arith,
            e.same_iff key k,
            count-take-drop p m (borrowed_by a key),
            count-take-drop p n (owned_by a key),
          ));
    once = λ p. ground (
      arith,
      v.distinct key p,
      count-take-drop p m (borrowed_by a key),
      count-take-drop p n (owned_by a key),
      count-append p (take m (borrowed_by a key)) (take n (owned_by a key)),
    );
  }

  -- `drop_leading` keeps the page invariant.
  pub drop_leading-IsValid :
      (a : Pool K) (key : K) (pages : ℕ) → IsValid a → IsValid (drop_leading a key pages).1
  unfolding drop_leading
  drop_leading-IsValid a key pages v = elim (Bool-cases (has key a.owned)) [
    | inl resident ↦
        let m = min pages (length (borrowed_by a key)) in
        rw resident (Cut-IsValid v (leading-Cut a key m (pages - m) v resident))
    | inr missing ↦ rw missing v
  ]

  -- `rewind` before the pages are released.
  rewound-Cut :
      (a : Pool K) (key : K) (tokens n : ℕ)
      → IsValid a
      → has key a.owned ≡ true
      → Cut (drop n (owned_by a key)) a (record a {
        owned = put key (take n (owned_by a key)) a.owned;
        tokens = put key tokens a.tokens;
      })
  rewound-Cut a key tokens n v resident = record {
    keeps = (refl, refl, refl, refl);
    uniq_owned = put-Uniq key _ a.owned v.uniq_owned;
    uniq_borrowed = v.uniq_borrowed;
    same_keys = λ k.
        rw (lookup-put key k (take n (owned_by a key)) a.owned)
          (ground (arith, e.same_iff key k, v.same_keys k));
    same_keys_tokens = λ k.
        rw (lookup-put key k tokens a.tokens, lookup-put key k (take n (owned_by a key)) a.owned)
          (ground (arith, v.same_keys_tokens k));
    weighs = λ p. ground (
      arith,
      weigh-put (count p) key (take n (owned_by a key)) a.owned,
      count-take-drop p n (owned_by a key),
    );
    writes = λ p. ground (
      arith,
      weigh-put (count p) key (take n (owned_by a key)) a.owned,
      count-take-drop p n (owned_by a key),
    );
    shrinks = λ k p.
        rw (lookup-put key k (take n (owned_by a key)) a.owned)
          (ground (arith, e.same_iff key k, count-take-drop p n (owned_by a key)));
    once = λ p. ground (arith, v.distinct key p, count-take-drop p n (owned_by a key));
  }

  -- `rewind` keeps the page invariant.
  pub rewind_pages-IsValid :
      (a : Pool K) (key : K) (tokens : ℕ) → IsValid a → IsValid (rewind_pages a key tokens).1
  unfolding rewind_pages
  rewind_pages-IsValid a key tokens v = elim (Bool-cases (has key a.owned)) [
    | inl resident ↦ rw resident (
        ground (
          arith,
          Cut-IsValid v (
              rewound-Cut a key tokens
                ((tokens + a.page_tokens - 1) / a.page_tokens - length (borrowed_by a key)) v
                resident),
        ))
    | inr missing ↦ rw missing v
  ]
