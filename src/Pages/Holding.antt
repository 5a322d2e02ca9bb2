-- ===== src/Pages/Holding.antt =====
-- The page invariant of the arena: where each page is, and how often it is held.
use quail.Prelude.{
  ℕ, zero, suc, ◌+◌, ◌≤◌, ◌<◌, ◌≡◌, refl, List, [], ◌∷◌, ◌++◌, reverse, ltb, ◌==◌, if◌then◌else◌,
  Eq, keep_if, count, arith, count-append, count-reverse, count-keep_if, member-count,
}
use quail.Dict.{Dict, lookup, has, Uniq, weigh, at}
use quail.Pages.Pool.{Pool, init, count_up, add_hold, drop_hold, release_pages}

-- 1 for the page ids of the arena.
abbrev pub in_range : ℕ → ℕ → ℕ
in_range p n = if ltb p n then 1 else 0

-- 1 for a page with a holder.
abbrev pub taken : ℕ → ℕ
taken h = if h == 0 then 0 else 1

module _ {ℓ} {K : Type ℓ} ⦃e : Eq K⦄ where
  -- The tables that name a page.
  abbrev pub tabled : Pool K → ℕ → ℕ
  tabled a p = weigh (count p) a.borrowed + weigh (count p) a.owned

  abbrev pub in_table : Pool K → K → ℕ → ℕ
  in_table a key p = at (count p) (lookup key a.borrowed) + at (count p) (lookup key a.owned)

  -- The arena while its caller holds `pages` beside the tables: a page is free, or has as many
  -- holders as tables and the caller name it; no table names a page twice; no page has two writers.
  pub record Holding (pages : List ℕ) (a : Pool K) : Type ℓ where
    pub positive : 0 < a.page_tokens
    pub uniq_owned : Uniq a.owned
    pub uniq_borrowed : Uniq a.borrowed
    pub same_keys : (k : K) → has k a.borrowed ≡ has k a.owned
    pub same_keys_tokens : (k : K) → has k a.tokens ≡ has k a.owned
    pub counted : (p : ℕ) → a.holds p ≡ tabled a p + count p pages
    pub placed : (p : ℕ) → count p a.free + taken (a.holds p) ≡ in_range p a.num_pages
    pub distinct : (k : K) (p : ℕ) → in_table a k p ≤ 1
    pub one_writer : (p : ℕ) → weigh (count p) a.owned ≤ 1
    pub once : (p : ℕ) → count p pages ≤ 1

  abbrev pub IsValid : Pool K → Type ℓ
  IsValid a = Holding [] a

-- `numpy` changes each page that an index names once, so an index without repeats counts.
pub add_hold-eq-count :
    (pages : List ℕ) (holds : ℕ → ℕ) (p : ℕ)
    → count p pages ≤ 1
    → add_hold pages holds p ≡ holds p + count p pages
unfolding add_hold
add_hold-eq-count pages holds p h = ground (arith, member-count p pages)

pub drop_hold-add-count :
    (pages : List ℕ) (holds : ℕ → ℕ) (p : ℕ)
    → count p pages ≤ 1
    → count p pages ≤ holds p
    → drop_hold pages holds p + count p pages ≡ holds p
unfolding drop_hold
drop_hold-add-count pages holds p h k = ground (arith, member-count p pages)

-- A page without another holder comes back to the free list, any other does not.
freed_placed :
    (h h' c f r : ℕ)
    → h' + c ≡ h
    → c ≤ 1
    → f + taken h ≡ r
    → ((if h' == 0 then c else 0) + f) + taken h' ≡ r
freed_placed h h' c f r d k e = ground arith

count-freed :
    (holds : ℕ → ℕ) (pages free : List ℕ) (p : ℕ)
    → count p (reverse (keep_if (λ q. holds q == 0) pages) ++ free)
      ≡ (if holds p == 0 then count p pages else 0) + count p free
count-freed holds pages free p = rw (
  count-append p (reverse (keep_if (λ q. holds q == 0) pages)) free,
  count-reverse p (keep_if (λ q. holds q == 0) pages),
  count-keep_if p (λ q. holds q == 0) pages,
)

module _ {ℓ} {K : Type ℓ} ⦃e : Eq K⦄ where
  -- Dropping what the caller holds gives back exactly the pages with no other holder.
  pub release_pages-IsValid :
      (a : Pool K) (pages : List ℕ) → Holding pages a → IsValid (release_pages a pages).1
  unfolding release_pages
  release_pages-IsValid a pages v = record {
    positive = v.positive;
    uniq_owned = v.uniq_owned;
    uniq_borrowed = v.uniq_borrowed;
    same_keys = v.same_keys;
    same_keys_tokens = v.same_keys_tokens;
    counted = λ p. omega (
      arith,
      drop_hold-add-count pages a.holds p (v.once p) (omega (arith, v.counted p)),
      v.counted p,
    );
    placed = λ p. rw (count-freed (drop_hold pages a.holds) pages a.free p) (
        freed_placed (a.holds p) (drop_hold pages a.holds p) (count p pages) (count p a.free)
          (in_range p a.num_pages)
          (drop_hold-add-count pages a.holds p (v.once p) (omega (arith, v.counted p))) (v.once p)
          (v.placed p));
    distinct = v.distinct;
    one_writer = v.one_writer;
    once = λ p. omega arith;
  }

module _ {ℓ} {K : Type ℓ} ⦃e : Eq K⦄ where
  at-le-weigh : (f : List ℕ → ℕ) (k : K) (d : Dict K (List ℕ)) → at f (lookup k d) ≤ weigh f d
  unfolding lookup weigh
  at-le-weigh f k [] = omega arith
  at-le-weigh f k ((j, w) ∷ d) = ground (arith, at-le-weigh f k d)

  pub in_table-le-holds : {a : Pool K} → IsValid a → (k : K) (p : ℕ) → in_table a k p ≤ a.holds p
  in_table-le-holds {a} v k p =
      omega
        (arith, v.counted p, at-le-weigh (count p) k a.borrowed, at-le-weigh (count p) k a.owned)

pub count-count_up :
    (p n first : ℕ)
    → count p (count_up n first) ≡ (if ltb p first then 0 else if ltb p (first + n) then 1 else 0)
unfolding count_up
count-count_up p zero first = ground arith
count-count_up p (suc n) first = ground (arith, count-count_up p n (first + 1))

-- A new arena is valid.
pub init-IsValid {ℓ} :
    {K : Type ℓ} ⦃e : Eq K⦄ (num_pages page_tokens : ℕ)
    → 0 < page_tokens
    → IsValid (init {K = K} num_pages page_tokens)
unfolding init weigh lookup
init-IsValid num_pages page_tokens h = record {
  positive = h;
  uniq_owned = tt;
  uniq_borrowed = tt;
  same_keys = λ k. refl;
  same_keys_tokens = λ k. refl;
  counted = λ p. omega arith;
  placed = λ p. ground (arith, count-count_up p num_pages 0);
  distinct = λ k p. omega arith;
  one_writer = λ p. omega arith;
  once = λ p. omega arith;
}
