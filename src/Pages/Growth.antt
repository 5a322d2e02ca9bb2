-- ===== src/Pages/Growth.antt =====
-- quail/backends/quail/executor/pages.py: `grow`, `grow_pages` keep the page invariant.
use quail.Prelude.{
  ℕ, ◌+◌, ◌-◌, ◌/◌, ◌≤◌, ◌≡◌, refl, ◌∙◌, true, none, some, List, [], ◌∷◌, ◌++◌, ltb, if◌then◌else◌,
  Eq, length, take, drop, count, arith, count-append, count-take-drop, Bool-cases, Option-cases,
  inl, inr, length-take,
}
use quail.Result.{ok}
use quail.Dict.{Dict, lookup, has, Uniq, weigh, at, put, lookup-put, weigh-put, put-Uniq}
use quail.Pages.Pool.{Pool, add_hold, owned_by, borrowed_by, grow, grown, append_each, grow_pages}
use quail.Pages.Holding.{in_table-le-holds, IsValid, taken, in_range, in_table, add_hold-eq-count}

module _ {ℓ} {K : Type ℓ} ⦃e : Eq K⦄ where
  -- `n` pages of the free list are spread over the page lists of resident keys.
  pub record Spread (n : ℕ) (a b : Pool K) : Type ℓ where
    pub keeps :
        (b.page_tokens ≡ a.page_tokens)
        × (b.num_pages ≡ a.num_pages)
        × (b.borrowed ≡ a.borrowed)
        × (b.tokens ≡ a.tokens)
    pub free : b.free ≡ drop n a.free
    pub holds : (p : ℕ) → b.holds p ≡ add_hold (take n a.free) a.holds p
    pub uniq : Uniq b.owned
    pub same_keys : (k : K) → has k b.owned ≡ has k a.owned
    pub weighs :
        (p : ℕ) → weigh (count p) b.owned ≡ weigh (count p) a.owned + count p (take n a.free)
    pub grows :
        (k : K) (p : ℕ)
        → at (count p) (lookup k b.owned)
          ≤ at (count p) (lookup k a.owned) + count p (take n a.free)

  module _ {n : ℕ} {a b : Pool K} (v : IsValid a) (s : Spread n a b) (p : ℕ) where
    spread_once : count p (take n a.free) ≤ 1
    spread_once = ground (arith, v.placed p, count-take-drop p n a.free)

    spread_holds : b.holds p ≡ a.holds p + count p (take n a.free)
    spread_holds = s.holds p ∙ add_hold-eq-count (take n a.free) a.holds p spread_once

    spread_placed : count p b.free + taken (b.holds p) ≡ in_range p b.num_pages
    spread_placed =
        rw (s.free, s.keeps.1, spread_holds)
          (ground (arith, v.placed p, count-take-drop p n a.free))

    spread_distinct : (k : K) → in_table b k p ≤ 1
    spread_distinct k = rw s.keeps.2 (
        ground (
          arith,
          s.grows k p,
          v.distinct k p,
          in_table-le-holds v k p,
          v.placed p,
          count-take-drop p n a.free,
        ))

    spread_one_writer : weigh (count p) b.owned ≤ 1
    spread_one_writer =
        ground
          (arith, s.weighs p, v.placed p, v.counted p, v.one_writer p, count-take-drop p n a.free)

  Spread-IsValid : {n : ℕ} {a b : Pool K} → IsValid a → Spread n a b → IsValid b
  Spread-IsValid {n} {a} {b} v s = record {
    positive = rw s.keeps.0 v.positive;
    uniq_owned = s.uniq;
    uniq_borrowed = rw s.keeps.2 v.uniq_borrowed;
    same_keys = λ k. rw (s.keeps.2, s.same_keys k) (v.same_keys k);
    same_keys_tokens = λ k. rw (s.keeps.3, s.same_keys k) (v.same_keys_tokens k);
    counted = λ p. rw (s.keeps.2) (omega (arith, spread_holds v s p, v.counted p, s.weighs p));
    placed = λ p. spread_placed v s p;
    distinct = λ k p. spread_distinct v s p k;
    one_writer = λ p. spread_one_writer v s p;
    once = λ p. omega arith;
  }

  grown-Spread :
      {a : Pool K} (key : K) (need : ℕ)
      → IsValid a
      → has key a.owned ≡ true
      → Spread need a (grown a key need)
  unfolding grown
  grown-Spread {a} key need v resident = record {
    keeps = (refl, refl, refl, refl);
    free = refl;
    holds = λ p. refl;
    uniq = put-Uniq key (owned_by a key ++ take need a.free) a.owned v.uniq_owned;
    same_keys = λ k.
        rw (lookup-put key k (owned_by a key ++ take need a.free) a.owned)
          (ground (arith, e.same_iff key k));
    weighs = λ p. ground (
      arith,
      weigh-put (count p) key (owned_by a key ++ take need a.free) a.owned,
      count-append p (owned_by a key) (take need a.free),
    );
    grows = λ k p.
        rw (lookup-put key k (owned_by a key ++ take need a.free) a.owned)
          (ground (arith, e.same_iff key k, count-append p (owned_by a key) (take need a.free)));
  }

  -- Whatever it answers, `grow` keeps the page invariant.
  pub grow-IsValid :
      (a : Pool K) (key : K) (capacity_tokens : ℕ)
      → IsValid a
      → IsValid (grow a key capacity_tokens).1
  unfolding grow
  grow-IsValid a key capacity_tokens v = elim (Bool-cases (has key a.owned)) [
    | inl resident ↦ rw resident (
        ground (
          arith,
          Spread-IsValid v (
              grown-Spread key
                ((capacity_tokens + a.page_tokens - 1) / a.page_tokens
                  - length (borrowed_by a key)
                  - length (owned_by a key))
                v resident),
        ))
    | inr missing ↦ rw missing v
  ]

  -- Every key of the list is resident.
  abbrev pub Resident : List K → Dict K (List ℕ) → Type 0
  Resident [] d = Unit
  Resident (k ∷ ks) d = (has k d ≡ true) × Resident ks d

  record Appended (pages : List ℕ) (d d' : Dict K (List ℕ)) : Type ℓ where
    uniq : Uniq d'
    same_keys : (k : K) → has k d' ≡ has k d
    weighs : (p : ℕ) → weigh (count p) d' ≡ weigh (count p) d + count p pages
    grows : (k : K) (p : ℕ) → at (count p) (lookup k d') ≤ at (count p) (lookup k d) + count p pages

  Resident-same :
      (ks : List K) (d d' : Dict K (List ℕ))
      → ((k : K) → has k d' ≡ has k d)
      → Resident ks d
      → Resident ks d'
  Resident-same [] d d' h r = tt
  Resident-same (k ∷ ks) d d' h r = (h k ∙ r.0, Resident-same ks d d' h r.1)

  put-Appended :
      (key : K) (page : ℕ) (own : List ℕ) (d : Dict K (List ℕ))
      → Uniq d
      → lookup key d ≡ some own
      → Appended (page ∷ []) d (put key (own ++ page ∷ []) d)
  put-Appended key page own d u found = record {
    uniq = put-Uniq key (own ++ page ∷ []) d u;
    same_keys = λ k. rw (lookup-put key k (own ++ page ∷ []) d) (ground (arith, e.same_iff key k));
    weighs = λ p.
        ground
          (arith, weigh-put (count p) key (own ++ page ∷ []) d, count-append p own (page ∷ []));
    grows = λ k p.
        rw (lookup-put key k (own ++ page ∷ []) d)
          (ground (arith, e.same_iff key k, count-append p own (page ∷ [])));
  }

  Appended-cons :
      {page : ℕ} {pages : List ℕ} {d d' d'' : Dict K (List ℕ)}
      → Appended (page ∷ []) d d'
      → Appended pages d' d''
      → Appended (page ∷ pages) d d''
  Appended-cons s t = record {
    uniq = t.uniq;
    same_keys = λ k. t.same_keys k ∙ s.same_keys k;
    weighs = λ p. omega (arith, s.weighs p, t.weighs p);
    grows = λ k p. omega (arith, s.grows k p, t.grows k p);
  }

  append_each-Appended :
      (keys : List K) (pages : List ℕ) (d : Dict K (List ℕ))
      → Resident keys d
      → length pages ≡ length keys
      → Uniq d
      → ((append_each keys pages d).0 ≡ true) × Appended pages d (append_each keys pages d).1
  unfolding append_each
  append_each-Appended [] [] d r h u = (
    refl,
    record {
      uniq = u;
      same_keys = λ k. refl;
      weighs = λ p. omega arith;
      grows = λ k p. omega arith;
    },
  )
  append_each-Appended [] (page ∷ pages) d r h u = absurd (omega arith)
  append_each-Appended (key ∷ keys) [] d r h u = absurd (omega arith)
  append_each-Appended (key ∷ keys) (page ∷ pages) d r h u = elim (Option-cases (lookup key d)) [
    | inl missing ↦ absurd (ground (arith, r.0))
    | inr (own, found) ↦
        let d' = put key (own ++ page ∷ []) d in
        let step = put-Appended key page own d u found in
        let rest =
          append_each-Appended keys pages d' (Resident-same keys d d' step.same_keys r.1)
            (omega arith) step.uniq in
        rw (found, append_each) (rest.0, Appended-cons step rest.1)
  ]

  pages_grown : Pool K → List K → Pool K
  pages_grown a keys =
      let added = take (length keys) a.free in
      record a {
        free = drop (length keys) a.free;
        owned = (append_each keys added a.owned).1;
        holds = add_hold added a.holds;
      }

  pages_grown-Spread :
      {a : Pool K} (keys : List K)
      → IsValid a
      → Resident keys a.owned
      → length keys ≤ length a.free
      → ((append_each keys (take (length keys) a.free) a.owned).0 ≡ true)
        × Spread (length keys) a (pages_grown a keys)
  unfolding pages_grown
  pages_grown-Spread {a} keys v r h =
      let added = take (length keys) a.free in
      let (done, s) =
        append_each-Appended keys added a.owned r (omega (arith, length-take (length keys) a.free))
          v.uniq_owned in
      (
        done,
        record {
          keeps = (refl, refl, refl, refl);
          free = refl;
          holds = λ p. refl;
          uniq = s.uniq;
          same_keys = s.same_keys;
          weighs = s.weighs;
          grows = s.grows;
        },
      )

  -- In a valid pool, asked for keys that are resident, `grow_pages` keeps the page invariant, and
  -- raises nothing: it answers one page for each key, or `None` exactly when the free list is too
  -- short.
  pub grow_pages-IsValid :
      (a : Pool K) (keys : List K)
      → IsValid a
      → Resident keys a.owned
      → IsValid (grow_pages a keys).1
        × ((grow_pages a keys).0 ≡ (
            if ltb (length a.free) (length keys)
            then ok none
            else ok (some (take (length keys) a.free))))
  unfolding grow_pages pages_grown
  grow_pages-IsValid a keys v r = elim (Bool-cases (ltb (length a.free) (length keys))) [
    | inl short ↦ rw short (v, refl)
    | inr enough ↦
        let (done, s) = pages_grown-Spread keys v r (ground arith) in
        rw (enough, done) (Spread-IsValid v s, refl)
  ]
