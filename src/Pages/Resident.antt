-- ===== src/Pages/Resident.antt =====
-- quail/backends/quail/executor/pages.py: which keys stay resident under the page operations, and
-- which slots stay with a key that is freed.
use quail.Prelude.{
  ℕ, ◌+◌, ◌-◌, ◌≡◌, true, false, Option, none, List, [], ◌∷◌, ◌++◌, if◌then◌else◌, Eq, nat_eq,
  pair_eq, arith, length, inl, inr, Option-cases, take, drop, min, ◌/◌,
}
use quail.Dict.{Dict, lookup, has, put, lookup-put, lookup-pop}
use quail.Pages.Pool.{
  or_default, Pool, alloc, allocated, drop_leading, rewind_pages, grow, grown, append_each,
  grow_pages, free_pages_of, owned_by, borrowed_by,
}
use quail.Pages.Slots.{share_except}

module _ {ℓ} {K : Type ℓ} ⦃e : Eq K⦄ where
  has-put :
      (key k : K) (pages : List ℕ) (d : Dict K (List ℕ))
      → has k d ≡ true
      → has k (put key pages d) ≡ true
  has-put key k pages d h = rw (lookup-put key k pages d) (ground arith)

  module _ (a : Pool K) (key k : K) (h : has k a.owned ≡ true) where
    pub alloc_resident :
        (tokens : ℕ) (capacity_tokens : Option ℕ) (borrowed : List ℕ)
        → has k (alloc a key tokens capacity_tokens borrowed).1.owned ≡ true
    unfolding alloc allocated
    alloc_resident tokens capacity_tokens borrowed =
        let need =
          (or_default capacity_tokens tokens + a.page_tokens - 1) / a.page_tokens
          - length borrowed in
        ground (arith, has-put key k (take need a.free) a.owned h)

    pub grow_resident : (capacity_tokens : ℕ) → has k (grow a key capacity_tokens).1.owned ≡ true
    unfolding grow grown
    grow_resident capacity_tokens =
        let need =
          (capacity_tokens + a.page_tokens - 1) / a.page_tokens
          - length (borrowed_by a key)
          - length (owned_by a key) in
        ground (arith, has-put key k (owned_by a key ++ take need a.free) a.owned h)

    pub rewind_resident : (tokens : ℕ) → has k (rewind_pages a key tokens).1.owned ≡ true
    unfolding rewind_pages
    rewind_resident tokens =
        let kept = (tokens + a.page_tokens - 1) / a.page_tokens - length (borrowed_by a key) in
        ground (arith, has-put key k (take kept (owned_by a key)) a.owned h)

    pub drop_leading_resident : (pages : ℕ) → has k (drop_leading a key pages).1.owned ≡ true
    unfolding drop_leading
    drop_leading_resident pages =
        let m = min pages (length (borrowed_by a key)) in
        ground (arith, has-put key k (drop (pages - m) (owned_by a key)) a.owned h)

    -- Only the key that is freed goes.
    pub free_resident : e.same key k ≡ false → has k (free_pages_of a key).1.owned ≡ true
    unfolding free_pages_of
    free_resident other = ground (arith, lookup-pop key k a.owned)

  append_each_resident :
      (keys : List K) (pages : List ℕ) (d : Dict K (List ℕ)) (k : K)
      → has k d ≡ true
      → has k (append_each keys pages d).1 ≡ true
  unfolding append_each
  append_each_resident [] pages d k h = h
  append_each_resident (key ∷ keys) [] d k h = h
  append_each_resident (key ∷ keys) (page ∷ pages) d k h = elim (Option-cases (lookup key d)) [
    | inl missing ↦ rw (missing, append_each) h
    | inr (own, found) ↦
        rw (found, append_each)
          (append_each_resident keys pages (put key (own ++ page ∷ []) d) k
            (has-put key k (own ++ page ∷ []) d h))
  ]

  pub grow_pages_resident :
      (a : Pool K) (keys : List K) (k : K)
      → has k a.owned ≡ true
      → has k (grow_pages a keys).1.owned ≡ true
  unfolding grow_pages
  grow_pages_resident a keys k h =
      ground (arith, append_each_resident keys (take (length keys) a.free) a.owned k h)

  -- `free_key` takes away the key's points, and no other.
  pub lookup-share_except :
      (key k : K) (tokens : ℕ) (d : Dict (K × ℕ) ℕ)
      → lookup (k, tokens) (share_except key d)
        ≡ (if e.same key k then none else lookup (k, tokens) d)
  unfolding share_except lookup
  lookup-share_except key k tokens [] = ground arith
  lookup-share_except key k tokens (((j, n), slot) ∷ d) = ground (
    arith,
    e.same_iff key k,
    e.same_iff j k,
    e.same_iff j key,
    lookup-share_except key k tokens d,
  )
