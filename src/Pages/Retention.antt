-- ===== src/Pages/Retention.antt =====
-- quail/backends/quail/executor/pages.py: which keys are pinned and which may be evicted, and the
-- choice of the prefix to evict. What a key's table says (its tokens, its pages, whether it is
-- resident) is an argument here; `Pages.Arena` reads it off the pool.
use quail.Prelude.{
  ℕ, zero, suc, ◌+◌, ◌-◌, Bool, true, false, ◌||◌, Option, none, some, List, [], ◌∷◌, ◌++◌, ◌==◌,
  if◌then◌else◌, Eq, max, length,
}
use quail.Dict.{Dict, lookup, put, pop, at}
use quail.Pages.Heap.{Priorities, Entry, heappop, heappush_all}

pub record Retention (K P : Type 0) : Type 0 where
  pub pinned : List K
  pub sizes : Dict K ℕ
  pub total : ℕ
  pub retained : Dict K ℕ
  pub heap : List (Entry K P)
  pub versions : Dict K ℕ
  pub version : ℕ
  -- `retention_policy.priority`, with the key, its prefix tokens and its pages
  pub policy : Option (K → ℕ → ℕ → P)
  pub cap_pages : Option ℕ

abbrev pub init : {K P : Type 0} → Retention K P
init = record {
  pinned = [];
  sizes = [];
  total = 0;
  retained = [];
  heap = [];
  versions = [];
  version = 0;
  policy = none;
  cap_pages = none;
}

module _ {K : Type 0} ⦃e : Eq K⦄ where
  -- `key in keys`
  abbrev pub among : K → List K → Bool
  among key [] = false
  among key (k ∷ ks) = e.same k key || among key ks

  -- `self.pinned.add(key)`, `self.pinned.discard(key)`
  unfoldable pub add : K → List K → List K
  add key keys = if among key keys then keys else key ∷ keys

  unfoldable pub discard : K → List K → List K
  discard key [] = []
  discard key (k ∷ ks) = let rest = discard key ks in if e.same k key then rest else k ∷ rest

module _ {K P : Type 0} ⦃e : Eq K⦄ where
  unfoldable pub forget_retained : K → Retention K P → Retention K P
  forget_retained key r = record r {
    total = r.total - at (λ n. n) (lookup key r.sizes);
    sizes = pop key r.sizes;
    retained = pop key r.retained;
    versions = pop key r.versions;
  }

  unfoldable pub pin_key : K → Retention K P → Retention K P
  unfolding forget_retained
  pin_key key r = let r' = forget_retained key r in record r' { pinned = add key r'.pinned }

  -- The retention part of `free_key`.
  unfoldable pub drop_key : K → Retention K P → Retention K P
  unfolding forget_retained
  drop_key key r = forget_retained key (record r { pinned = discard key r.pinned })

abbrev pub priority_or : {P : Type 0} → Option P → P → P
priority_or none p = p
priority_or (some given) p = given

module _ {K P : Type 0} ⦃e : Eq K⦄ (o : Priorities P) where
  unfoldable pub default_priority : Option (K → ℕ → ℕ → P) → K → ℕ → ℕ → P
  default_priority none key prefix_tokens pages = o.ratio prefix_tokens (max 1 pages)
  default_priority (some policy) key prefix_tokens pages = policy key prefix_tokens (max 1 pages)

  -- `retain` for a resident key whose table has `prefix_tokens` tokens and `pages` pages that it
  -- alone holds.
  unfoldable pub retain_key : K → ℕ → ℕ → Option P → Retention K P → Retention K P
  unfolding forget_retained default_priority
  retain_key key prefix_tokens pages priority r =
      let forgotten = forget_retained key (record r { pinned = discard key r.pinned }) in
      let version = suc r.version in
      record forgotten {
        retained = put key prefix_tokens forgotten.retained;
        sizes = put key pages forgotten.sizes;
        total = forgotten.total + pages;
        version = version;
        versions = put key version forgotten.versions;
        heap =
            record {
              priority = priority_or priority (default_priority r.policy key prefix_tokens pages);
              version = version;
              key = key;
              pages = pages;
              prefix_tokens = prefix_tokens;
            }
            ∷ r.heap;
      }

-- What the loop of `pop_retained_victim` ends with.
pub record Picked (K P : Type 0) : Type 0 where
  pub victim : Option (Entry K P)
  pub passed : List (Entry K P)
  pub rest : List (Entry K P)

-- `self._retained_versions.get(key) == version`
abbrev pub is_version : Option ℕ → ℕ → Bool
is_version none n = false
is_version (some m) n = m == n

abbrev pub is_live : {K P : Type 0} ⦃e : Eq K⦄ → Dict K ℕ → Entry K P → Bool
is_live versions x = is_version (lookup x.key versions) x.version

abbrev pub forget_victim :
    {K P : Type 0} ⦃e : Eq K⦄ → Option (Entry K P) → Retention K P → Retention K P
forget_victim none r = r
forget_victim (some x) r = forget_retained x.key r

module _ {K P : Type 0} ⦃e : Eq K⦄ (o : Priorities P) where
  -- `while self._retained_heap:` with a round for each entry.
  unfoldable pub pick_victim :
      ℕ → List K → Dict K ℕ → List (Entry K P) → List (Entry K P) → Picked K P
  pick_victim zero keep versions passed heap = record {
    victim = none;
    passed = passed;
    rest = heap;
  }
  pick_victim (suc fuel) keep versions passed heap = elim (heappop o heap) [
    | none ↦ record { victim = none; passed = passed; rest = heap }
    | some (x, rest) ↦ elim (is_live versions x) [
      | false ↦ pick_victim fuel keep versions passed rest
      | true ↦ elim (among x.key keep) [
        | true ↦ pick_victim fuel keep versions (passed ++ x ∷ []) rest
        | false ↦ record { victim = some x; passed = passed; rest = rest }
      ]
    ]
  ]

  -- The source answers the key, the pages and the tokens of the entry that is answered here.
  unfoldable pub pop_retained_victim : List K → Retention K P → Option (Entry K P) × Retention K P
  unfolding pick_victim heappush_all forget_retained
  pop_retained_victim keep r =
      let picked = pick_victim (length r.heap) keep r.versions [] r.heap in
      let r' = forget_victim picked.victim r in
      (picked.victim, record r' { heap = heappush_all picked.passed picked.rest })
