-- ===== src/Pages/Borrow.antt =====
-- quail/backends/quail/executor/pages.py: the pages that `shared_pages` lends are those of the parent's
-- tokens that were asked for.
use quail.Prelude.{
  ℕ, zero, suc, ◌+◌, ◌-◌, ◌*◌, ◌/◌, ◌%◌, ◌≤◌, ◌<◌, ◌≡◌, refl, sym, ap, ◌∙◌, Option, none, some,
  List, [], ◌∷◌, Eq, arith, length, take, drop, length-take, length-drop,
}
use quail.Result.{ok}
use quail.Dict.{lookup}
use quail.Pages.Pool.{Pool, tokens_of, table_pages, shared_pages}

abbrev pub get_elem? : {A : Type 0} → List A → ℕ → Option A
get_elem? [] n = none
get_elem? (x ∷ xs) zero = some x
get_elem? (x ∷ xs) (suc n) = get_elem? xs n

whole : (n d : ℕ) → 0 < d → n % d ≡ 0 → n / d * d ≡ n
whole n d h e = grind arith

times_over : (k d : ℕ) → 0 < d → k * d / d ≡ k
times_over k d h = grind arith

whole_end : (m n d : ℕ) → 0 < d → m ≤ n → m % d ≡ 0 → (n - m) % d ≡ 0 → n / d * d ≡ n
whole_end m n d h l e e' =
    let low = whole m d h e in
    let high = whole (n - m) d h e' in
    let parts : (m / d + (n - m) / d) * d ≡ n = omega (arith, low, high) in
    sym (ap (λ k. k / d * d) parts) ∙ ap (λ k. k * d) (times_over (m / d + (n - m) / d) d h) ∙ parts

div_fits : (n q d : ℕ) → 0 < d → q * d ≤ n → n < q * d + d → n / d ≡ q
div_fits n q d h low high = grind arith

whole_offset : (f i d : ℕ) → 0 < d → (f * d + i) / d ≡ f + i / d
whole_offset f i d h =
    let parts : i / d * d ≤ i = grind arith in
    let over : i < i / d * d + d = grind arith in
    div_fits (f * d + i) (f + i / d) d h (omega arith) (omega arith)

page_before : (i n d : ℕ) → 0 < d → i < n * d → i / d < n
page_before i n d h l = grind arith

times_cancel : (m n d : ℕ) → 0 < d → m * d ≤ n * d → m ≤ n
times_cancel m n d h l = grind arith

times_minus : (m n d : ℕ) → (m - n) * d ≡ m * d - n * d
times_minus m zero d = ap (λ k. k * d) {x = m - 0} {y = m} (omega arith) ∙ omega arith
times_minus zero (suc n) d = ap (λ k. k * d) {x = 0 - suc n} {y = 0} (omega arith) ∙ omega arith
times_minus (suc m) (suc n) d =
    ap (λ k. k * d) {x = suc m - suc n} {y = m - n} (omega arith) ∙ omega (arith, times_minus m n d)

get_elem?-drop-take :
    {A : Type 0} (xs : List A) (f g i : ℕ)
    → f + i < g
    → get_elem? (drop f (take g xs)) i ≡ get_elem? xs (f + i)
get_elem?-drop-take xs f zero i l = absurd (omega arith)
get_elem?-drop-take [] zero (suc g) i l = refl
get_elem?-drop-take [] (suc f) (suc g) i l = refl
get_elem?-drop-take (x ∷ xs) zero (suc g) zero l = refl
get_elem?-drop-take (x ∷ xs) zero (suc g) (suc i) l =
    get_elem?-drop-take xs zero g i (omega arith)
    ∙ ap (get_elem? (x ∷ xs)) {x = suc (0 + i)} (omega arith)
get_elem?-drop-take (x ∷ xs) (suc f) (suc g) i l =
    get_elem?-drop-take xs f g i (omega arith)
    ∙ ap (get_elem? (x ∷ xs)) {x = suc (f + i)} (omega arith)

module _ {K : Type 0} ⦃e : Eq K⦄ where
  -- What an answer of `shared_pages` says of its arguments.
  record Lent (a : Pool K) (parent : K) (shared start : ℕ) (pages : List ℕ) : Type 0 where
    aligned : start % a.page_tokens ≡ 0
    distance : (shared - start) % a.page_tokens ≡ 0
    held : shared ≤ tokens_of (lookup parent a.tokens)
    slice :
        pages ≡ drop (start / a.page_tokens) (take (shared / a.page_tokens) (table_pages a parent))

  shared_pages-Lent :
      (a : Pool K) (parent : K) (shared start : ℕ) (pages : List ℕ)
      → start ≤ shared
      → shared_pages a parent shared start ≡ ok pages
      → Lent a parent shared start pages
  unfolding shared_pages
  shared_pages-Lent a parent shared start pages order h = record {
    aligned = ground arith;
    distance = ground arith;
    held = ground arith;
    slice = ground arith;
  }

  -- Where the parent's table has room for its tokens, the pages that `shared_pages` answers for the
  -- tokens from `start` to `shared` are whole pages of the parent's tokens: `start` begins a page, the
  -- parent has `shared` tokens, the pages hold just as many tokens as were asked for, and the page of
  -- the i-th of them is the page that the parent's table has for token `start + i`.
  pub shared_pages_lent :
      (a : Pool K) (parent : K) (shared start : ℕ) (pages : List ℕ)
      → 0 < a.page_tokens
      → start ≤ shared
      → tokens_of (lookup parent a.tokens) ≤ length (table_pages a parent) * a.page_tokens
      → shared_pages a parent shared start ≡ ok pages
      → (start % a.page_tokens ≡ 0)
        × (shared ≤ tokens_of (lookup parent a.tokens))
        × (length pages * a.page_tokens ≡ shared - start)
        × ((i : ℕ)
            → i < shared - start
            → get_elem? pages (i / a.page_tokens)
              ≡ get_elem? (table_pages a parent) ((start + i) / a.page_tokens))
  shared_pages_lent a parent shared start pages positive order room h =
      let d = a.page_tokens in
      let f = start / d in
      let g = shared / d in
      let table = table_pages a parent in
      let l = shared_pages-Lent a parent shared start pages order h in
      let from : f * d ≡ start = whole start d positive l.aligned in
      let until : g * d ≡ shared = whole_end start shared d positive order l.aligned l.distance in
      let within : g ≤ length table = times_cancel g (length table) d positive (omega arith) in
      let number : length pages ≡ g - f =
        ap length l.slice ∙ omega (arith, length-drop f (take g table), length-take g table) in
      (
        l.aligned,
        l.held,
        ap (λ n. n * d) number ∙ times_minus g f d ∙ omega arith,
        λ i inside.
            let low : i / d < g - f =
              page_before i (g - f) d positive (omega (arith, times_minus g f d)) in
            ap (λ ps. get_elem? ps (i / d)) l.slice
            ∙ get_elem?-drop-take table f g (i / d) (omega arith)
            ∙ ap (get_elem? table) (sym (whole_offset f i d positive) ∙ ap (λ n. (n + i) / d) from),
      )
