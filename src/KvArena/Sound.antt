-- ===== src/KvArena/Sound.antt =====
-- quail/backends/quail/executor/arena.py: the invariant of the KV arena, and the rules by which a
-- chain of calls keeps it.
use quail.Prelude.{
  ℕ, ◌<◌, ◌≡◌, refl, true, false, Option, none, some, List, Eq, arith, given, Bool, ◌||◌,
  if◌then◌else◌,
}
use quail.Result.{Result, ok, err}
use quail.Dict.{Dict, lookup, has, put, pop, lookup-put, lookup-pop}
use quail.Pages.Retention.{among}
use quail.Pages.Arena.{PageArena}
use quail.Pages.Sound
use quail.KvArena.State.{
  KvArena, M, ◌>>=◌, resume, close, finally, on_full, on_sliding, refresh_rows,
}

module _ {K : Type 0} ⦃e : Eq K⦄ where
  -- No count of a dictionary of holds is 0.
  abbrev pub Counts : Dict K ℕ → Type 0
  Counts d = (k : K) (n : ℕ) → lookup k d ≡ some n → 0 < n

  pub put-Counts : (key : K) (n : ℕ) (d : Dict K ℕ) → 0 < n → Counts d → Counts (put key n d)
  put-Counts key n d h c k m found = ground (arith, lookup-put key k n d, c k m)

  pub pop-Counts : (key : K) (d : Dict K ℕ) → Counts d → Counts (pop key d)
  pop-Counts key d c k m found = ground (arith, lookup-pop key k d, c k m)

module _ {K P : Type 0} ⦃e : Eq K⦄ where
  abbrev pub SlidingIsSound : Option (PageArena K P) → Type 0
  SlidingIsSound none = Unit
  SlidingIsSound (some b) = Sound.IsSound b

  -- `key in self._holds or key in self._reading`, and the two pools, on the fields of the arena that
  -- they are about.
  pub record SoundParts (full : PageArena K P) (pool : Option (PageArena K P)) (deferred : List K)
      (holds reading : Dict K ℕ) : Type 0 where
    pub full_pool : Sound.IsSound full
    pub sliding_pool : SlidingIsSound pool
    pub waiting : (k : K) → among k deferred ≡ true → (has k holds || has k reading) ≡ true
    pub held : Counts holds
    pub read : Counts reading

  -- Both pools are sound, and a key whose freeing waits is held by a borrower or a reader.
  pub record IsSound (s : KvArena K P) : Type 0 where
    pub parts : SoundParts s.accounting s.sliding s.deferred s.holds s.reading

  abbrev pub Keeps : {A : Type 0} → M K P A → Type 0
  Keeps m = (s : KvArena K P) → IsSound s → IsSound (m s).1

  resume-IsSound :
      {A B : Type 0} (r : Result A × KvArena K P) (f : A → M K P B)
      → IsSound r.1
      → ((x : A) → Keeps (f x))
      → IsSound (resume r f).1
  resume-IsSound (ok x, s) f h g = g x s h
  resume-IsSound (err x, s) f h g = h

  pub bind-Keeps :
      {A B : Type 0} (m : M K P A) (f : A → M K P B)
      → Keeps m
      → ((x : A) → Keeps (f x))
      → Keeps (m >>= f)
  bind-Keeps m f h g s v = resume-IsSound (m s) f (h s v) g

  pub close-IsSound :
      {A : Type 0} (r : Result A) (last : Result (Unit {0}) × KvArena K P)
      → IsSound last.1
      → IsSound (close r last).1
  close-IsSound r (ok _, s) h = h
  close-IsSound r (err x, s) h = h

  pub finally-Keeps :
      {A : Type 0} (m : M K P A) (last : M K P (Unit {0}))
      → Keeps m
      → Keeps last
      → Keeps (finally m last)
  finally-Keeps m last h g s v = close-IsSound (m s).0 (last (m s).1) (g (m s).1 (h s v))

  -- Calls on one of the pools.
  pub on_full-Keeps :
      {A : Type 0} (f : PageArena K P → Result A × PageArena K P)
      → ((a : PageArena K P) → Sound.IsSound a → Sound.IsSound (f a).1)
      → Keeps (on_full f)
  on_full-Keeps f h s v = record {
    parts = record {
      full_pool = h s.accounting v.parts.full_pool;
      sliding_pool = v.parts.sliding_pool;
      waiting = v.parts.waiting;
      held = v.parts.held;
      read = v.parts.read;
    };
  }

  sliding-IsSound :
      {A : Type 0} (absent : A) (f : PageArena K P → Result A × PageArena K P) (s : KvArena K P)
      (sliding : Option (PageArena K P))
      → ((a : PageArena K P) → Sound.IsSound a → Sound.IsSound (f a).1)
      → IsSound s
      → SlidingIsSound sliding
      → IsSound
          (given {B = Result A × KvArena K P} sliding
            (ok absent, s)
            λ b. let (r, a) = f b in (r, record s { sliding = some a })).1
  sliding-IsSound absent f s none h v w = v
  sliding-IsSound absent f s (some b) h v w = record {
    parts = record {
      full_pool = v.parts.full_pool;
      sliding_pool = h b w;
      waiting = v.parts.waiting;
      held = v.parts.held;
      read = v.parts.read;
    };
  }

  pub on_sliding-Keeps :
      {A : Type 0} (absent : A) (f : PageArena K P → Result A × PageArena K P)
      → ((a : PageArena K P) → Sound.IsSound a → Sound.IsSound (f a).1)
      → Keeps (on_sliding absent f)
  on_sliding-Keeps absent f h s v = sliding-IsSound absent f s s.sliding h v v.parts.sliding_pool

  pub refresh_rows-IsSound :
      (key : K) (logical : Option ℕ) (s : KvArena K P)
      → IsSound s
      → IsSound (refresh_rows key logical s)
  unfolding refresh_rows
  refresh_rows-IsSound key logical s v = record { parts = v.parts }

  -- A branch keeps the invariant where its parts do.
  pub if-IsSound :
      {A : Type 0} (b : Bool) (x y : Result A × KvArena K P)
      → (b ≡ true → IsSound x.1)
      → (b ≡ false → IsSound y.1)
      → IsSound (if b then x else y).1
  if-IsSound true x y h g = h refl
  if-IsSound false x y h g = g refl

  pub given-IsSound :
      {A B : Type 0} (o : Option B) (x : Result A × KvArena K P) (f : B → Result A × KvArena K P)
      → (o ≡ none → IsSound x.1)
      → ((b : B) → o ≡ some b → IsSound (f b).1)
      → IsSound (given o x f).1
  given-IsSound none x f h g = h refl
  given-IsSound (some b) x f h g = g b refl

  pub given-Keeps :
      {A B : Type 0} (o : Option B) (m : M K P A) (f : B → M K P A)
      → Keeps m
      → ((b : B) → o ≡ some b → Keeps (f b))
      → Keeps (given o m f)
  given-Keeps none m f h g = h
  given-Keeps (some b) m f h g = g b refl
