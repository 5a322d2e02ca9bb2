-- ===== src/Prelude/Options.antt =====
-- Chains of computations that may give no result, and the rules by which a property of a branching
-- computation is that of its branches.
use mathlib.Core.Path.{◌≡◌, refl}
use mathlib.Core.Bool.{Bool, true, false}
use mathlib.Core.Option.{Option, none, some}
use quail.Prelude.Tests.{if◌then◌else◌}

infixl 1 ◌>>=◌
abbrev pub ◌>>=◌ {ℓ κ} : {A : Type ℓ} {B : Type κ} → Option A → (A → Option B) → Option B
none >>= f = none
some x >>= f = f x

-- A branch on an option: `absent` if it is none, and `present` of its value.
abbrev pub given {ℓ κ} : {A : Type ℓ} {B : Type κ} → Option A → B → (A → B) → B
given none absent present = absent
given (some x) absent present = present x

pub given-all {ℓ κ μ} :
    {A : Type ℓ} {B : Type κ} (Q : B → Type μ) (o : Option A) (absent : B) (present : A → B)
    → (o ≡ none → Q absent)
    → ((x : A) → o ≡ some x → Q (present x))
    → Q (given o absent present)
given-all Q none absent present h g = h refl
given-all Q (some x) absent present h g = g x refl

pub if-all {ℓ κ} :
    {A : Type ℓ} (Q : A → Type κ) (b : Bool) (x y : A)
    → (b ≡ true → Q x)
    → (b ≡ false → Q y)
    → Q (if b then x else y)
if-all Q true x y h g = h refl
if-all Q false x y h g = g refl
