-- ===== src/Result.antt =====
-- A Python method that may raise: the value that it returns, or the exception.
use quail.Prelude.{◌≡◌, refl, ◌⊎◌, inl, inr}

pub data Error : Type 0 where
  key_error value_error invalid_request_error unknown_query_error query_id_conflict_error
        compile_error runtime_error :
      Error

pub data Result {ℓ} (A : Type ℓ) : Type ℓ where
  ok : A → Result A
  err : Error → Result A

pub Result-cases {ℓ} :
    {A : Type ℓ} (r : Result A) → ((a : A) × (r ≡ ok a)) ⊎ ((e : Error) × (r ≡ err e))
Result-cases (ok a) = inl (a, refl)
Result-cases (err e) = inr (e, refl)

-- A call, and another one with what it returns unless it raises.
abbrev pub chain {ℓ κ} : {A : Type ℓ} {B : Type κ} → Result A → (A → Result B) → Result B
chain (ok a) f = f a
chain (err e) f = err e
