-- ===== src/Error.antt =====
-- src/error.rs: the errors that the modelled code raises, and results.
use vivisect_rs.Base.{ℕ, String, ◌≡◌, refl, ◌⊎◌, inl, inr}

-- `enum VivError`, the variants that the modelled code builds.
pub data VivError : Type 0 where
  invalid_memory : (address : ℕ) → VivError
  invalid_function : (va : ℕ) → VivError
  invalid_register : (name : String) → VivError
  parse_error : (message : String) → VivError

-- `VivResult<T>`.
pub data VivResult {ℓ} (A : Type ℓ) : Type ℓ where
  ok : A → VivResult A
  err : VivError → VivResult A

-- The operator `?`.
infixl 5 ◌>>=◌
abbrev pub ◌>>=◌ {ℓ κ} : {A : Type ℓ} {B : Type κ} → VivResult A → (A → VivResult B) → VivResult B
ok a >>= f = f a
err e >>= f = err e

-- To split on a computed result and keep the equation.
pub VivResult-cases {ℓ} :
    {A : Type ℓ} (r : VivResult A) → ((a : A) × (r ≡ ok a)) ⊎ ((e : VivError) × (r ≡ err e))
VivResult-cases (ok a) = inl (a, refl)
VivResult-cases (err e) = inr (e, refl)
