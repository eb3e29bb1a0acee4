-- ===== src/Prelude/Results.antt =====
-- hicr/core/exceptions.hpp: the three kinds of exception, as the error of a result.
use mathlib.Core.Path.{◌≡◌, refl, ap}
use mathlib.Core.Logic.{◌⊎◌, inl, inr}
use mathlib.Core.Bool.{Bool, true, false}

-- `exception_t`, and an exception of another library that passes through
pub data Error : Type 0 where
  logic runtime fatal library : Error

-- What a function that may throw comes back with.
pub data Result {ℓ} (A : Type ℓ) : Type ℓ where
  err : Error → Result A
  ok : A → Result A

-- `if (!test) HICR_THROW_...`
abbrev pub require : Bool → Error → Result (Unit {0})
require false kind = err kind
require true kind = ok tt

-- An exception skips what follows.
infixl 5 ◌>>=◌
abbrev pub ◌>>=◌ {ℓ κ} : {B : Type ℓ} {C : Type κ} → Result B → (B → Result C) → Result C
err kind >>= next = err kind
ok b >>= next = next b

infixl 5 ◌>>◌
abbrev pub ◌>>◌ {ℓ} : {C : Type ℓ} → Result (Unit {0}) → Result C → Result C
check >> rest = check >>= λ _. rest

pub Result-cases {ℓ} :
    {A : Type ℓ} (r : Result A) → ((a : A) × (r ≡ ok a)) ⊎ ((e : Error) × (r ≡ err e))
Result-cases (ok a) = inl (a, refl)
Result-cases (err e) = inr (e, refl)

abbrev unwrap_or {ℓ} : {A : Type ℓ} → A → Result A → A
unwrap_or d (ok a) = a
unwrap_or d (err e) = d

pub ok_injective {ℓ} : {A : Type ℓ} (a b : A) → ok a ≡ ok b → a ≡ b
ok_injective a b e = ap (unwrap_or a) e
