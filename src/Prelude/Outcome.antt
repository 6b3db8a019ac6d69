-- ===== src/Prelude/Outcome.antt =====
-- The result of code that takes a `std::mutex` or follows a pointer. A thread that locks a mutex
-- which it already owns never goes on: such a call `blocks`. A null dereference `faults`.
use mathlib.Core.Path.{◌≡◌, refl}
use mathlib.Core.Logic.{◌⊎◌, inl, inr}

pub data Outcome {ℓ} (A : Type ℓ) : Type ℓ where
  returns : A → Outcome A
  blocks : Outcome A
  faults : Outcome A

infixl 5 ◌>>=◌
abbrev pub ◌>>=◌ {ℓ κ} : {A : Type ℓ} {B : Type κ} → Outcome A → (A → Outcome B) → Outcome B
returns a >>= f = f a
blocks >>= f = blocks
faults >>= f = faults

-- Inversion of a call that comes back.
pub >>=-returns {ℓ κ} :
    {A : Type ℓ} {B : Type κ} (m : Outcome A) (f : A → Outcome B) {b : B}
    → (m >>= f) ≡ returns b
    → (a : A) × (m ≡ returns a) × (f a ≡ returns b)
>>=-returns (returns a) f h = (a, refl, h)
>>=-returns blocks f h = cc
>>=-returns faults f h = cc

pub Outcome-cases {ℓ} :
    {A : Type ℓ} (m : Outcome A) → ((a : A) × (m ≡ returns a)) ⊎ ((m ≡ blocks) ⊎ (m ≡ faults))
Outcome-cases (returns a) = inl (a, refl)
Outcome-cases blocks = inr (inl refl)
Outcome-cases faults = inr (inr refl)
