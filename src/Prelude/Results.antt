-- ===== src/Prelude/Results.antt =====
-- What a call of the program ends in: a value, or one of the ways in which it does not return.
use mathlib.Core.Path.{◌≡◌, refl}

pub data Fault : Type 0 where
  -- An access outside an array.
  overrun : Fault
  -- An access through a null pointer.
  null_deref : Fault
  -- A division by zero, as the one at the end of LOG_CRITICAL.
  crash : Fault
  -- A loop that is still running when its fuel is used up.
  spins : Fault
  -- A C++ exception that nothing catches.
  throws : Fault

pub data Result {ℓ} (Value : Type ℓ) : Type ℓ where
  err : (fault : Fault) → Result Value
  ok : (value : Value) → Result Value

infixl 5 ◌>>=◌ ◌>>◌
-- A fault ends the whole sequence.
abbrev pub ◌>>=◌ {ℓ ℓ'} :
    {Value : Type ℓ} {Next : Type ℓ'} → Result Value → (Value → Result Next) → Result Next
err fault >>= next = err fault
ok value >>= next = next value

abbrev pub ◌>>◌ {ℓ} : {B : Type ℓ} → Result (Unit {0}) → Result B → Result B
first >> next = first >>= (λ done. next)

-- What a sequence that ends well is made of.
pub bind_ok {ℓ ℓ'} :
    {Value : Type ℓ} {Next : Type ℓ'} (first : Result Value) (next : Value → Result Next) {b : Next}
    → (first >>= next) ≡ ok b
    → (a : Value) × (first ≡ ok a) × (next a ≡ ok b)
bind_ok (err fault) next h = cc
bind_ok (ok a) next h = (a, refl, h)
