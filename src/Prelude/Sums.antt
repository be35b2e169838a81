-- ===== src/Prelude/Sums.antt =====
-- Sums over the numbers below a bound.
use Prim.Native.Nat.{ℕ, zero, suc, ◌+◌, ◌≤◌, ◌<◌}
use mathlib.Core.Path.{◌≡◌, refl, ap}
use mathlib.Core.Logic.{◌≢◌}
use native.Mathlib.Omega.{arith}
use native.Mathlib.Decide.{ℕ_discrete}

abbrev pub sum_below : ℕ → (ℕ → ℕ) → ℕ
sum_below zero f = 0
sum_below (suc n) f = f n + sum_below n f

sum_below-same :
    (n : ℕ) (f g : ℕ → ℕ) → ((j : ℕ) → j < n → g j ≡ f j) → sum_below n g ≡ sum_below n f
sum_below-same zero f g h = refl
sum_below-same (suc n) f g h =
    omega (arith, h n (omega arith), sum_below-same n f g (λ j lt. h j (omega (arith, lt))))

-- A change at one place changes the sum as much.
pub sum_below-change :
    (n i : ℕ) (f g : ℕ → ℕ)
    → i < n
    → ((j : ℕ) → i ≢ j → g j ≡ f j)
    → sum_below n g + f i ≡ sum_below n f + g i
sum_below-change zero i f g lt h = absurd (omega (arith, lt))
sum_below-change (suc n) i f g lt h = elim (ℕ_discrete i n) [
  | yes e ↦ omega (
    arith,
    ap f e,
    ap g e,
    sum_below-same n f g (λ j below. h j (λ same. omega (arith, e, same, below))),
  )
  | no ne ↦ omega (arith, h n ne, sum_below-change n i f g (omega (arith, lt, ne)) h)
]

pub sum_below-zero : (n : ℕ) (f : ℕ → ℕ) → ((j : ℕ) → f j ≡ 0) → sum_below n f ≡ 0
sum_below-zero zero f h = refl
sum_below-zero (suc n) f h = omega (arith, h n, sum_below-zero n f h)

pub le-sum_below : (n i : ℕ) (f : ℕ → ℕ) → i < n → f i ≤ sum_below n f
le-sum_below zero i f lt = absurd (omega (arith, lt))
le-sum_below (suc n) i f lt = elim (ℕ_discrete i n) [
  | yes e ↦ omega (arith, ap f e)
  | no ne ↦ omega (arith, le-sum_below n i f (omega (arith, lt, ne)))
]

pub add-le-sum_below : (n i j : ℕ) (f : ℕ → ℕ) → i < n → j < n → i ≢ j → f i + f j ≤ sum_below n f
add-le-sum_below zero i j f a b ne = absurd (omega (arith, a))
add-le-sum_below (suc n) i j f a b ne = elim (ℕ_discrete i n) [
  | yes e ↦ omega (arith, ap f e, le-sum_below n j f (omega (arith, b, e, ne)))
  | no ni ↦ elim (ℕ_discrete j n) [
    | yes e ↦ omega (arith, ap f e, le-sum_below n i f (omega (arith, a, ni)))
    | no nj ↦
        omega (arith, add-le-sum_below n i j f (omega (arith, a, ni)) (omega (arith, b, nj)) ne)
  ]
]
