-- ===== src/Common/Sums.antt =====
-- Sums over the entries of an array, and how a write changes them.
use Prim.Native.Nat.{ℕ, zero, suc, ◌+◌, ◌≤◌, ◌<◌}
use mathlib.Core.Path.{◌≡◌, refl}
use mathlib.Core.Logic.{◌≢◌}
use native.Mathlib.Decide.{ℕ_discrete}
use native.Mathlib.Omega.{arith}

unfoldable pub sum_below : (ℕ → ℕ) → ℕ → ℕ
sum_below f zero = 0
sum_below f (suc n) = f n + sum_below f n

pub sum_below-ext :
    (f g : ℕ → ℕ) (n : ℕ) → ((i : ℕ) → i < n → f i ≡ g i) → sum_below f n ≡ sum_below g n
unfolding sum_below
sum_below-ext f g zero h = refl
sum_below-ext f g (suc n) h =
    omega (arith, h n (omega arith), sum_below-ext f g n (λ i lt. h i (omega arith)))

-- Where `g` differs from `f` at `i` alone.
pub sum_below_change :
    (f g : ℕ → ℕ) (n i : ℕ)
    → i < n
    → ((j : ℕ) → j ≢ i → g j ≡ f j)
    → sum_below g n + f i ≡ sum_below f n + g i
unfolding sum_below
sum_below_change f g zero i lt h = absurd (omega arith)
sum_below_change f g (suc n) i lt h = elim (ℕ_discrete n i) [
  | yes e ↦ rw e (omega (arith, sum_below-ext g f i (λ j lt'. h j (λ e'. omega (arith, e')))))
  | no ne ↦ omega (arith, h n ne, sum_below_change f g n i (omega arith) h)
]

pub sum_below_mono : (f : ℕ → ℕ) (n i : ℕ) → i < n → f i ≤ sum_below f n
unfolding sum_below
sum_below_mono f zero i lt = absurd (omega arith)
sum_below_mono f (suc n) i lt = elim (ℕ_discrete n i) [
  | yes e ↦ rw e (omega arith)
  | no ne ↦ omega (arith, sum_below_mono f n i (omega arith))
]
