-- ===== src/Bits/Split.antt =====
-- A word as its low digits and the rest: `&` works on the two parts apart, and so does counting.
use Prim.Native.Nat.{bit_and}
use native.Mathlib.Nat.{pow-suc}
use multikernel.Common.{
  ℕ, zero, suc, ◌+◌, ◌*◌, ◌/◌, ◌%◌, ◌^◌, ◌<◌, ◌≤◌, min, ◌≡◌, ap, ap₂, ◌∙◌, sym, arith, sum_below,
  sum_below-ext,
}
use multikernel.Bits.{digit, digit-bit_and, eq_of_digits, bit_and-lt, digit-zero}

bit_and-half : (x y : ℕ) → bit_and x y / 2 ≡ bit_and (x / 2) (y / 2)
bit_and-half x y =
    eq_of_digits (bit_and x y / 2) (bit_and (x / 2) (y / 2))
      λ j. digit-bit_and x y (suc j) ∙ sym (digit-bit_and (x / 2) (y / 2) j)

bit_and-step : (x y : ℕ) → bit_and x y ≡ min (x % 2) (y % 2) + 2 * bit_and (x / 2) (y / 2)
bit_and-step x y = omega (arith, digit-bit_and x y 0, bit_and-half x y)

-- The word without its first digit
half_low : (k a b : ℕ) → (a + 2 ^ suc k * b) / 2 ≡ a / 2 + 2 ^ k * b
half_low k a b = omega (arith, pow-suc 2 k, ap (λ t. t * b) (pow-suc 2 k))

mod_low : (k a b : ℕ) → (a + 2 ^ suc k * b) % 2 ≡ a % 2
mod_low k a b = omega (arith, pow-suc 2 k, ap (λ t. t * b) (pow-suc 2 k))

none_low : (a b : ℕ) → a < 2 ^ 0 → a + 2 ^ 0 * b ≡ b
none_low a b h = omega arith

pub bit_and-split :
    (k a b m r : ℕ)
    → a < 2 ^ k
    → m < 2 ^ k
    → bit_and (a + 2 ^ k * b) (m + 2 ^ k * r) ≡ bit_and a m + 2 ^ k * bit_and b r
bit_and-split zero a b m r ha hm =
    omega (arith, bit_and-lt 0 a m ha hm, ap₂ bit_and (none_low a b ha) (none_low m r hm))
bit_and-split (suc k) a b m r ha hm = omega (
  arith,
  pow-suc 2 k,
  bit_and-step (a + 2 ^ suc k * b) (m + 2 ^ suc k * r),
  bit_and-step a m,
  mod_low k a b,
  mod_low k m r,
  ap₂ bit_and (half_low k a b) (half_low k m r),
  bit_and-split k (a / 2) b (m / 2) r (omega (arith, pow-suc 2 k)) (omega (arith, pow-suc 2 k)),
  ap (λ t. t * bit_and b r) (pow-suc 2 k),
)

bit_and-zero : (y : ℕ) → bit_and 0 y ≡ 0
bit_and-zero y = eq_of_digits (bit_and 0 y) 0 λ j. omega (arith, digit-bit_and 0 y j, digit-zero j)

bit_and-le_fuel : (n x y : ℕ) → x ≤ n → bit_and x y ≤ x
bit_and-le_fuel zero x y h =
    let none : x ≡ 0 = omega arith in rw none (omega (arith, bit_and-zero y))
bit_and-le_fuel (suc n) x y h =
    omega (arith, bit_and-step x y, bit_and-le_fuel n (x / 2) (y / 2) (omega arith))

pub bit_and-le : (x y : ℕ) → bit_and x y ≤ x
bit_and-le x y = bit_and-le_fuel x x y (omega arith)

pub digit-split_low : (k a b j : ℕ) → j < k → digit (a + 2 ^ k * b) j ≡ digit a j
digit-split_low zero a b j lt = elim lt [ ]
digit-split_low (suc k) a b zero lt = mod_low k a b
digit-split_low (suc k) a b (suc j) lt =
    rw (half_low k a b) (digit-split_low k (a / 2) b j (omega arith))

zero_add : (j : ℕ) → 0 + j ≡ j
zero_add j = omega arith

suc_add : (k j : ℕ) → suc k + j ≡ suc (k + j)
suc_add k j = omega arith

pub digit-split_high : (k a b j : ℕ) → a < 2 ^ k → digit (a + 2 ^ k * b) (k + j) ≡ digit b j
digit-split_high zero a b j ha = ap₂ digit (none_low a b ha) (zero_add j)
digit-split_high (suc k) a b j ha =
    ap (digit (a + 2 ^ suc k * b)) (suc_add k j)
    ∙ ap (λ x. digit x (k + j)) (half_low k a b)
    ∙ digit-split_high k (a / 2) b j (omega (arith, pow-suc 2 k))

add_zero : (n : ℕ) → n + 0 ≡ n
add_zero n = omega arith

add_suc : (n m : ℕ) → n + suc m ≡ suc (n + m)
add_suc n m = omega arith

pub sum_below-add :
    (f : ℕ → ℕ) (n m : ℕ) → sum_below f (n + m) ≡ sum_below f n + sum_below (λ j. f (n + j)) m
unfolding sum_below
sum_below-add f n zero = omega (arith, ap (sum_below f) (add_zero n))
sum_below-add f n (suc m) = omega (arith, ap (sum_below f) (add_suc n m), sum_below-add f n m)

-- The number of digits that are set, among the first `n`
abbrev pub ones : ℕ → ℕ → ℕ
ones n w = sum_below (digit w) n

pub ones-split : (k n a b : ℕ) → a < 2 ^ k → ones (k + n) (a + 2 ^ k * b) ≡ ones k a + ones n b
ones-split k n a b ha =
    sum_below-add (digit (a + 2 ^ k * b)) k n
    ∙ ap₂ (λ x y. x + y) (sum_below-ext _ _ k (λ j lt. digit-split_low k a b j lt))
        (sum_below-ext _ _ n (λ j lt. digit-split_high k a b j ha))

pub bit_and-double : (x y : ℕ) → bit_and x (2 * y) ≡ 2 * bit_and (x / 2) y
bit_and-double x y = omega (arith, bit_and-step x (2 * y), ap (bit_and (x / 2)) (half_double y))
  where
    half_double : (y : ℕ) → 2 * y / 2 ≡ y
    half_double y = omega arith
