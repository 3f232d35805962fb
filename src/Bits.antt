-- ===== src/Bits.antt =====
-- The binary digits of a word, and what `&` and `|` of the machine do to them. The bitmaps of
-- src/libruntime/utils/bitmap.c and include/nanvix/runtime/utils.h rest on these laws.
pub mod Split
use Prim.Native.Nat.{digits, bit_and, bit_or, bit_and-bitwise, bit_or-bitwise}
use native.Mathlib.Nat.{pow-suc}
use multikernel.Common.{
  ◌+◌, ◌*◌, ◌≤◌, sym, ◌-◌, ℕ, zero, suc, ◌/◌, ◌%◌, ◌^◌, ◌≤◌, ◌<◌, min, max, ◌≡◌, refl, ◌∙◌, ◌≢◌, ap,
  arith, ◌==◌, if◌then◌else◌, Bool-cases, ==_iff, inl, inr,
}

-- The digit of weight 2 ^ k.
abbrev pub digit : ℕ → ℕ → ℕ
digit a zero = a % 2
digit a (suc k) = digit (a / 2) k

pub digit-lt : (a k : ℕ) → digit a k < 2
digit-lt a zero = omega arith
digit-lt a (suc k) = digit-lt (a / 2) k

pub digit-zero : (k : ℕ) → digit 0 k ≡ 0
digit-zero zero = refl
digit-zero (suc k) = digit-zero k

-- An operation on words that works digit by digit.
module _ (e : ℕ → ℕ) (f : ℕ → ℕ → ℕ) (e_low : (b : ℕ) → e b % 2 ≡ f 0 (b % 2))
    (e_high : (b : ℕ) → e b / 2 ≡ e (b / 2)) (f_lt : (x y : ℕ) → x < 2 → y < 2 → f x y < 2) where
  digits_half :
      (n a b : ℕ)
      → (digits e f (suc n) (suc a) b % 2 ≡ f (suc a % 2) (b % 2))
        × (digits e f (suc n) (suc a) b / 2 ≡ digits e f n (suc a / 2) (b / 2))
  digits_half n a b = omega (arith, f_lt (suc a % 2) (b % 2) (omega arith) (omega arith))

  digit-digits : (k n a b : ℕ) → a ≤ n → digit (digits e f n a b) k ≡ f (digit a k) (digit b k)
  digit-digits zero zero zero b h = e_low b
  digit-digits zero (suc n) zero b h = e_low b
  digit-digits k zero (suc a) b h = absurd (omega arith)
  digit-digits zero (suc n) (suc a) b h = (digits_half n a b).0
  digit-digits (suc k) zero zero b h = rw (e_high b) (digit-digits k zero zero (b / 2) h)
  digit-digits (suc k) (suc n) zero b h =
      rw (e_high b) (digit-digits k zero zero (b / 2) (omega arith))
  digit-digits (suc k) (suc n) (suc a) b h =
      rw (digits_half n a b).1 (digit-digits k n (suc a / 2) (b / 2) (omega arith))

  digits-lt :
      (e_le : (b : ℕ) → e b ≤ b) (m n a b : ℕ)
      → a ≤ n
      → a < 2 ^ m
      → b < 2 ^ m
      → digits e f n a b < 2 ^ m
  digits-lt e_le m zero zero b h ha hb = omega (arith, e_le b)
  digits-lt e_le m (suc n) zero b h ha hb = omega (arith, e_le b)
  digits-lt e_le m zero (suc a) b h ha hb = absurd (omega arith)
  digits-lt e_le zero (suc n) (suc a) b h ha hb = absurd (omega arith)
  digits-lt e_le (suc m) (suc n) (suc a) b h ha hb = omega (
    arith,
    pow-suc 2 m,
    digits-lt e_le m n (suc a / 2) (b / 2) (omega arith) (omega (arith, pow-suc 2 m))
        (omega (arith, pow-suc 2 m)),
    f_lt (suc a % 2) (b % 2) (omega arith) (omega arith),
  )

pub digit-bit_and : (a b k : ℕ) → digit (bit_and a b) k ≡ min (digit a k) (digit b k)
digit-bit_and a b k = rw (bit_and-bitwise a b) (
    digit-digits (λ b. 0) min (λ b. omega arith) (λ b. refl) (λ x y p q. omega arith) k a a b
      (omega arith))

pub digit-bit_or : (a b k : ℕ) → digit (bit_or a b) k ≡ max (digit a k) (digit b k)
digit-bit_or a b k = rw (bit_or-bitwise a b) (
    digit-digits (λ b. b) max (λ b. omega arith) (λ b. refl) (λ x y p q. omega arith) k a a b
      (omega arith))

pub bit_and-lt : (m a b : ℕ) → a < 2 ^ m → b < 2 ^ m → bit_and a b < 2 ^ m
bit_and-lt m a b ha hb = rw (bit_and-bitwise a b) (
    digits-lt (λ b. 0) min (λ b. omega arith) (λ b. refl) (λ x y p q. omega arith)
      (λ b. omega arith) m a a b (omega arith) ha hb)

pub bit_or-lt : (m a b : ℕ) → a < 2 ^ m → b < 2 ^ m → bit_or a b < 2 ^ m
bit_or-lt m a b ha hb = rw (bit_or-bitwise a b) (
    digits-lt (λ b. b) max (λ b. omega arith) (λ b. refl) (λ x y p q. omega arith)
      (λ b. omega arith) m a a b (omega arith) ha hb)

-- A power of two has one digit.
pub digit-pow : (k j : ℕ) → digit (2 ^ k) j ≡ (if k == j then 1 else 0)
digit-pow zero zero = refl
digit-pow zero (suc j) = digit-zero j ∙ ground arith
digit-pow (suc k) zero = ground (arith, pow-suc 2 k)
digit-pow (suc k) (suc j) = rw (half_pow k) (digit-pow k j ∙ ground arith)
  where
    half_pow : (k : ℕ) → 2 ^ suc k / 2 ≡ 2 ^ k
    half_pow k = omega (arith, pow-suc 2 k)

zero_of_digits_fuel : (n x : ℕ) → x ≤ n → ((j : ℕ) → digit x j ≡ 0) → x ≡ 0
zero_of_digits_fuel n zero le h = refl
zero_of_digits_fuel zero (suc x) le h = absurd (omega arith)
zero_of_digits_fuel (suc n) (suc x) le h =
    omega (arith, h 0, zero_of_digits_fuel n (suc x / 2) (omega arith) (λ j. h (suc j)))

masked_clear : (a k : ℕ) → digit a k ≡ 0 → (j : ℕ) → digit (bit_and a (2 ^ k)) j ≡ 0
masked_clear a k e j = elim (Bool-cases (k == j)) [
  | inl hit ↦ omega (arith, digit-bit_and a (2 ^ k) j, ap (digit a) ((==_iff k j).0 hit))
  | inr miss ↦ ground (arith, digit-bit_and a (2 ^ k) j, digit-pow k j)
]

masked_set : (a k : ℕ) → digit a k ≡ 1 → bit_and a (2 ^ k) ≢ 0
masked_set a k e z =
    ground (arith, digit-bit_and a (2 ^ k) k, digit-pow k k, digit-zero k, ap (λ x. digit x k) z)

-- `a & (1 << k)` is zero exactly if the digit is.
pub bit_and-pow_iff : (a k : ℕ) → (bit_and a (2 ^ k) == 0) ≡ (digit a k == 0)
bit_and-pow_iff a k = elim (Bool-cases (digit a k == 0)) [
  | inl e ↦ ground (
    arith,
    zero_of_digits_fuel (bit_and a (2 ^ k)) (bit_and a (2 ^ k)) (omega arith)
        (masked_clear a k ((==_iff (digit a k) 0).0 e)),
  )
  | inr ne ↦ ground (arith, masked_set a k, digit-lt a k)
]

-- A word whose digits are all ones.
pub full_of_digits : (n w : ℕ) → w < 2 ^ n → ((j : ℕ) → j < n → digit w j ≡ 1) → suc w ≡ 2 ^ n
full_of_digits zero w lt h = omega arith
full_of_digits (suc n) w lt h = omega (
  arith,
  pow-suc 2 n,
  h 0 (omega arith),
  full_of_digits n (w / 2) (omega (arith, pow-suc 2 n)) (λ j p. h (suc j) (omega arith)),
)

pub pow-pos : (n : ℕ) → 1 ≤ 2 ^ n
pow-pos zero = omega arith
pow-pos (suc n) = omega (arith, pow-suc 2 n, pow-pos n)

pow-lt : (k n : ℕ) → k < n → 2 ^ k < 2 ^ n
pow-lt k zero h = elim h [ ]
pow-lt zero (suc n) h = omega (arith, pow-suc 2 n, pow-pos n)
pow-lt (suc k) (suc n) h = omega (arith, pow-suc 2 n, pow-suc 2 k, pow-lt k n (omega arith))

-- The word of n ones.
pub digit-ones : (n j : ℕ) → j < n → digit (2 ^ n - 1) j ≡ 1
digit-ones zero j h = elim h [ ]
digit-ones (suc n) zero h = omega (arith, pow-suc 2 n, pow-pos n)
digit-ones (suc n) (suc j) h = rw (half_ones n) (digit-ones n j (omega arith))
  where
    half_ones : (n : ℕ) → (2 ^ suc n - 1) / 2 ≡ 2 ^ n - 1
    half_ones n = omega (arith, pow-suc 2 n, pow-pos n)

half_mask_zero : (n : ℕ) → (2 ^ suc n - 1 - 1) / 2 ≡ 2 ^ n - 1
half_mask_zero n = omega (arith, pow-suc 2 n, pow-pos n)

half_mask : (n k : ℕ) → k < n → (2 ^ suc n - 1 - 2 ^ suc k) / 2 ≡ 2 ^ n - 1 - 2 ^ k
half_mask n k h = omega (arith, pow-suc 2 n, pow-suc 2 k, pow-lt k n h)

-- `~(1 << k)` in a word of n digits.
pub digit-mask :
    (n k j : ℕ) → k < n → j < n → digit (2 ^ n - 1 - 2 ^ k) j ≡ (if k == j then 0 else 1)
digit-mask zero k j hk hj = elim hk [ ]
digit-mask (suc n) zero zero hk hj = omega (arith, pow-suc 2 n, pow-pos n)
digit-mask (suc n) zero (suc j) hk hj =
    rw (half_mask_zero n) (digit-ones n j (omega arith) ∙ ground arith)
digit-mask (suc n) (suc k) zero hk hj =
    ground (arith, pow-suc 2 n, pow-suc 2 k, pow-lt k n (omega arith))
digit-mask (suc n) (suc k) (suc j) hk hj =
    rw (half_mask n k (omega arith)) (digit-mask n k j (omega arith) (omega arith) ∙ ground arith)

pub mask-lt : (n k : ℕ) → 2 ^ n - 1 - 2 ^ k < 2 ^ n
mask-lt n k = omega (arith, pow-pos n)

pub pow-lt_pow : (k n : ℕ) → k < n → 2 ^ k < 2 ^ n
pow-lt_pow k n h = pow-lt k n h

-- A word is its digits.
eq_of_digits_fuel : (n x y : ℕ) → x ≤ n → y ≤ n → ((j : ℕ) → digit x j ≡ digit y j) → x ≡ y
eq_of_digits_fuel zero x y hx hy h = omega arith
eq_of_digits_fuel (suc n) x y hx hy h =
    omega
      (arith, h 0, eq_of_digits_fuel n (x / 2) (y / 2) (omega arith) (omega arith) (λ j. h (suc j)))

pub eq_of_digits : (x y : ℕ) → ((j : ℕ) → digit x j ≡ digit y j) → x ≡ y
eq_of_digits x y h = eq_of_digits_fuel (x + y) x y (omega arith) (omega arith) h

bit_or-half : (a b : ℕ) → bit_or a b / 2 ≡ bit_or (a / 2) (b / 2)
bit_or-half a b =
    eq_of_digits (bit_or a b / 2) (bit_or (a / 2) (b / 2))
      λ j. digit-bit_or a b (suc j) ∙ sym (digit-bit_or (a / 2) (b / 2) j)

bit_or-zero : (a : ℕ) → bit_or a 0 ≡ a
bit_or-zero a = eq_of_digits (bit_or a 0) a λ j. omega (arith, digit-bit_or a 0 j, digit-zero j)

-- Where the digits of the parts do not overlap, `|` adds them.
pub bit_or_disjoint : (k a b : ℕ) → b < 2 ^ k → bit_or (a * 2 ^ k) b ≡ a * 2 ^ k + b
bit_or_disjoint zero a b h = rw (small b h) (bit_or-zero (a * 1) ∙ omega arith)
  where
    small : (b : ℕ) → b < 1 → b ≡ 0
    small b h = omega arith
bit_or_disjoint (suc k) a b h =
    let twice = shifted a k in
    omega (
      arith,
      twice,
      digit-bit_or (a * 2 ^ suc k) b 0,
      bit_or-half (a * 2 ^ suc k) b,
      ap (λ x. bit_or x (b / 2)) (half_shifted a k),
      bit_or_disjoint k a (b / 2) (omega (arith, pow-suc 2 k)),
    )
  where
    shifted : (a k : ℕ) → a * 2 ^ suc k ≡ 2 * (a * 2 ^ k)
    shifted a k = omega (arith, ap (λ t. a * t) (pow-suc 2 k))

    half_shifted : (a k : ℕ) → a * 2 ^ suc k / 2 ≡ a * 2 ^ k
    half_shifted a k = omega (arith, ap (λ t. a * t) (pow-suc 2 k))
