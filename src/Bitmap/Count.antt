-- ===== src/Bitmap/Count.antt =====
-- `bitmap_nset` counts the bits of a word by adding the parts of the word to each other. That is
-- the number of the bits that are set.
use Prim.Native.Nat.{bit_and}
use native.Mathlib.Nat.{pow-suc}
use multikernel.Common.{
  ℕ, zero, suc, ◌+◌, ◌-◌, ◌*◌, ◌/◌, ◌%◌, ◌^◌, ◌≤◌, ◌<◌, ◌≡◌, refl, ap, ap₂, ◌∙◌, Bool, true, ◌&&◌,
  arith, ◌==◌, leb, sum_below, sum_below-ext, Bool-cases, inl, inr,
}
use multikernel.Bits.Split.{
  bit_and-split, bit_and-double, bit_and-le, ones, ones-split, sum_below-add,
}
use multikernel.Bits.{digit, digit-lt}
use multikernel.Bitmap.{
  Bitmap, idx, off, count_word, bitmap_nset, bitmap_nclear, pairs, nibbles, sum_bytes, count_words,
}
use multikernel.Bitmap.Laws.{bit, IsWords}

-- What the two steps of the count do to one byte: each half ends with the number of its bits.
abbrev byte_pairs : ℕ → ℕ
byte_pairs a = a - bit_and (a / 2) 0x55

abbrev byte_nibbles : ℕ → ℕ
byte_nibbles c = bit_and c 0x33 + bit_and (c / 4) 0x33

abbrev byte_test : ℕ → Bool
byte_test a =
    let c = byte_nibbles (byte_pairs a) in
    leb (bit_and (a / 2) 0x55) a && leb c 0x44 && leb (c % 16) 4 && (c % 16 + c / 16 == ones 8 a)

all_below : ℕ → (ℕ → Bool) → Bool
all_below zero p = true
all_below (suc n) p = let rest = all_below n p in p n && rest

all_below-apply : (n : ℕ) (p : ℕ → Bool) → all_below n p ≡ true → (a : ℕ) → a < n → p a ≡ true
unfolding all_below
all_below-apply zero p h a lt = elim lt [ ]
all_below-apply (suc n) p h a lt = elim (Bool-cases (a == n)) [
  | inl last ↦ ground (arith, h, last)
  | inr below ↦ all_below-apply n p (ground (arith, h)) a (ground arith)
]

bytes_pass : all_below 256 byte_test ≡ true
unfolding all_below sum_below
bytes_pass = refl

low_nibble_pass : all_below 256 (λ x. bit_and x 0xf == x % 16) ≡ true
unfolding all_below
low_nibble_pass = refl

byte_lem :
    (a : ℕ)
    → a < 256
    → let c = byte_nibbles (byte_pairs a) in
      (bit_and (a / 2) 0x55 ≤ a) × (c ≤ 0x44) × (c % 16 ≤ 4) × (c % 16 + c / 16 ≡ ones 8 a)
byte_lem a lt = ground (arith, all_below-apply 256 byte_test bytes_pass a lt)

low_nibble : (x : ℕ) → x < 256 → bit_and x 0xf ≡ x % 16
low_nibble x lt = ground (arith, all_below-apply 256 _ low_nibble_pass x lt)

-- The byte `x`, `n` times
abbrev repeated : ℕ → ℕ → ℕ
repeated zero x = 0
repeated (suc n) x = x + 256 * repeated n x

-- The two steps, and the third, on `n` bytes
abbrev pairs_of : ℕ → ℕ → ℕ
pairs_of n w = w - bit_and (w / 2) (repeated n 0x55)

abbrev nibbles_of : ℕ → ℕ → ℕ
nibbles_of n c = bit_and c (repeated n 0x33) + bit_and (c / 4) (repeated n 0x33)

abbrev bytes_of : ℕ → ℕ → ℕ
bytes_of n c = bit_and (c + c / 16) (repeated n 0xf)

module _ (n a b : ℕ) (ha : a < 256) where
  half-split :
      bit_and ((a + 256 * b) / 2) (repeated (suc n) 0x55)
      ≡ bit_and (a / 2) 0x55 + 256 * bit_and (b / 2) (repeated n 0x55)
  half-split = omega (
    arith,
    bit_and-split 7 (a / 2) b 0x55 (2 * repeated n 0x55) (omega arith) (omega arith),
    ap₂ bit_and (half_word a b) (half_mask (repeated n 0x55)),
    bit_and-double b (repeated n 0x55),
  )
    where
      half_word : (a b : ℕ) → (a + 256 * b) / 2 ≡ a / 2 + 2 ^ 7 * b
      half_word a b = omega arith

      half_mask : (m : ℕ) → 0x55 + 256 * m ≡ 0x55 + 2 ^ 7 * (2 * m)
      half_mask m = omega arith

  quarter-split :
      bit_and ((a + 256 * b) / 4) (repeated (suc n) 0x33)
      ≡ bit_and (a / 4) 0x33 + 256 * bit_and (b / 4) (repeated n 0x33)
  quarter-split = omega (
    arith,
    bit_and-split 6 (a / 4) b 0x33 (2 * (2 * repeated n 0x33)) (omega arith) (omega arith),
    ap₂ bit_and (quarter_word a b) (quarter_mask (repeated n 0x33)),
    bit_and-double b (2 * repeated n 0x33),
    bit_and-double (b / 2) (repeated n 0x33),
    ap (λ x. bit_and x (repeated n 0x33)) (quarter b),
  )
    where
      quarter_word : (a b : ℕ) → (a + 256 * b) / 4 ≡ a / 4 + 2 ^ 6 * b
      quarter_word a b = omega arith

      quarter_mask : (m : ℕ) → 0x33 + 256 * m ≡ 0x33 + 2 ^ 6 * (2 * (2 * m))
      quarter_mask m = omega arith

      quarter : (b : ℕ) → b / 2 / 2 ≡ b / 4
      quarter b = omega arith

  pairs-split :
      bit_and (a / 2) 0x55 ≤ a → pairs_of (suc n) (a + 256 * b) ≡ byte_pairs a + 256 * pairs_of n b
  pairs-split h = omega (arith, half-split, h, bit_and-le (b / 2) (repeated n 0x55))

  nibbles-split : nibbles_of (suc n) (a + 256 * b) ≡ byte_nibbles a + 256 * nibbles_of n b
  nibbles-split =
      omega (arith, bit_and-split 8 a b 0x33 (repeated n 0x33) ha (omega arith), quarter-split)

  -- No carry leaves the low half of a byte.
  bytes-split :
      a % 16 ≤ 4
      → a / 16 ≤ 4
      → b % 16 ≤ 4
      → bytes_of (suc n) (a + 256 * b) ≡ (a % 16 + a / 16) + 256 * bytes_of n b
  bytes-split low high next = omega (
    arith,
    bit_and-split 8 (a % 16 + a / 16 + 16 * (a / 16 + b % 16)) (b + b / 16) 0xf (repeated n 0xf)
        (omega arith) (omega arith),
    ap (λ x. bit_and x (repeated (suc n) 0xf)) (columns a b),
    low_nibble (a % 16 + a / 16 + 16 * (a / 16 + b % 16)) (omega arith),
  )
    where
      columns :
          (a b : ℕ)
          → a + 256 * b + (a + 256 * b) / 16
            ≡ a % 16 + a / 16 + 16 * (a / 16 + b % 16) + 2 ^ 8 * (b + b / 16)
      columns a b = omega arith

-- The sum of `n` bytes, and that each is at most 8
abbrev byte_sum : ℕ → ℕ → ℕ
byte_sum zero x = 0
byte_sum (suc n) x = x % 256 + byte_sum n (x / 256)

abbrev Small : ℕ → ℕ → Type 0
Small zero x = x ≡ 0
Small (suc n) x = (x % 256 ≤ 8) × Small n (x / 256)

record Counted (n w : ℕ) : Type 0 where
  low : nibbles_of n (pairs_of n w) % 16 ≤ 4
  bounded : nibbles_of n (pairs_of n w) ≤ repeated n 0x44
  small : Small n (bytes_of n (nibbles_of n (pairs_of n w)))
  sums : byte_sum n (bytes_of n (nibbles_of n (pairs_of n w))) ≡ ones (8 * n) w

abbrev counted_byte : ℕ → ℕ
counted_byte a = byte_nibbles (byte_pairs a)

abbrev counted_rest : ℕ → ℕ → ℕ
counted_rest n b = nibbles_of n (pairs_of n b)

-- One byte more
step-Counted : (n a b : ℕ) → a < 256 → Counted n b → Counted (suc n) (a + 256 * b)
step-Counted n a b ha k = record {
  low = omega (arith, folded, byte, k.low);
  bounded = omega (arith, folded, byte, k.bounded);
  small = (omega (arith, summed, byte), rw high_bytes k.small);
  sums = omega (
    arith,
    summed,
    byte,
    k.sums,
    ap (byte_sum n) high_bytes,
    ones-split 8 (8 * n) a b ha,
    ap (λ m. ones m (a + 256 * b)) (next_digits n),
  );
}
  where
    byte :
        (bit_and (a / 2) 0x55 ≤ a)
        × (counted_byte a ≤ 0x44)
        × (counted_byte a % 16 ≤ 4)
        × (counted_byte a % 16 + counted_byte a / 16 ≡ ones 8 a)
    byte = byte_lem a ha

    folded :
        nibbles_of (suc n) (pairs_of (suc n) (a + 256 * b))
        ≡ counted_byte a + 256 * counted_rest n b
    folded =
        ap (nibbles_of (suc n)) (pairs-split n a b ha byte.0)
        ∙ nibbles-split n (byte_pairs a) (pairs_of n b) (omega arith)

    summed :
        bytes_of (suc n) (nibbles_of (suc n) (pairs_of (suc n) (a + 256 * b)))
        ≡ (counted_byte a % 16 + counted_byte a / 16) + 256 * bytes_of n (counted_rest n b)
    summed =
        ap (bytes_of (suc n)) folded
        ∙ bytes-split n (counted_byte a) (counted_rest n b) (omega (arith, byte))
            (omega (arith, byte)) (omega (arith, byte)) k.low

    high_bytes :
        bytes_of (suc n) (nibbles_of (suc n) (pairs_of (suc n) (a + 256 * b))) / 256
        ≡ bytes_of n (counted_rest n b)
    high_bytes = omega (arith, summed, byte)

    next_digits : (n : ℕ) → 8 * suc n ≡ 8 + 8 * n
    next_digits n = omega arith

count-Counted : (n w : ℕ) → w < 256 ^ n → Counted n w
unfolding sum_below
count-Counted zero w lt =
    let none : w ≡ 0 = omega arith in
    rw none (record { low = omega arith; bounded = omega arith; small = refl; sums = refl })
count-Counted (suc n) w lt = rw (as_byte w) (
    step-Counted n (w % 256) (w / 256) (omega arith)
      (count-Counted n (w / 256) (omega (arith, pow-suc 256 n))))
  where
    as_byte : (w : ℕ) → w ≡ w % 256 + 256 * (w / 256)
    as_byte w = omega arith

-- The product adds the four bytes in the highest.
add_bytes : (x : ℕ) → x < 2 ^ 32 → Small 4 x → x * 0x01010101 % 2 ^ 32 / 2 ^ 24 ≡ byte_sum 4 x
add_bytes x lt (h0, (h1, (h2, (h3, _)))) = omega arith

pairs-word : (w : ℕ) → w < 2 ^ 32 → pairs w ≡ pairs_of 4 w
unfolding pairs
pairs-word w lt = omega (arith, bit_and-le (w / 2) 0x55555555)

nibbles-word : (p : ℕ) → nibbles_of 4 p ≤ repeated 4 0x44 → nibbles p ≡ nibbles_of 4 p
unfolding nibbles
nibbles-word p le = omega (arith, le)

no_overflow : (c : ℕ) → c ≤ repeated 4 0x44 → (c + c / 16) % 2 ^ 32 ≡ c + c / 16
no_overflow c le = omega (arith, le)

sum_bytes-word :
    (c : ℕ) → c ≤ repeated 4 0x44 → Small 4 (bytes_of 4 c) → sum_bytes c ≡ byte_sum 4 (bytes_of 4 c)
unfolding sum_bytes
sum_bytes-word c le small =
    ap (λ x. bit_and x 0x0f0f0f0f * 0x01010101 % 2 ^ 32 / 2 ^ 24) (no_overflow c le)
    ∙ add_bytes (bytes_of 4 c) (omega (arith, le, bit_and-le (c + c / 16) 0x0f0f0f0f)) small

-- A word counts the digits of it that are set.
count_word-ones : (w : ℕ) → w < 2 ^ 32 → count_word w ≡ ones 32 w
unfolding count_word
count_word-ones w lt =
    let k = count-Counted 4 w (omega arith) in
    ap (λ x. sum_bytes (nibbles x)) (pairs-word w lt)
    ∙ ap sum_bytes (nibbles-word (pairs_of 4 w) k.bounded)
    ∙ sum_bytes-word (nibbles_of 4 (pairs_of 4 w)) k.bounded k.small
    ∙ k.sums

-- The number of bits that are set, among the first `n` of a bitmap
abbrev pub set_below : Bitmap → ℕ → ℕ
set_below bm n = sum_below (bit bm) n

word_bits : (bm : Bitmap) (n : ℕ) → sum_below (λ j. bit bm (n * 32 + j)) 32 ≡ ones 32 (bm n)
word_bits bm n =
    sum_below-ext (λ j. bit bm (n * 32 + j)) (digit (bm n)) 32
      λ j lt.
        ap₂ (λ i k. digit (bm i) k) {u = off (n * 32 + j)} {v = j} (place n j lt) (omega arith)
  where
    place : (n j : ℕ) → j < 32 → (n * 32 + j) / 32 ≡ n
    place n j lt = omega arith

set_below-suc :
    (bm : Bitmap) (n : ℕ) → set_below bm (suc n * 32) ≡ set_below bm (n * 32) + ones 32 (bm n)
set_below-suc bm n =
    omega
      (arith, ap (set_below bm) (next_word n), sum_below-add (bit bm) (n * 32) 32, word_bits bm n)
  where
    next_word : (n : ℕ) → suc n * 32 ≡ n * 32 + 32
    next_word n = omega arith

set_clear-total : (bm : Bitmap) (n : ℕ) → set_below bm n + sum_below (λ i. 1 - bit bm i) n ≡ n
unfolding sum_below
set_clear-total bm zero = refl
set_clear-total bm (suc n) = omega (arith, set_clear-total bm n, digit-lt (bm (idx n)) (off n))

count_words-set_below :
    (bm : Bitmap) (n : ℕ) → IsWords bm → n * 32 < 2 ^ 32 → count_words bm n ≡ set_below bm (n * 32)
unfolding count_words sum_below
count_words-set_below bm zero w small = refl
count_words-set_below bm (suc n) w small = omega (
  arith,
  count_words-set_below bm n w (omega arith),
  count_word-ones (bm n) (w n),
  set_below-suc bm n,
  set_clear-total bm (suc n * 32),
)

-- On a bitmap of `4 * n` bytes with fewer than 2 ^ 32 bits, the counts of set and of clear bits,
-- which add up the parts of each word in parallel, are the numbers of bits that are 1 and 0.
pub bitmap_nset-counts :
    (bm : Bitmap) (n : ℕ)
    → IsWords bm
    → n * 32 < 2 ^ 32
    → (bitmap_nset bm (n * 4) ≡ sum_below (bit bm) (n * 32))
      × (bitmap_nclear bm (n * 4) ≡ sum_below (λ i. 1 - bit bm i) (n * 32))
unfolding bitmap_nset bitmap_nclear
bitmap_nset-counts bm n w small = (set_bits, omega (arith, set_bits, set_clear-total bm (n * 32)))
  where
    words : (n : ℕ) → n * 4 / 4 ≡ n
    words n = omega arith

    set_bits : count_words bm (n * 4 / 4) ≡ set_below bm (n * 32)
    set_bits = ap (count_words bm) (words n) ∙ count_words-set_below bm n w small
