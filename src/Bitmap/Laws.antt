-- ===== src/Bitmap/Laws.antt =====
-- A bitmap as a set of numbers: what setting, clearing and testing a bit do to the whole of it,
-- and that the search for a free bit finds the lowest.
use Prim.Native.Nat.{bit_and}
use multikernel.Common.{
  Option, ℕ, ◌+◌, ◌-◌, ◌*◌, ◌/◌, ◌%◌, ◌^◌, ◌<◌, ◌≡◌, refl, sym, ap, ap₂, ◌∙◌, ◌⊎◌, inl, inr, Bool,
  true, false, not, some, arith, ◌==◌, ==_iff, if◌then◌else◌, Bool-cases, search-cases,
}
use multikernel.Bits.{
  digit, digit-lt, digit-ones, digit-bit_and, digit-bit_or, digit-pow, digit-mask, mask-lt,
  pow-lt_pow, bit_and-lt, bit_or-lt, bit_and-pow_iff, full_of_digits,
}
use multikernel.Bitmap.{
  Bitmap, idx, off, bitmap_full, bitmap_set, bitmap_clear, bitmap_check_bit, first_clear,
  bitmap_first_free,
}

-- The bit at a position of the bitmap.
abbrev pub bit : Bitmap → ℕ → ℕ
bit bm i = digit (bm (idx i)) (off i)

-- Every word is one of 32 bits.
abbrev pub IsWords : Bitmap → Type 0
IsWords bm = (i : ℕ) → bm i < 2 ^ 32

-- Setting a bit sets it and no other.
pub bit-set :
    (bm : Bitmap) (pos j : ℕ) → bit (bitmap_set bm pos) j ≡ (if pos == j then 1 else bit bm j)
unfolding bitmap_set
bit-set bm pos j = elim (Bool-cases (idx pos == idx j)) [
  | inr miss ↦ ground arith
  | inl hit ↦ ground (
    arith,
    digit-bit_or (bm (idx pos)) (2 ^ off pos) (off j),
    digit-pow (off pos) (off j),
    digit-lt (bm (idx j)) (off j),
  )
]

-- Clearing a bit clears it and no other.
pub bit-clear :
    (bm : Bitmap) (pos j : ℕ) → bit (bitmap_clear bm pos) j ≡ (if pos == j then 0 else bit bm j)
unfolding bitmap_clear
bit-clear bm pos j = elim (Bool-cases (idx pos == idx j)) [
  | inr miss ↦ ground arith
  | inl hit ↦ ground (
    arith,
    digit-bit_and (bm (idx pos)) (2 ^ 32 - 1 - 2 ^ off pos) (off j),
    digit-mask 32 (off pos) (off j),
    digit-lt (bm (idx j)) (off j),
  )
]

-- A clear bit that is set and cleared again leaves the bits as they were.
pub clear-set :
    (bm : Bitmap) (r : ℕ)
    → bit bm r ≡ 0
    → (j : ℕ) → bit (bitmap_clear (bitmap_set bm r) r) j ≡ bit bm j
clear-set bm r free j = elim (Bool-cases (r == j)) [
  | inl hit ↦
      bit-clear (bitmap_set bm r) r j ∙ rw hit (sym (ap (bit bm) (sym ((==_iff r j).0 hit)) ∙ free))
  | inr miss ↦ bit-clear (bitmap_set bm r) r j ∙ rw miss (bit-set bm r j ∙ rw miss refl)
]

-- The test of a bit reads it.
pub check-bit : (bm : Bitmap) (i : ℕ) → (bitmap_check_bit bm i == 0) ≡ (bit bm i == 0)
unfolding bitmap_check_bit
check-bit bm i = bit_and-pow_iff (bm (idx i)) (off i)

pub bitmap_set-IsWords : (bm : Bitmap) (pos : ℕ) → IsWords bm → IsWords (bitmap_set bm pos)
unfolding bitmap_set
bitmap_set-IsWords bm pos w i = elim (Bool-cases (idx pos == i)) [
  | inl hit ↦ rw hit (bit_or-lt 32 _ _ (w (idx pos)) (pow-lt_pow (off pos) 32 (omega arith)))
  | inr miss ↦ rw miss (w i)
]

pub bitmap_clear-IsWords : (bm : Bitmap) (pos : ℕ) → IsWords bm → IsWords (bitmap_clear bm pos)
unfolding bitmap_clear
bitmap_clear-IsWords bm pos w i = elim (Bool-cases (idx pos == i)) [
  | inl hit ↦ rw hit (bit_and-lt 32 _ _ (w (idx pos)) (mask-lt 32 (off pos)))
  | inr miss ↦ rw miss (w i)
]

-- In a word that is not full some bit is clear, so the inner loop stops inside the word.
first_clear-some :
    (w : ℕ)
    → w < 2 ^ 32
    → (w == 0xffffffff) ≡ false
    → (k : ℕ) × (first_clear w ≡ some k)
      × (k < 32)
      × (digit w k ≡ 0)
      × ((j : ℕ) → j < k → digit w j ≡ 1)
unfolding first_clear
first_clear-some w lt h = elim (search-cases (λ k. bit_and w (2 ^ k) == 0) 32) [
  | inr (k, e, f) ↦ (
    k,
    e,
    f.within,
    ground (arith, bit_and-pow_iff w k, f.passes),
    λ j hj. ground (arith, bit_and-pow_iff w j, f.earlier j hj, digit-lt w j),
  )
  | inl (e, none_clear) ↦ absurd (
      ground (
        arith,
        full_of_digits 32 w lt
            (λ j hj. ground (arith, bit_and-pow_iff w j, none_clear j hj, digit-lt w j)),
      ))
]

-- A full word has all its bits set.
full_bits : (w k : ℕ) → (w == 0xffffffff) ≡ true → k < 32 → digit w k ≡ 1
full_bits w k h lt = rw ((==_iff w 0xffffffff).0 h) (ones k lt)
  where
    ones : (k : ℕ) → k < 32 → digit 0xffffffff k ≡ 1
    ones = digit-ones 32

not-false : (b : Bool) → not b ≡ false → b ≡ true
not-false true h = refl
not-false false h = cc

not-true : (b : Bool) → not b ≡ true → b ≡ false
not-true true h = cc
not-true false h = refl

bit_at : (bm : Bitmap) (i k : ℕ) → k < 32 → bit bm (i * 32 + k) ≡ digit (bm i) k
bit_at bm i k h = ap₂ (λ x y. digit (bm x) y) (quot i k h) (rest i k h)
  where
    quot : (i k : ℕ) → k < 32 → (i * 32 + k) / 32 ≡ i
    quot i k h = omega arith

    rest : (i k : ℕ) → k < 32 → (i * 32 + k) % 32 ≡ k
    rest i k h = omega arith

split_index : (i k j : ℕ) → k < 32 → j < i * 32 + k → (j / 32 < i) ⊎ ((j / 32 ≡ i) × (j % 32 < k))
split_index i k j hk h = ground arith

earlier_bits :
    (bm : Bitmap) (i k j : ℕ)
    → k < 32
    → ((m : ℕ) → m < i → not (bm m == 0xffffffff) ≡ false)
    → ((m : ℕ) → m < k → digit (bm i) m ≡ 1)
    → j < i * 32 + k
    → bit bm j ≡ 1
earlier_bits bm i k j hk full ones h = elim (split_index i k j hk h) [
  | inl lt ↦ full_bits (bm (idx j)) (off j) (not-false _ (full (idx j) lt)) (omega arith)
  | inr (e, lt) ↦ ap (λ m. digit (bm m) (off j)) e ∙ ones (off j) lt
]

-- The result of a search for a free bit in `n` words: BITMAP_FULL, or the lowest clear bit.
abbrev pub FindsFree : Bitmap → ℕ → Option ℕ → Type 0
FindsFree bm n result =
    ((result ≡ some bitmap_full) × ((j : ℕ) → j < n * 32 → bit bm j ≡ 1))
    ⊎ ((r : ℕ) × (result ≡ some r)
        × (r < n * 32)
        × (bit bm r ≡ 0)
        × ((j : ℕ) → j < r → bit bm j ≡ 1))

-- On a bitmap of `4 * n` bytes with fewer than 2 ^ 32 bits, the search for a free bit returns the
-- lowest clear bit; or BITMAP_FULL, and then every bit is set.
pub bitmap_first_free_lem :
    (bm : Bitmap) (n : ℕ)
    → IsWords bm
    → n * 32 < 2 ^ 32
    → FindsFree bm n (bitmap_first_free bm (n * 4))
unfolding bitmap_first_free
bitmap_first_free_lem bm n w small =
    rw (words_of_size n) (elim (search-cases (λ i. not (bm i == 0xffffffff)) n) [
      | inl (e, full) ↦ inl (
        rw e,
        λ j hj.
            full_bits (bm (idx j)) (off j) (not-false _ (full (idx j) (omega arith))) (omega arith),
      )
      | inr (i, e, f) ↦
          let found = first_clear-some (bm i) (w i) (not-true _ f.passes) in
          inr (
            i * 32 + found.0,
            rw (e, found.1) (ap some (mod_small i found.0 n f.within found.2 small)),
            within i found.0 n f.within found.2,
            bit_at bm i found.0 found.2 ∙ found.3,
            λ j h. earlier_bits bm i found.0 j found.2 f.earlier found.4 h,
          )
    ])
  where
    words_of_size : (n : ℕ) → n * 4 / 4 ≡ n
    words_of_size n = omega arith

    within : (i k n : ℕ) → i < n → k < 32 → i * 32 + k < n * 32
    within i k n h hk = omega arith

    mod_small : (i k n : ℕ) → i < n → k < 32 → n * 32 < 2 ^ 32 → (i * 32 + k) % 2 ^ 32 ≡ i * 32 + k
    mod_small i k n h hk hn = omega arith
