-- ===== src/Bitmap.antt =====
-- src/libruntime/utils/bitmap.c, and the bitmap macros of include/nanvix/runtime/utils.h.
-- A bitmap is an array of words of 32 bits; its size is given in bytes, as the C functions take it.
mod Tests
pub mod Laws
pub mod Count
use Prim.Native.Nat.{bit_and, bit_or}
use multikernel.Common.{
  ℕ, suc, ◌+◌, ◌-◌, ◌*◌, ◌/◌, ◌%◌, ◌^◌, ◌==◌, Bool, not, Option, none, some, update, search_array,
}

abbrev pub Bitmap : Type 0
Bitmap = ℕ → ℕ

-- BITMAP_WORD_SHIFT, BITMAP_WORD_LENGTH and BITMAP_FULL
abbrev pub bitmap_word_shift : ℕ
bitmap_word_shift = 5

abbrev pub bitmap_word_length : ℕ
bitmap_word_length = 32

abbrev pub bitmap_full : ℕ
bitmap_full = 0xffffffff

-- IDX and OFF: `a >> BITMAP_WORD_SHIFT` and `a & 0x1F`
abbrev pub idx : ℕ → ℕ
idx a = a / 32

abbrev pub off : ℕ → ℕ
off a = a % 32

-- `bitmap[IDX(pos)] |= (0x1 << OFF(pos))`
unfoldable pub bitmap_set : Bitmap → ℕ → Bitmap
bitmap_set bm pos = update bm (idx pos) (bit_or (bm (idx pos)) (2 ^ off pos))

-- `bitmap[IDX(pos)] &= ~(0x1 << OFF(pos))`
pub bitmap_clear : Bitmap → ℕ → Bitmap
bitmap_clear bm pos = update bm (idx pos) (bit_and (bm (idx pos)) (2 ^ 32 - 1 - 2 ^ off pos))

pub bitmap_check_bit : Bitmap → ℕ → ℕ
bitmap_check_bit bm i = bit_and (bm (idx i)) (2 ^ off i)

-- `while (*idx & (0x1 << off)) off++`, within the 32 bits of a word: `none` is a run past them,
-- where the shift of C is undefined.
pub first_clear : ℕ → Option ℕ
unfolding search_array
first_clear w = search_array (λ k. bit_and w (2 ^ k) == 0) bitmap_word_length

-- `((idx - bitmap) << BITMAP_WORD_SHIFT) + off`, as a `bitmap_t`
abbrev pub bit_number : ℕ → ℕ → ℕ
bit_number i k = (i * 32 + k) % 2 ^ 32

abbrev pub number_in : ℕ → Option ℕ → Option ℕ
number_in i none = none
number_in i (some k) = some (bit_number i k)

abbrev pub first_free_in : Bitmap → Option ℕ → Option ℕ
first_free_in bm none = some bitmap_full
first_free_in bm (some i) = number_in i (first_clear (bm i))

-- The search for a word that is not full, and in it for a clear bit.
unfoldable pub bitmap_first_free : Bitmap → ℕ → Option ℕ
unfolding search_array first_clear
bitmap_first_free bm size =
    first_free_in bm (search_array (λ i. not (bm i == 0xffffffff)) (size / 4))

-- `chunk - ((chunk >> 1) & 0x55555555)`, of 32 bits
pub pairs : ℕ → ℕ
pairs c = (c + 2 ^ 32 - bit_and (c / 2) 0x55555555) % 2 ^ 32

-- `(chunk & 0x33333333) + ((chunk >> 2) & 0x33333333)`
pub nibbles : ℕ → ℕ
nibbles c = (bit_and c 0x33333333 + bit_and (c / 4) 0x33333333) % 2 ^ 32

-- `(((chunk + (chunk >> 4)) & 0x0F0F0F0F) * 0x01010101) >> 24`
pub sum_bytes : ℕ → ℕ
sum_bytes c = bit_and ((c + c / 16) % 2 ^ 32) 0x0f0f0f0f * 0x01010101 % 2 ^ 32 / 2 ^ 24

pub count_word : ℕ → ℕ
unfolding pairs nibbles sum_bytes
count_word w = sum_bytes (nibbles (pairs w))

-- The loop over the first `n` words, with a `count` of 32 bits
pub count_words : Bitmap → ℕ → ℕ
unfolding count_word
count_words bm ℕ.zero = 0
count_words bm (suc n) = (count_words bm n + count_word (bm n)) % 2 ^ 32

pub bitmap_nset : Bitmap → ℕ → ℕ
unfolding count_words
bitmap_nset bm size = count_words bm (size / 4)

-- `(size << 3) - bitmap_nset(bitmap, size)`, of 32 bits
pub bitmap_nclear : Bitmap → ℕ → ℕ
unfolding bitmap_nset
bitmap_nclear bm size = (size * 8 % 2 ^ 32 + 2 ^ 32 - bitmap_nset bm size) % 2 ^ 32
