-- ===== src/Rmem/Valid.antt =====
-- The invariant of the remote memory server: the count of blocks is that of the bitmap, the null
-- block is never free, and a free block holds zeros.
use multikernel.Common.{
  ℕ, ◌+◌, ◌/◌, ◌%◌, ◌≤◌, ◌<◌, ◌≡◌, refl, ap, ◌∙◌, ◌≢◌, inl, inr, arith, ◌==◌, ==_iff, Bool-cases,
  update, sum_below, sum_below_change, sum_below_mono,
}
use multikernel.Bitmap.{Bitmap, bitmap_set, bitmap_clear}
use multikernel.Bitmap.Laws.{
  bit, bit-set, bit-clear, IsWords, bitmap_set-IsWords, bitmap_clear-IsWords,
}
use multikernel.Bits.{digit-zero, digit-lt}
use multikernel.Rmem.{
  Rmem, Block, zero_block, rmem_num_blocks, rmem_null, take_block, free_block, do_rmem_startup,
}

-- The number of bits that are set among the first `n`.
abbrev pub used_below : Bitmap → ℕ → ℕ
used_below bm n = sum_below (bit bm) n

pub record IsValid (s : Rmem) : Type 0 where
  pub words : IsWords s.bitmap
  pub counted : s.nblocks ≡ used_below s.bitmap rmem_num_blocks
  pub null_used : bit s.bitmap rmem_null ≡ 1
  pub clean : (b : ℕ) → b < rmem_num_blocks → bit s.bitmap b ≡ 0 → s.blocks b ≡ zero_block

pub used-le : (bm : Bitmap) (n : ℕ) → used_below bm n ≤ n
unfolding sum_below
used-le bm ℕ.zero = omega arith
used-le bm (ℕ.suc n) = omega (arith, used-le bm n, digit-lt (bm (n / 32)) (n % 32))

-- With every bit set the count is full; with one clear it is not.
pub used_full : (bm : Bitmap) (n : ℕ) → ((j : ℕ) → j < n → bit bm j ≡ 1) → used_below bm n ≡ n
unfolding sum_below
used_full bm ℕ.zero h = refl
used_full bm (ℕ.suc n) h =
    omega (arith, h n (omega arith), used_full bm n (λ j lt. h j (omega arith)))

pub used-set :
    (bm : Bitmap) (n b : ℕ)
    → b < n
    → bit bm b ≡ 0
    → used_below (bitmap_set bm b) n ≡ used_below bm n + 1
used-set bm n b lt clear = ground (
  arith,
  sum_below_change (bit bm) (bit (bitmap_set bm b)) n b lt (λ j ne. bit-set bm b j ∙ ground arith),
  bit-set bm b b,
)

pub used-clear :
    (bm : Bitmap) (n b : ℕ)
    → b < n
    → bit bm b ≡ 1
    → used_below (bitmap_clear bm b) n + 1 ≡ used_below bm n
used-clear bm n b lt set = ground (
  arith,
  sum_below_change (bit bm) (bit (bitmap_clear bm b)) n b lt
      (λ j ne. bit-clear bm b j ∙ ground arith),
  bit-clear bm b b,
)

-- Two bits that are set count for two.
pub used_two :
    (bm : Bitmap) (n b : ℕ) → b < n → b ≢ 0 → bit bm 0 ≡ 1 → bit bm b ≡ 1 → 2 ≤ used_below bm n
used_two bm n b lt ne h0 hb = ground (
  arith,
  used-clear bm n b lt hb,
  sum_below_mono (bit (bitmap_clear bm b)) n 0 (omega arith),
  bit-clear bm b 0,
)

-- Taking a clear block keeps the invariant.
pub take_block-IsValid :
    (s : Rmem) (owner : _) (b : ℕ)
    → IsValid s
    → b < rmem_num_blocks
    → bit s.bitmap b ≡ 0
    → IsValid (take_block s owner b).1
unfolding take_block
take_block-IsValid s owner b v lt clear = record {
  words = bitmap_set-IsWords s.bitmap b v.words;
  counted = omega (
    arith,
    v.counted,
    used-set s.bitmap rmem_num_blocks b lt clear,
    used-le s.bitmap rmem_num_blocks,
  );
  null_used = bit-set s.bitmap b 0 ∙ ground (arith, v.null_used);
  clean = λ j hj free. ground (arith, bit-set s.bitmap b j, v.clean j hj);
}

-- Freeing a block other than the null block keeps the invariant.
pub free_block-IsValid :
    (s : Rmem) (b : ℕ)
    → IsValid s
    → b < rmem_num_blocks
    → b ≢ 0
    → bit s.bitmap b ≡ 1
    → IsValid (free_block s b)
unfolding free_block
free_block-IsValid s b v lt ne set = record {
  words = bitmap_clear-IsWords s.bitmap b v.words;
  counted = omega (
    arith,
    v.counted,
    used-clear s.bitmap rmem_num_blocks b lt set,
    used-le s.bitmap rmem_num_blocks,
  );
  null_used = bit-clear s.bitmap b 0 ∙ ground (arith, v.null_used);
  clean = λ j hj free. ground (arith, bit-clear s.bitmap b j, v.clean j hj);
}

-- So does a write to a block that is set.
pub write-IsValid :
    (s : Rmem) (b : ℕ) (block : Block)
    → IsValid s
    → bit s.bitmap b ≡ 1
    → IsValid (record s { blocks = update s.blocks b block })
write-IsValid s b block v set = record {
  words = v.words;
  counted = v.counted;
  null_used = v.null_used;
  clean = λ j hj free. elim (Bool-cases (b == j)) [
    | inl hit ↦ absurd (omega (arith, set, free, ap (bit s.bitmap) ((==_iff b j).0 hit)))
    | inr miss ↦ rw miss (v.clean j hj free)
  ];
}

used_none : (n : ℕ) → used_below (λ i. 0) n ≡ 0
unfolding sum_below
used_none ℕ.zero = refl
used_none (ℕ.suc n) = omega (arith, used_none n, digit-zero (n % 32))

-- What the server starts with is valid.
pub do_rmem_startup-IsValid : (serverid : ℕ) → IsValid (do_rmem_startup serverid)
unfolding do_rmem_startup
do_rmem_startup-IsValid serverid = record {
  words = bitmap_set-IsWords (λ i. 0) 0 (λ i. omega arith);
  counted =
      omega
        (arith, used-set (λ i. 0) rmem_num_blocks 0 (omega arith) refl, used_none rmem_num_blocks);
  null_used = bit-set (λ i. 0) 0 0;
  clean = λ b lt h. refl;
}
