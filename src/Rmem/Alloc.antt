-- ===== src/Rmem/Alloc.antt =====
-- Allocation and release of remote blocks.
use mathlib.Core.Path.{subst, subst₂}
use multikernel.Common.{
  pos, Result, some_inj, ℕ, ◌/◌, ◌%◌, ◌<◌, ◌≡◌, refl, sym, ap, ◌∙◌, ◌≢◌, ◌⊎◌, inl, inr, false, some,
  ℤ, arith, ◌==◌, ==_iff, ◌==ℤ◌, ==ℤ_iff, if◌then◌else◌, Bool-cases, ok, err, enomem,
}
use multikernel.Bitmap.{bitmap_full}
use multikernel.Bitmap.Laws.{bit, bit-set, check-bit, bitmap_first_free_lem}
use multikernel.Bits.{digit-lt}
use multikernel.Rmem.{
  Rmem, Request, zero_block, rmem_num_blocks, rmem_null, rmem_block, rmem_block_num, take_block,
  free_block, is_invalid, is_clear, do_rmem_alloc, do_rmem_free,
}
use multikernel.Rmem.Address.{rmem_block_roundtrip}
use multikernel.Rmem.Valid.{IsValid, used_full, used_two, take_block-IsValid, free_block-IsValid}

-- What `do_rmem_alloc` does with a block that is free.
abbrev pub Allocates : Rmem → Request → ℕ → Type 0
Allocates s request b =
    (b ≢ rmem_null)
    × (b < rmem_num_blocks)
    × (bit s.bitmap b ≡ 0)
    × (s.blocks b ≡ zero_block)
    × (do_rmem_alloc s request ≡ some (take_block s (pos request.source) b))

abbrev pub AllocatesLowest : Rmem → Request → Type 0
AllocatesLowest s request =
    ((s.nblocks ≡ rmem_num_blocks) × (do_rmem_alloc s request ≡ some (err enomem, s)))
    ⊎ ((b : ℕ) × (s.nblocks ≢ rmem_num_blocks)
        × Allocates s request b
        × ((j : ℕ) → j < b → bit s.bitmap j ≡ 1))

-- In a valid state allocation always returns: with ENOMEM, and no change, exactly if all blocks are
-- taken; otherwise with the lowest free block, which is not the null block and holds zeros.
pub do_rmem_alloc_lem : (s : Rmem) (request : Request) → IsValid s → AllocatesLowest s request
unfolding do_rmem_alloc
do_rmem_alloc_lem s request v = elim (Bool-cases (s.nblocks == rmem_num_blocks)) [
  | inl full ↦ inl ((==_iff s.nblocks rmem_num_blocks).0 full, rw full)
  | inr room ↦ elim (bitmap_first_free_lem s.bitmap 256 v.words (omega arith)) [
    | inl (e, set) ↦ absurd (ground (arith, v.counted, used_full s.bitmap rmem_num_blocks set))
    | inr (b, e, lt, clear, before) ↦ inr (
      b,
      (λ eq. ground (arith, room, eq)),
      (
        (λ z. omega (arith, clear, v.null_used, ap (bit s.bitmap) z)),
        lt,
        clear,
        v.clean b lt clear,
        rw (room, e) (rw (not_full b lt)),
      ),
      before,
    )
  ]
]
  where
    not_full : (b : ℕ) → b < 8192 → (b == bitmap_full) ≡ false
    not_full b lt = ground arith

-- Allocation keeps the invariant.
pub do_rmem_alloc-IsValid :
    (s s' : Rmem) (request : Request) (r : Result ℕ)
    → IsValid s
    → do_rmem_alloc s request ≡ some (r, s')
    → IsValid s'
do_rmem_alloc-IsValid s s' request r v e = elim (do_rmem_alloc_lem s request v) [
  | inl (_, e') ↦ subst (λ p. IsValid p.1) (some_inj _ _ (sym e' ∙ e)) v
  | inr (b, _, (_, lt, clear, _, e'), _) ↦
      subst (λ p. IsValid p.1) (some_inj _ _ (sym e' ∙ e))
        (take_block-IsValid s (pos request.source) b v lt clear)
]

-- What an allocation of block `b` has done to the server.
pub record Allocated (s s' : Rmem) (request : Request) (b : ℕ) : Type 0 where
  pub not_null : b ≢ rmem_null
  pub within : b < rmem_num_blocks
  pub was_free : bit s.bitmap b ≡ 0
  pub was_clean : s'.blocks b ≡ zero_block
  pub taken : (j : ℕ) → bit s'.bitmap j ≡ (if b == j then 1 else bit s.bitmap j)
  pub owned : (j : ℕ) → s'.owners j ≡ (if b == j then (pos request.source) else s.owners j)
  pub kept : s'.blocks ≡ s.blocks

take_block-Allocated :
    (s : Rmem) (request : Request) (b : ℕ)
    → IsValid s
    → b ≢ rmem_null
    → b < rmem_num_blocks
    → bit s.bitmap b ≡ 0
    → Allocated s (take_block s (pos request.source) b).1 request b
unfolding take_block
take_block-Allocated s request b v ne lt clear = record {
  not_null = ne;
  within = lt;
  was_free = clear;
  was_clean = v.clean b lt clear;
  taken = λ j. bit-set s.bitmap b j;
  owned = λ j. refl;
  kept = refl;
}

ok_inj : (a b : ℕ) → ok a ≡ ok b → a ≡ b
ok_inj a b h = cc

err_ne_ok : (n : ℕ) → err enomem ≡ ok n → ⊥
err_ne_ok n h = cc

number_of :
    (s s' : Rmem) (n : ℕ) (owner : ℤ) (b : ℕ)
    → take_block s owner b ≡ (ok n, s')
    → rmem_block s.serverid b ≡ n
unfolding take_block
number_of s s' n owner b h = ok_inj _ _ (ap (λ p. p.0) h)

no_error : (t u : Rmem) (n : ℕ) → ◌≡◌ {A = Result ℕ × Rmem} (err enomem, t) (ok n, u) → ⊥
no_error t u n h = err_ne_ok n (ap (λ p. p.0) h)

-- In a valid state of a server whose number is below 256, an allocation that succeeds returns the
-- address of a block that was free and holds zeros; it gives that block to the caller, and changes
-- no other block's allocation or owner, and no block's content.
pub do_rmem_alloc-Allocated :
    (s s' : Rmem) (request : Request) (n : ℕ)
    → IsValid s
    → s.serverid < 256
    → do_rmem_alloc s request ≡ some (ok n, s')
    → Allocated s s' request (rmem_block_num n)
do_rmem_alloc-Allocated s s' request n v hs e = elim (do_rmem_alloc_lem s request v) [
  | inl (_, e') ↦ absurd (no_error s s' n (some_inj _ _ (sym e' ∙ e)))
  | inr (b, _, (ne, lt, clear, _, e'), _) ↦
      let same : take_block s (pos request.source) b ≡ (ok n, s') = some_inj _ _ (sym e' ∙ e) in
      subst₂ (λ x t. Allocated s t request x)
        (sym (rmem_block_roundtrip s.serverid b hs (omega arith)).0
          ∙ ap rmem_block_num (number_of s s' n (pos request.source) b same))
        (ap (λ p. p.1) same) (take_block-Allocated s request b v ne lt clear)
]

-- Who may free which block.
abbrev pub MayFree : Rmem → Request → Type 0
MayFree s request =
    (rmem_block_num request.blknum ≢ rmem_null)
    × (rmem_block_num request.blknum < rmem_num_blocks)
    × (bit s.bitmap (rmem_block_num request.blknum) ≡ 1)
    × (s.owners (rmem_block_num request.blknum) ≡ (pos request.source))

abbrev pub FreesOwned : Rmem → Request → Type 0
FreesOwned s request =
    (MayFree s request
      × (do_rmem_free s request ≡ (ok tt, free_block s (rmem_block_num request.blknum))))
    ⊎ (¬ MayFree s request
        × ((do_rmem_free s request).0 ≢ ok tt)
        × ((do_rmem_free s request).1 ≡ s))

-- In a valid state a release succeeds exactly if it names an allocated block, other than the null
-- block, that the caller owns; then the block is free and holds zeros.  Any other is refused and
-- changes nothing.
pub do_rmem_free_lem : (s : Rmem) (request : Request) → IsValid s → FreesOwned s request
unfolding do_rmem_free
do_rmem_free_lem s request v =
    let b = rmem_block_num request.blknum in
    elim (Bool-cases (is_invalid b)) [
      | inl bad ↦ inr ((λ m. ground arith), rw bad (λ h. cc), rw bad)
      | inr good ↦ elim (Bool-cases (is_clear s b)) [
        | inl clear ↦ inr ((λ m. ground (arith, check-bit s.bitmap b)), ground arith, ground arith)
        | inr set ↦ elim (Bool-cases (s.owners b ==ℤ pos request.source)) [
          | inl own ↦ inl (
            (
              (λ z. ground arith),
              ground arith,
              ground (arith, check-bit s.bitmap b, digit-lt (s.bitmap (b / 32)) (b % 32)),
              (==ℤ_iff (s.owners b) (pos request.source)).0 own,
            ),
            ground (
              arith,
              v.counted,
              used_two s.bitmap rmem_num_blocks b,
              v.null_used,
              check-bit s.bitmap b,
              digit-lt (s.bitmap (b / 32)) (b % 32),
            ),
          )
          | inr other ↦ inr (
            (λ m. ground (arith, ==ℤ_iff (s.owners b) (pos request.source))),
            ground arith,
            ground arith,
          )
        ]
      ]
    ]

-- Release keeps the invariant.
pub do_rmem_free-IsValid :
    (s : Rmem) (request : Request) → IsValid s → IsValid (do_rmem_free s request).1
do_rmem_free-IsValid s request v = elim (do_rmem_free_lem s request v) [
  | inl ((ne, lt, set, _), e) ↦
      rw e (free_block-IsValid s (rmem_block_num request.blknum) v lt ne set)
  | inr (_, _, e) ↦ rw e v
]
