-- ===== src/Vfs/Minix/Super/Layout.antt =====
-- The bytes of a superblock and of a map: reading the structures gives what was written to them.
use multikernel.Common.{ℕ, ◌+◌, ◌*◌, ◌/◌, ◌%◌, ◌^◌, ◌<◌, ◌≡◌, refl, Bool, arith, ap, ap₂, ◌∙◌}
use multikernel.Bitmap.{Bitmap}
use multikernel.Bitmap.Laws.{IsWords}
use multikernel.Vfs.Disk.{Data}
use multikernel.Vfs.Minix.{Superblock, minix_block_size, sizeof_d_superblock}
use multikernel.Vfs.Minix.Bytes.{word_byte, half-bytes, word-bytes}
use multikernel.Vfs.Minix.Super.{super_bytes, super_of, bitmap_bytes, bitmap_of}

-- Each field is a number of its width.
pub record IsSuper (sb : Superblock) : Type 0 where
  pub ninodes : sb.s_ninodes < 2 ^ 16
  pub nblocks : sb.s_nblocks < 2 ^ 16
  pub imap_nblocks : sb.s_imap_nblocks < 2 ^ 16
  pub bmap_nblocks : sb.s_bmap_nblocks < 2 ^ 16
  pub first : sb.s_first_data_block < 2 ^ 16
  pub unused : sb.unused1 < 2 ^ 16
  pub max_size : sb.s_max_size < 2 ^ 32
  pub magic : sb.s_magic < 2 ^ 16

-- The superblock is read from its bytes.
pub super-bytes :
    (big : Bool) (sb : Superblock) (b : Data)
    → IsSuper sb
    → ((k : ℕ) → k < sizeof_d_superblock → b k ≡ super_bytes big sb k)
    → super_of big b ≡ sb
unfolding super_of super_bytes
super-bytes big sb b w h =
    rw
      (
        half-bytes big b 0 sb.s_ninodes w.ninodes (h 0 (omega arith)) (h 1 (omega arith)),
        half-bytes big b 2 sb.s_nblocks w.nblocks (h 2 (omega arith)) (h 3 (omega arith)),
        half-bytes big b 4 sb.s_imap_nblocks w.imap_nblocks (h 4 (omega arith)) (h 5 (omega arith)),
        half-bytes big b 6 sb.s_bmap_nblocks w.bmap_nblocks (h 6 (omega arith)) (h 7 (omega arith)),
        half-bytes big b 8 sb.s_first_data_block w.first (h 8 (omega arith)) (h 9 (omega arith)),
        half-bytes big b 10 sb.unused1 w.unused (h 10 (omega arith)) (h 11 (omega arith)),
        word-bytes big b 12 sb.s_max_size w.max_size (h 12 (omega arith)) (h 13 (omega arith))
            (h 14 (omega arith)) (h 15 (omega arith)),
        half-bytes big b 16 sb.s_magic w.magic (h 16 (omega arith)) (h 17 (omega arith)),
      )
      refl

-- So is a word of a bitmap.
pub map-bytes :
    (big : Bool) (bm : Bitmap) (b : Data) (n : ℕ)
    → IsWords bm
    → ((k : ℕ) → k < n * minix_block_size → b k ≡ bitmap_bytes big bm k)
    → (i : ℕ) → i < n * 256
    → bitmap_of big b i ≡ bm i
map-bytes big bm b n w h i lt =
    word-bytes big b (i * 4) (bm i) (w i) (ap b (add_zero i) ∙ part 0 (omega arith))
      (part 1 (omega arith)) (part 2 (omega arith)) (ap b (three i) ∙ part 3 (omega arith))
  where
    add_zero : (i : ℕ) → i * 4 ≡ i * 4 + 0
    add_zero i = omega arith

    three : (i : ℕ) → i * 4 + 2 + 1 ≡ i * 4 + 3
    three i = omega arith

    quot : (i r : ℕ) → r < 4 → (i * 4 + r) / 4 ≡ i
    quot i r lt = omega arith

    rest : (i r : ℕ) → r < 4 → (i * 4 + r) % 4 ≡ r
    rest i r lt = omega arith

    part : (r : ℕ) → r < 4 → b (i * 4 + r) ≡ word_byte big (bm i) r
    part r hr =
        h (i * 4 + r) (omega arith)
        ∙ ap₂ (λ x y. word_byte big (bm x) y) (quot i r hr) (rest i r hr)
