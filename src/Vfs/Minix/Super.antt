-- ===== src/Vfs/Minix/Super.antt =====
-- src/sys/fs/vfs/minix/super.c: the superblock of a Minix file system, and its two bitmaps.
pub mod Layout
pub mod Mount
use multikernel.Common.{
  ℕ, ◌+◌, ◌-◌, ◌*◌, ◌/◌, ◌%◌, Bool, not, Option, none, some, ℤ, pos, ltb, ◌==◌, if◌then◌else◌,
  Result, ok, err, Status, einval, enomem,
}
use multikernel.Bitmap.{Bitmap}
use multikernel.Vfs.Disk.{Data, Disks, ramdisk_read, ramdisk_write}
use multikernel.Vfs.Minix.{Superblock, is_bad_super, minix_block_size, sizeof_d_superblock}
use multikernel.Vfs.Minix.Bytes.{half_at, word_at, half_byte, word_byte}

-- The layout of the packed structure `d_superblock`, and of the words of a bitmap
module _ (big : Bool) where
  pub super_bytes : Superblock → Data
  super_bytes sb k =
      if ltb k 2
      then half_byte big sb.s_ninodes k
      else if ltb k 4
      then half_byte big sb.s_nblocks (k - 2)
      else if ltb k 6
      then half_byte big sb.s_imap_nblocks (k - 4)
      else if ltb k 8
      then half_byte big sb.s_bmap_nblocks (k - 6)
      else if ltb k 10
      then half_byte big sb.s_first_data_block (k - 8)
      else if ltb k 12
      then half_byte big sb.unused1 (k - 10)
      else if ltb k 16
      then word_byte big sb.s_max_size (k - 12)
      else half_byte big sb.s_magic (k - 16)

  pub super_of : Data → Superblock
  super_of b = record {
    s_ninodes = half_at big b 0;
    s_nblocks = half_at big b 2;
    s_imap_nblocks = half_at big b 4;
    s_bmap_nblocks = half_at big b 6;
    s_first_data_block = half_at big b 8;
    unused1 = half_at big b 10;
    s_max_size = word_at big b 12;
    s_magic = half_at big b 16;
  }

  abbrev pub bitmap_bytes : Bitmap → Data
  bitmap_bytes bm k = word_byte big (bm (k / 4)) (k % 4)

  abbrev pub bitmap_of : Data → Bitmap
  bitmap_of b i = word_at big b (i * 4)

-- `if (err < 0) return (err);`, after a write and after a read
abbrev pub then_write : Result ℕ × Disks → (Disks → Status × Disks) → Status × Disks
then_write (ok n, disks) next = next disks
then_write (err e, disks) next = (err e, disks)

abbrev pub then_read {ℓ} : {A : Type ℓ} → Result ℕ × Data → (Data → Result A) → Result A
then_read (ok n, b) next = next b
then_read (err e, b) next = err e

-- What `umalloc` gave: a null pointer, or memory with what was in it
abbrev pub in_memory {ℓ} : {A : Type ℓ} → Option Data → (Data → Result A) → Result A
in_memory none next = err enomem
in_memory (some b) next = next b

abbrev pub written : Result ℕ × Disks → Status × Disks
written out = then_write out (λ disks. (ok tt, disks))

-- The offset of the zone map
abbrev pub zmap_offset : Superblock → ℕ
zmap_offset sb = (2 + sb.s_imap_nblocks) * minix_block_size

module _ (size : ℕ) (big : Bool) where
  -- The zone map and the i-node map, in the order of the arguments. After an error the objects that
  -- the pointers are to do not count.
  pub read_maps :
      Disks → ℕ → Option Data → Option Data → Superblock → Result (Superblock × Bitmap × Bitmap)
  read_maps disks dev mem mem' sb = in_memory mem (λ b.
      then_read
        (ramdisk_read size disks dev b (sb.s_imap_nblocks * minix_block_size)
          (pos (2 * minix_block_size)))
        (λ imap. in_memory mem' (λ b'.
          then_read
            (ramdisk_read size disks dev b' (sb.s_bmap_nblocks * minix_block_size)
              (pos (zmap_offset sb)))
            (λ zmap. ok (sb, bitmap_of big zmap, bitmap_of big imap)))))

  -- The two calls of `umalloc` give `mem` and `mem'`, and `sb` is what the structure holds before.
  pub minix_super_read :
      Disks → ℕ → Superblock → Option Data → Option Data → Result (Superblock × Bitmap × Bitmap)
  unfolding super_bytes super_of read_maps
  minix_super_read disks dev sb mem mem' =
      then_read
        (ramdisk_read size disks dev (super_bytes big sb) sizeof_d_superblock
          (pos (1 * minix_block_size)))
        (λ b.
          if is_bad_super (super_of big b)
          then err einval
          else read_maps disks dev mem mem' (super_of big b))

  pub write_maps : Superblock → Bitmap → Bitmap → ℕ → Disks → Status × Disks
  write_maps sb zmap imap dev disks =
      then_write
        (ramdisk_write size disks dev (bitmap_bytes big imap) (sb.s_imap_nblocks * minix_block_size)
          (pos (2 * minix_block_size)))
        (λ disks'. written (
          ramdisk_write size disks' dev (bitmap_bytes big zmap)
            (sb.s_bmap_nblocks * minix_block_size) (pos (zmap_offset sb))))

  pub minix_super_write : Disks → ℕ → Superblock → Bitmap → Bitmap → Status × Disks
  unfolding super_bytes write_maps
  minix_super_write disks dev sb zmap imap =
      then_write
        (ramdisk_write size disks dev (super_bytes big sb) sizeof_d_superblock
          (pos (1 * minix_block_size)))
        (λ disks'.
          if is_bad_super sb then (err einval, disks') else write_maps sb zmap imap dev disks')
