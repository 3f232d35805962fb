-- ===== src/Vfs/Minix/Block.antt =====
-- src/sys/fs/vfs/minix/block.c: the blocks of a Minix file system, and the map from a file's offsets
-- to them.
mod Tests
pub mod Alloc
pub mod Entry
pub mod Map
use multikernel.Common.{
  ℕ, zero, suc, ◌+◌, ◌-◌, ◌*◌, ◌/◌, ◌%◌, ◌^◌, Bool, ◌&&◌, ◌||◌, not, Option, none, some, ℤ, pos,
  negsuc, ◌==ℤ◌, leb, ltb, ◌==◌, if◌then◌else◌, update, Result, ok, err, Status, einval,
}
use multikernel.Bitmap.{Bitmap, bitmap_full, bitmap_set, bitmap_clear, bitmap_first_free}
use multikernel.Vfs.Disk.{Data, Disks, ramdisk_read, ramdisk_write}
use multikernel.Vfs.Minix.{
  Superblock, DInode, is_bad_super, minix_block_size, minix_block_null, minix_nr_zones_direct,
  minix_zone_single, minix_nr_single,
}
use multikernel.Vfs.Minix.Bytes.{half_at, set_half}

-- The block and the zone map after the search for a free bit
abbrev pub allocated_block : Superblock → Bitmap → Option ℕ → Option (ℕ × Bitmap)
allocated_block sb zmap none = none
allocated_block sb zmap (some bit) =
    if bit == bitmap_full
    then some (minix_block_null, zmap)
    else some ((sb.s_first_data_block + bit) % 2 ^ 16, bitmap_set zmap bit)

-- `none` is a search of the zone map that leaves it.
pub minix_block_alloc : Superblock → Bitmap → Option (ℕ × Bitmap)
unfolding bitmap_first_free
minix_block_alloc sb zmap =
    if is_bad_super sb
    then some (minix_block_null, zmap)
    else allocated_block sb zmap (bitmap_first_free zmap (sb.s_bmap_nblocks * minix_block_size))

-- What `minix_block_map` works on: the zone map, the i-node and the disks
pub record FileMap : Type 0 where
  pub zmap : Bitmap
  pub inode : DInode
  pub disks : Disks

-- `off/MINIX_BLOCK_SIZE` of 16 bits, and `(bitmap_t)off`
abbrev pub logical_block : ℤ → ℕ
logical_block (pos n) = n / minix_block_size % 2 ^ 16
logical_block (negsuc n) = (2 ^ 16 - (n + 1) / minix_block_size % 2 ^ 16) % 2 ^ 16

abbrev pub unsigned_offset : ℤ → ℕ
unsigned_offset (pos n) = n % 2 ^ 32
unsigned_offset (negsuc n) = 2 ^ 32 - 1 - n % 2 ^ 32

abbrev pub with_zone : FileMap → ℕ → Option (ℕ × Bitmap) → Option FileMap
with_zone m i none = none
with_zone m i (some (phys, zmap)) = some (record {
  zmap = zmap;
  inode = record m.inode { i_zones = update m.inode.i_zones i phys };
  disks = m.disks;
})

-- `if (ip->i_zones[i] == MINIX_BLOCK_NULL && create) ip->i_zones[i] = minix_block_alloc(sb, zmap);`
pub zone_filled : Superblock → FileMap → ℕ → Bool → Option FileMap
unfolding minix_block_alloc
zone_filled sb m i create =
    if m.inode.i_zones i == minix_block_null && create
    then with_zone m i (minix_block_alloc sb m.zmap)
    else some m

-- The direct block
abbrev pub zone_of : ℕ → Option FileMap → Option (ℕ × FileMap)
zone_of i none = none
zone_of i (some m) = some (m.inode.i_zones i, m)

-- `before` is what the working buffer holds before it is read.
module _ (size : ℕ) (big : Bool) where
  -- `buf`, read from block `phys`
  abbrev pub entries : Disks → Data → ℕ → Data
  entries disks before phys =
      (ramdisk_read size disks 0 before minix_block_size (pos (phys * minix_block_size))).1

  -- The new entry, and the write of the indirect block
  abbrev pub stored_entry : FileMap → Data → ℕ → ℕ → Option (ℕ × Bitmap) → Option (ℕ × FileMap)
  stored_entry m buf off logic none = none
  stored_entry m buf off logic (some (phys, zmap)) = some (
    phys,
    record {
      zmap = zmap;
      inode = m.inode;
      disks =
          (ramdisk_write size m.disks 0 (set_half big buf (logic * 2) phys) minix_block_size
            (pos off)).1;
    },
  )

  -- The block of an entry of the single indirect block
  pub entry_of : Superblock → Data → ℕ → Bool → FileMap → Option (ℕ × FileMap)
  unfolding minix_block_alloc
  entry_of sb before logic create m =
      let phys = m.inode.i_zones minix_zone_single in
      let buf = entries m.disks before phys in
      if half_at big buf (logic * 2) == minix_block_null && create
      then stored_entry m buf (phys * minix_block_size) logic (minix_block_alloc sb m.zmap)
      else some (half_at big buf (logic * 2), m)

  abbrev pub single_of : Superblock → Data → ℕ → Bool → Option FileMap → Option (ℕ × FileMap)
  single_of sb before logic create none = none
  single_of sb before logic create (some m) =
      if m.inode.i_zones minix_zone_single == minix_block_null
      then none
      else entry_of sb before logic create m

  -- The three cases of a block's number; `none` is a panic.
  pub block_at : Superblock → Data → FileMap → ℕ → Bool → Option (ℕ × FileMap)
  unfolding zone_filled entry_of
  block_at sb before m logic create =
      if ltb logic minix_nr_zones_direct
      then zone_of logic (zone_filled sb m logic create)
      else if ltb (logic - minix_nr_zones_direct) minix_nr_single
      then single_of sb before (logic - minix_nr_zones_direct) create
          (zone_filled sb m minix_zone_single create)
      else none

  -- `none` is a panic, or a search of the zone map that leaves it.
  unfoldable pub minix_block_map : Superblock → Data → FileMap → ℤ → Bool → Option (ℕ × FileMap)
  unfolding block_at
  minix_block_map sb before m off create =
      if is_bad_super sb
      then some (minix_block_null, m)
      else if leb sb.s_max_size (unsigned_offset off)
      then some (minix_block_null, m)
      else block_at sb before m (logical_block off)
          (ltb (unsigned_offset off) m.inode.i_size || create)

-- `num -= sb->s_first_data_block`, of 16 bits
abbrev pub zone_bit : Superblock → ℕ → ℕ
zone_bit sb num = (num + 2 ^ 16 - sb.s_first_data_block) % 2 ^ 16

pub minix_block_free_direct : Superblock → Bitmap → ℕ → Status × Bitmap
minix_block_free_direct sb zmap num =
    if is_bad_super sb
    then (err einval, zmap)
    else if num == minix_block_null
    then (err einval, zmap)
    else if leb sb.s_nblocks (zone_bit sb num)
    then (err einval, zmap)
    else (ok tt, bitmap_clear zmap (zone_bit sb num))

-- A loop of `n` rounds that releases the same block in each
pub free_times : (Bitmap → Status × Bitmap) → ℕ → Bitmap → Bitmap
free_times free zero zmap = zmap
free_times free (suc n) zmap = free_times free n (free zmap).1

pub minix_block_free_indirect : Superblock → Bitmap → ℕ → Status × Bitmap
unfolding minix_block_free_direct free_times
minix_block_free_indirect sb zmap num =
    if is_bad_super sb
    then (err einval, zmap)
    else if num == minix_block_null
    then (err einval, zmap)
    else (
      ok tt,
      (minix_block_free_direct sb
          (free_times (λ z. minix_block_free_direct sb z num) minix_nr_single zmap) num).1,
    )

pub minix_block_free_dindirect : Superblock → Bitmap → ℕ → Status × Bitmap
unfolding minix_block_free_direct minix_block_free_indirect free_times
minix_block_free_dindirect sb zmap num =
    if is_bad_super sb
    then (err einval, zmap)
    else if num == minix_block_null
    then (err einval, zmap)
    else (
      ok tt,
      (minix_block_free_direct sb
          (free_times (λ z. minix_block_free_indirect sb z num) minix_nr_single zmap) num).1,
    )

pub minix_block_free : Superblock → Bitmap → ℕ → ℤ → Status × Bitmap
unfolding minix_block_free_direct minix_block_free_indirect minix_block_free_dindirect
minix_block_free sb zmap num lvl =
    if is_bad_super sb
    then (err einval, zmap)
    else if lvl ==ℤ pos 0
    then (ok tt, (minix_block_free_direct sb zmap num).1)
    else if lvl ==ℤ pos 1
    then (ok tt, (minix_block_free_indirect sb zmap num).1)
    else if lvl ==ℤ pos 2
    then (ok tt, (minix_block_free_dindirect sb zmap num).1)
    else (err einval, zmap)
