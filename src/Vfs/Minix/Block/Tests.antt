-- ===== src/Vfs/Minix/Block/Tests.antt =====
-- Tests of the blocks of a file, on the file system and the disk of the other Minix tests.
use multikernel.Common.{
  ℕ, ◌≡◌, refl, true, false, Option, none, some, pos, ◌==◌, arith, if◌then◌else◌, ok,
}
use multikernel.Bitmap.{bitmap_set}
use multikernel.Bitmap.Laws.{bit}
use multikernel.Vfs.Disk.{ramdisk_read}
use multikernel.Vfs.Minix.Tests.{
  sb, disk_size, empty_disks, half_full, half_full-IsWords, ip, blank,
}
use multikernel.Vfs.Minix.Block.{
  FileMap, zone_bit, minix_block_alloc, minix_block_free, minix_block_free_direct, minix_block_map,
}
use multikernel.Vfs.Minix.Block.Alloc.{IsBlock, minix_block_alloc-free, minix_block_free-bits}
use multikernel.Vfs.Minix.Block.Entry.{HasBlock}
use multikernel.Vfs.Minix.Block.Map.{minix_block_map-again}

num-IsBlock : IsBlock sb 39
num-IsBlock = (omega arith, omega arith)

allocated : minix_block_alloc sb half_full ≡ some (39, bitmap_set half_full 33)
unfolding minix_block_alloc
allocated = refl

minix_block_alloc-free_example :
    ((minix_block_free_direct sb (bitmap_set half_full 33) 39).0 ≡ ok tt)
    × ((j : ℕ)
        → bit (minix_block_free_direct sb (bitmap_set half_full 33) 39).1 j ≡ bit half_full j)
minix_block_alloc-free_example =
    minix_block_alloc-free sb half_full (bitmap_set half_full 33) 39 refl half_full-IsWords
      (omega arith) (omega arith) allocated num-IsBlock

minix_block_free-bits_example :
    let out = minix_block_free sb half_full 39 (pos 1) in
    (out.0 ≡ ok tt) × ((j : ℕ) → bit out.1 j ≡ (if zone_bit sb 39 == j then 0 else bit half_full j))
minix_block_free-bits_example =
    minix_block_free-bits sb 39 refl num-IsBlock half_full 1 (omega arith)

-- A file with the block of its single indirect zone at block 20, which is empty
abbrev file : FileMap
file = record {
  zmap = half_full;
  inode = record ip { i_size = 20000; i_zones = λ i. if i == 7 then 20 else 0 };
  disks = empty_disks;
}

abbrev map_of : Option (ℕ × FileMap) → FileMap
map_of none = file
map_of (some (num, m)) = m

-- Offset 8300 is in the second entry of that block.
abbrev mapped_file : FileMap
mapped_file = map_of (minix_block_map disk_size false sb blank file (pos 8300) true)

mapped : minix_block_map disk_size false sb blank file (pos 8300) true ≡ some (39, mapped_file)
unfolding minix_block_map ramdisk_read
mapped = refl

mapped_HasBlock : HasBlock disk_size false (mapped_file.inode.i_zones 7)
unfolding minix_block_map ramdisk_read
mapped_HasBlock = refl

minix_block_map-again_example :
    minix_block_map disk_size false sb blank mapped_file (pos 8300) false ≡ some (39, mapped_file)
minix_block_map-again_example =
    minix_block_map-again disk_size false sb blank blank file mapped_file (pos 8300) true false 39
      mapped (λ e. absurd (omega arith)) (λ _. mapped_HasBlock)
