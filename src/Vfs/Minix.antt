-- ===== src/Vfs/Minix.antt =====
-- include/fs/minix.h: the superblock and the i-node of a Minix file system, as the server keeps
-- them in memory and as they lie on a disk. All structures are at hand: the null pointers that the
-- functions of sys/fs/vfs/minix test for are not modelled.
mod Tests
pub mod Bytes
pub mod Inode
pub mod Block
pub mod Super
pub mod Dirent
pub mod Mkfs
use multikernel.Common.{ℕ, ◌+◌, ◌-◌, ◌*◌, ◌/◌, ◌%◌, Bool, not, ◌==◌, ltb, if◌then◌else◌}
use multikernel.Vfs.Disk.{Data}
use multikernel.Vfs.Minix.Bytes.{half_at, word_at, half_byte, word_byte}

-- MINIX_BLOCK_SIZE, MINIX_SUPER_MAGIC
abbrev pub minix_block_size : ℕ
minix_block_size = 1024

abbrev pub minix_super_magic : ℕ
minix_super_magic = 0x137f

-- MINIX_BLOCK_NULL and MINIX_INODE_NULL
abbrev pub minix_block_null : ℕ
minix_block_null = 0

abbrev pub minix_inode_null : ℕ
minix_inode_null = 0

-- MINIX_NR_ZONES_DIRECT, MINIX_NR_ZONES, MINIX_ZONE_SINGLE and MINIX_NR_SINGLE
abbrev pub minix_nr_zones_direct : ℕ
minix_nr_zones_direct = 7

abbrev pub minix_nr_zones : ℕ
minix_nr_zones = 9

abbrev pub minix_zone_single : ℕ
minix_zone_single = 7

abbrev pub minix_nr_single : ℕ
minix_nr_single = 512

-- `sizeof(struct d_superblock)` and `sizeof(struct d_inode)`
abbrev pub sizeof_d_superblock : ℕ
sizeof_d_superblock = 18

abbrev pub sizeof_d_inode : ℕ
sizeof_d_inode = 32

-- `struct d_superblock`
pub record Superblock : Type 0 where
  pub s_ninodes : ℕ
  pub s_nblocks : ℕ
  pub s_imap_nblocks : ℕ
  pub s_bmap_nblocks : ℕ
  pub s_first_data_block : ℕ
  pub unused1 : ℕ
  pub s_max_size : ℕ
  pub s_magic : ℕ

-- `sb->s_magic != MINIX_SUPER_MAGIC`
abbrev pub is_bad_super : Superblock → Bool
is_bad_super sb = not (sb.s_magic == minix_super_magic)

-- `struct d_inode`
pub record DInode : Type 0 where
  pub i_mode : ℕ
  pub i_uid : ℕ
  pub i_size : ℕ
  pub i_time : ℕ
  pub i_gid : ℕ
  pub i_nlinks : ℕ
  pub i_zones : ℕ → ℕ

-- The layout of the packed structure `d_inode`, on a machine whose byte order `big` tells
module _ (big : Bool) where
  pub inode_bytes : DInode → Data
  inode_bytes ip k =
      if ltb k 2
      then half_byte big ip.i_mode k
      else if ltb k 4
      then half_byte big ip.i_uid (k - 2)
      else if ltb k 8
      then word_byte big ip.i_size (k - 4)
      else if ltb k 12
      then word_byte big ip.i_time (k - 8)
      else if k == 12
      then ip.i_gid % 256
      else if k == 13
      then ip.i_nlinks % 256
      else half_byte big (ip.i_zones ((k - 14) / 2)) (k % 2)

  pub inode_of : Data → DInode
  inode_of b = record {
    i_mode = half_at big b 0;
    i_uid = half_at big b 2;
    i_size = word_at big b 4;
    i_time = word_at big b 8;
    i_gid = b 12;
    i_nlinks = b 13;
    i_zones = λ i. half_at big b (14 + i * 2);
  }
