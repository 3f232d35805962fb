-- ===== src/Vfs/Minix/Tests.antt =====
-- Tests of the i-nodes and of the superblock, on a file system of 64 i-nodes on a disk of 64 KB of a
-- machine whose first byte is the lowest.
use multikernel.Common.{ℕ, ◌≡◌, refl, false, some, ◌==◌, arith, if◌then◌else◌, ok}
use multikernel.Bitmap.{Bitmap}
use multikernel.Bitmap.Laws.{IsWords}
use multikernel.Vfs.Disk.{Data, Disks}
use multikernel.Vfs.Minix.{Superblock, DInode}
use multikernel.Vfs.Minix.Inode.{
  minix_inode_read, minix_inode_write, minix_inode_alloc, fresh_inode,
}
use multikernel.Vfs.Minix.Inode.Layout.{IsDInode, SameInode}
use multikernel.Vfs.Minix.Inode.Transfer.{IsInodeNumber, minix_inode_write-read}
use multikernel.Vfs.Minix.Inode.Allocate.{HasTable, AllocatesInode, minix_inode_alloc-Allocates}
use multikernel.Vfs.Minix.Super.{minix_super_read, minix_super_write}
use multikernel.Vfs.Minix.Super.Layout.{IsSuper}
use multikernel.Vfs.Minix.Super.Mount.{HasMaps, IsRead, minix_super_write-IsRead}

abbrev pub sb : Superblock
sb = record {
  s_ninodes = 64;
  s_nblocks = 100;
  s_imap_nblocks = 1;
  s_bmap_nblocks = 1;
  s_first_data_block = 6;
  unused1 = 0;
  s_max_size = 65536;
  s_magic = 0x137f;
}

abbrev pub disk_size : ℕ
disk_size = 65536

abbrev pub empty_disks : Disks
empty_disks dev k = 0

-- The first word is full, and then every word has its lowest bit set.
abbrev pub half_full : Bitmap
half_full i = if i == 0 then 0xffffffff else 1

pub half_full-IsWords : IsWords half_full
half_full-IsWords i = ground arith

abbrev pub ip : DInode
ip = record {
  i_mode = 0x81a4;
  i_uid = 1000;
  i_size = 70000;
  i_time = 0x60000000;
  i_gid = 100;
  i_nlinks = 1;
  i_zones = λ i. i;
}

ip-IsDInode : IsDInode ip
ip-IsDInode = record {
  mode = omega arith;
  uid = omega arith;
  size = omega arith;
  time = omega arith;
  gid = omega arith;
  nlinks = omega arith;
  zones = λ i hi. omega arith;
}

third-IsInodeNumber : IsInodeNumber disk_size false 0 sb 3
third-IsInodeNumber = record {
  positive = omega arith;
  in_table = omega arith;
  short = omega arith;
  on_disk = refl;
}

fourth-IsInodeNumber : IsInodeNumber disk_size false 0 sb 4
fourth-IsInodeNumber = record {
  positive = omega arith;
  in_table = omega arith;
  short = omega arith;
  on_disk = refl;
}

minix_inode_write-read_example :
    let out = minix_inode_write disk_size false empty_disks 0 sb ip 3 in
    let after = minix_inode_read disk_size false out.1 0 sb ip 4 in
    (out.0 ≡ ok tt)
    × (after.0 ≡ ok tt)
    × SameInode after.1
        (if 3 == 4 then ip else (minix_inode_read disk_size false empty_disks 0 sb ip 4).1)
minix_inode_write-read_example =
    minix_inode_write-read disk_size false empty_disks 0 sb ip ip 3 4 refl ip-IsDInode
      third-IsInodeNumber fourth-IsInodeNumber

sb-HasTable : HasTable disk_size false 0 sb
sb-HasTable num p le = ground arith

minix_inode_alloc-Allocates_example :
    AllocatesInode disk_size false empty_disks 0 sb half_full
      (fresh_inode disk_size false 0x81a4 1000 100 5)
      (minix_inode_alloc disk_size false empty_disks 0 sb half_full 0x81a4 1000 100 5)
minix_inode_alloc-Allocates_example =
    minix_inode_alloc-Allocates disk_size false empty_disks 0 sb half_full 0x81a4 1000 100 5 16 refl
      half_full-IsWords refl (omega arith) (omega arith) (omega arith) sb-HasTable

sb-IsSuper : IsSuper sb
sb-IsSuper = record {
  ninodes = omega arith;
  nblocks = omega arith;
  imap_nblocks = omega arith;
  bmap_nblocks = omega arith;
  first = omega arith;
  unused = omega arith;
  max_size = omega arith;
  magic = omega arith;
}

sb-HasMaps : HasMaps disk_size false 0 sb half_full half_full
sb-HasMaps = record { super_fits = refl; imap_fits = refl; zmap_fits = refl }

abbrev pub blank : Data
blank k = 0

minix_super_write-IsRead_example :
    let out = minix_super_write disk_size false empty_disks 0 sb half_full half_full in
    (out.0 ≡ ok tt)
    × IsRead disk_size false 0 sb half_full half_full
        (minix_super_read disk_size false out.1 0 sb (some blank) (some blank))
minix_super_write-IsRead_example =
    minix_super_write-IsRead disk_size false 0 sb half_full half_full empty_disks sb blank blank
      refl sb-IsSuper half_full-IsWords half_full-IsWords sb-HasMaps
