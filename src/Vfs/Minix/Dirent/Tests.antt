-- ===== src/Vfs/Minix/Dirent/Tests.antt =====
-- Tests of directories, on a directory of two entries in block 10: "a", of i-node 5, and a free one.
use multikernel.Common.{
  ℕ, ◌≡◌, ◌≢◌, refl, true, false, some, [], ◌∷◌, ◌==◌, if◌then◌else◌, update, ok,
}
use multikernel.Vfs.Disk.{Data, copy_to, ramdisk_read}
use multikernel.Vfs.Minix.{Superblock}
use multikernel.Vfs.Minix.Block.{FileMap}
use multikernel.Vfs.Minix.Dirent.{
  running, sizeof_d_dirent, entry_bytes, starts_as, examine, in_block, search_round, search_loop,
  search_fuel, search_end, nr_entries, start, minix_dirent_search,
}
use multikernel.Vfs.Minix.Dirent.Search.{
  IsEntry, search_loop-terminates, minix_dirent_search-IsEntry,
}

abbrev size : ℕ
size = 65536

abbrev sb : Superblock
sb = record {
  s_ninodes = 64;
  s_nblocks = 64;
  s_imap_nblocks = 1;
  s_bmap_nblocks = 1;
  s_first_data_block = 6;
  unused1 = 0;
  s_max_size = 65536;
  s_magic = 0x137f;
}

abbrev blank : Data
blank k = 0

abbrev directory : FileMap
directory = record {
  zmap = λ i. 0;
  inode = record {
    i_mode = 0x41ed;
    i_uid = 0;
    i_size = 32;
    i_time = 9;
    i_gid = 0;
    i_nlinks = 2;
    i_zones = λ i. if i == 0 then 10 else 0;
  };
  disks = λ dev k. if k == 10240 then 5 else if k == 10242 then 97 else 0;
}

search_loop-terminates_example :
    search_loop size false 0 sb blank
      (98 ∷ [])
      true
      (nr_entries size false 0 sb blank directory)
      (search_fuel size false 0 sb blank (nr_entries size false 0 sb blank directory))
      (start size false 0 sb blank directory)
    ≢ running
search_loop-terminates_example =
    search_loop-terminates size false 0 sb blank directory (98 ∷ []) true

directory_search :
    minix_dirent_search size false 0 sb blank directory (97 ∷ []) false ≡ some (ok 10240, directory)
unfolding minix_dirent_search search_loop search_round in_block examine starts_as ramdisk_read
    search_end
directory_search = refl

minix_dirent_search-IsEntry_example :
    (num : ℕ) × IsEntry size false 0 sb blank directory.disks 10240 (97 ∷ []) num
minix_dirent_search-IsEntry_example =
    minix_dirent_search-IsEntry size false 0 sb blank directory directory (97 ∷ []) 10240
      directory_search

-- The directory with "b", of i-node 7, in its second entry
abbrev added : FileMap
added = record directory {
  inode = record directory.inode { i_nlinks = 3; i_time = 0 };
  disks = update directory.disks 0 (
      copy_to (directory.disks 0) (entry_bytes size false 0 sb blank 7 (98 ∷ [])) sizeof_d_dirent
        10256);
}
