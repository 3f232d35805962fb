-- ===== src/Vfs/Files/Tests.antt =====
-- Tests of files: a process with descriptor 3 on file 0, a block device that is open for reading and
-- writing at offset 100.
use multikernel.Common.{
  ℕ, ◌%◌, ◌≡◌, refl, false, ◌||◌, search_array, Option, none, some, ◌∷◌, [], pos, ◌==◌,
  if◌then◌else◌, Result, ok,
}
use multikernel.Vfs.Minix.{Superblock, DInode}
use multikernel.Vfs.Inode.{inode_disk_get}
use multikernel.Vfs.Disk.{ramdisk_read}
use multikernel.Vfs.Minix.Dirent.{
  starts_as, examine, in_block, search_round, search_loop, search_end, minix_dirent_search,
}
use multikernel.Vfs.Inode.Transfer.{inode_get, get_known}
use multikernel.Vfs.Inode.Lookup.{inode_name}
use multikernel.Vfs.Files.{Vfs, fs_open}
use multikernel.Vfs.Files.Transfer.{fs_write}
use multikernel.Vfs.Files.Block.{IsBlockFile, Reread, fs_write-read}
use multikernel.Vfs.Files.Open.{OpenOutcome, fs_open-OpenOutcome}
use multikernel.Sysv.Flags.{has_flag}
use multikernel.Sysv.Pool.{flags}

abbrev size : ℕ
size = 65536

abbrev sb : Superblock
sb = record {
  s_ninodes = 64;
  s_nblocks = 64;
  s_imap_nblocks = 1;
  s_bmap_nblocks = 1;
  s_first_data_block = 6;
  unused1 = 0;
  s_max_size = 65536;
  s_magic = 0x137f;
}

abbrev disk : DInode
disk = record {
  i_mode = 0x61ed;
  i_uid = 0;
  i_size = 65536;
  i_time = 0;
  i_gid = 0;
  i_nlinks = 1;
  i_zones = λ i. 0;
}

abbrev pub one_file : Vfs flags
one_file = record {
  store = record {
    inodes = λ i. record {
      resource = i == 0;
      inode_data = disk;
      dev = pos 0;
      num = 2;
      count = if i == 0 then 1 else 0;
    };
    fs_root = record { dev = 0; root = some 0; super = sb; imap = λ i. 3; bmap = λ i. 0 };
    disks = λ dev k. k % 256;
    errcode = ok tt;
  };
  filetab = λ i. record {
    oflag = 2;
    count = if i == 0 then pos 1 else pos 0;
    position = 100;
    inode = some 0;
  };
  processes = λ p. record {
    pwd = some 0;
    root = some 0;
    ofiles = λ fd. if p == 0 then (if fd == 3 then some 0 else none) else none;
  };
  curr_proc = 0;
}

one_file-IsBlockFile : IsBlockFile flags one_file 3 0 disk
unfolding inode_disk_get has_flag
one_file-IsBlockFile = record {
  descriptor = refl;
  inode = refl;
  block = refl;
  readable = refl;
  writable = refl;
  overwrites = refl;
}

fs_write-read_example :
    (out : Result ℕ × Vfs flags) × (fs_write flags size one_file 3 (λ k. 7) 20 ≡ some out)
    × Reread flags size one_file 3 0 (λ k. 7) (λ k. 0) 20 out
fs_write-read_example =
    fs_write-read flags size one_file 3 0 disk (λ k. 7) (λ k. 0) 20 one_file-IsBlockFile
      (λ e. absurd (cc)) refl

-- The root is a directory in block 10, with the entry "a" for i-node 5, a block device in memory.
abbrev directory : DInode
directory = record disk { i_mode = 0x41ed; i_size = 32; i_zones = λ i. if i == 0 then 10 else 0 }

abbrev with_device : Vfs flags
with_device = record one_file {
  store = record one_file.store {
    inodes = λ i. record {
      resource = i == 0 || i == 1;
      inode_data = if i == 0 then directory else disk;
      dev = pos 0;
      num = if i == 0 then 1 else 5;
      count = if i == 0 || i == 1 then 1 else 0;
    };
    disks = λ dev k. if k == 10240 then 5 else if k == 10242 then 97 else 0;
  };
}

abbrev result_of : Option (Result ℕ × Vfs flags) → Option (Result ℕ)
result_of none = none
result_of (some (r, v)) = some r

-- The open succeeds, and gives the first free descriptor.
device_opens : result_of (fs_open flags size false (λ k. 0) with_device (97 ∷ []) 2) ≡ some (ok 0)
unfolding fs_open search_array inode_name minix_dirent_search search_loop search_round in_block
    examine starts_as ramdisk_read search_end inode_get get_known
device_opens = refl

fs_open-OpenOutcome_example :
    OpenOutcome flags with_device 2 (fs_open flags size false (λ k. 0) with_device (97 ∷ []) 2)
fs_open-OpenOutcome_example = fs_open-OpenOutcome flags size false (λ k. 0) with_device (97 ∷ []) 2
