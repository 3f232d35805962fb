-- ===== src/Vfs/Inode/Tests.antt =====
-- Tests of the table of i-nodes, with the root's i-node in entry 0.
use multikernel.Common.{
  ℕ, ◌≡◌, refl, arith, Bool, true, false, some, pos, ◌==◌, if◌then◌else◌, search_array, find_entry,
  ok,
}
use multikernel.Vfs.Disk.{ramdisk_write}
use multikernel.Vfs.Minix.{Superblock, DInode}
use multikernel.Vfs.Minix.Inode.{minix_inode_write}
use multikernel.Vfs.Inode.{inodes_table_length, Inode, Store, set_inode, with_count, inode_free}
use multikernel.Vfs.Inode.Transfer.{is_inode, get_known, inode_get, inode_put}
use multikernel.Vfs.Inode.Valid.{IsValid, KeepsValid, inode_get_put-KeepsValid}
use multikernel.Vfs.Inode.Balance.{inode_get-put}
use multikernel.Sysv.Pool.{flags}

abbrev size : ℕ
size = 65536

abbrev sb : Superblock
sb = record {
  s_ninodes = 64;
  s_nblocks = 64;
  s_imap_nblocks = 1;
  s_bmap_nblocks = 1;
  s_first_data_block = 6;
  unused1 = 0;
  s_max_size = 65536;
  s_magic = 0x137f;
}

abbrev root : DInode
root = record {
  i_mode = 0x41ed;
  i_uid = 0;
  i_size = 0;
  i_time = 0;
  i_gid = 0;
  i_nlinks = 2;
  i_zones = λ i. 0;
}

abbrev entry : Bool → ℕ → Inode flags
entry used n = record { resource = used; inode_data = root; dev = pos 0; num = 1; count = n }

abbrev rooted : Store flags
rooted = record {
  inodes = λ i. if i == 0 then entry true 1 else entry false 0;
  fs_root = record { dev = 0; root = some 0; super = sb; imap = λ i. 1; bmap = λ i. 0 };
  disks = λ dev k. 0;
  errcode = ok tt;
}

used_first : (i : ℕ) → (if i == 0 then entry true 1 else entry false 0).resource ≡ true → i ≡ 0
used_first i e = ground (arith, e)

rooted-IsValid : IsValid flags 0 rooted.inodes
rooted-IsValid = record {
  counted = λ i lt e. rw (used_first i e) (omega arith);
  uncounted = λ i lt e. ground (arith, e);
  on_device = λ i lt e. rw (used_first i e) refl;
  single = λ i j lt lt' e e' _. rw (used_first i e, used_first j e') refl;
}

inode_get_put-KeepsValid_example :
    KeepsValid flags 0 (inode_get flags size false rooted 1)
    × IsValid flags 0 (inode_put flags size false rooted (some 0)).1.inodes
inode_get_put-KeepsValid_example =
    inode_get_put-KeepsValid flags size false rooted 1 (some 0) rooted-IsValid

abbrev gotten : Store flags
gotten = set_inode flags rooted 0 (with_count flags (rooted.inodes 0) 2)

root_known : find_entry (is_inode flags size false 0 1) rooted.inodes inodes_table_length ≡ some 0
unfolding search_array
root_known = refl

root_gotten : inode_get flags size false rooted 1 ≡ some (some 0, gotten)
unfolding inode_get get_known search_array
root_gotten = refl

root_put : (inode_put flags size false gotten (some 0)).0 ≡ ok tt
unfolding inode_put inode_free minix_inode_write ramdisk_write
root_put = refl

inode_get-put_example : (inode_put flags size false gotten (some 0)).1.inodes 0 ≡ rooted.inodes 0
inode_get-put_example =
    inode_get-put flags size false rooted gotten 1 0 rooted-IsValid root_known root_gotten root_put
      0
