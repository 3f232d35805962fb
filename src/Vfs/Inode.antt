-- ===== src/Vfs/Inode.antt =====
-- src/sys/fs/vfs/inode.c: the table of the i-nodes that are in memory. A pointer to an i-node is its
-- index in `inodes`, or `none` for a null pointer. The file system is always `fs_root`.
-- `curr_proc->errcode` is one field: a request resets it before anything reads it.
pub mod Transfer
pub mod Valid
pub mod Balance
pub mod Errors
mod Tests
pub mod Lookup
use multikernel.Common.{
  ℕ, ◌+◌, ◌-◌, ◌%◌, ◌^◌, Bool, ◌&&◌, not, Option, none, some, ℤ, pos, negsuc, ◌==ℤ◌, leb, ◌==◌,
  if◌then◌else◌, update, find_entry, Result, ok, err, Status, Errno, einval, enomem, eagain, ebusy,
  enoent, eio,
}
use multikernel.Bitmap.{Bitmap}
use multikernel.Vfs.Disk.{Data, Disks, ramdisk_read}
use multikernel.Vfs.Minix.{Superblock, DInode, minix_inode_null}
use multikernel.Vfs.Minix.Bytes.{half_at}
use multikernel.Vfs.Minix.Inode.{
  minix_inode_read, minix_inode_write, minix_inode_alloc, minix_inode_free,
}
use multikernel.Vfs.Minix.Block.{FileMap}
use multikernel.Vfs.Minix.Dirent.{Name, minix_dirent_search, sizeof_d_dirent}
use multikernel.Sysv.Resource.{ResourceOps}

-- NANVIX_NR_INODES and NANVIX_INODES_TABLE_LENGTH
abbrev pub nr_inodes : ℕ
nr_inodes = 64

abbrev pub inodes_table_length : ℕ
inodes_table_length = 16

-- `struct filesystem`, with its superblock and the two maps
pub record Filesystem : Type 0 where
  pub dev : ℕ
  pub root : Option ℕ
  pub super : Superblock
  pub imap : Bitmap
  pub bmap : Bitmap

module _ (ops : ResourceOps) where
  open ops use {Resource, initializer, is_used, alloc, release}

  -- `struct inode`; `count` does not go below zero, which `inode_free` tests.
  pub record Inode : Type 0 where
    pub resource : Resource
    pub inode_data : DInode
    pub dev : ℤ
    pub num : ℕ
    pub count : ℕ

  -- `inodes`, `fs_root`, the disks, and `curr_proc->errcode`
  pub record Store : Type 0 where
    pub inodes : ℕ → Inode
    pub fs_root : Filesystem
    pub disks : Disks
    pub errcode : Status

  -- `return (curr_proc->errcode = -e)`
  abbrev pub failed : Errno → Store → Status × Store
  failed e s = (err e, record s { errcode = err e })

  -- The same, before a null pointer is returned
  abbrev pub no_inode : Errno → Store → Option (Option ℕ × Store)
  no_inode e s = some (none, record s { errcode = err e })

  abbrev pub set_inode : Store → ℕ → Inode → Store
  set_inode s i ip = record s { inodes = update s.inodes i ip }

  abbrev pub set_imap : Store → Bitmap → Store
  set_imap s imap = record s { fs_root = record s.fs_root { imap = imap } }

  unfoldable pub inode_disk_get : Store → Option ℕ → Option DInode
  inode_disk_get s none = none
  inode_disk_get s (some i) = if (s.inodes i).count == 0 then none else some (s.inodes i).inode_data

  pub inode_get_num : Store → Option ℕ → ℕ × Store
  inode_get_num s none = (minix_inode_null, (failed einval s).1)
  inode_get_num s (some i) =
      if (s.inodes i).count == 0
      then (minix_inode_null, (failed einval s).1)
      else ((s.inodes i).num, s)

  -- NANVIX_DEV_NULL is 0.
  pub inode_get_dev : Store → Option ℕ → ℤ × Store
  inode_get_dev s none = (pos 0, (failed einval s).1)
  inode_get_dev s (some i) =
      if (s.inodes i).count == 0 then (pos 0, (failed einval s).1) else ((s.inodes i).dev, s)

  -- Whether a pointer is one into `inodes`
  abbrev pub is_outside : ℕ → Bool
  is_outside i = leb inodes_table_length i

  pub inode_set_dirty : (Resource → Resource) → Store → Option ℕ → Status × Store
  inode_set_dirty set_dirty s none = failed einval s
  inode_set_dirty set_dirty s (some i) =
      if (s.inodes i).count == 0
      then failed einval s
      else if is_outside i
      then failed einval s
      else (
        ok tt,
        set_inode s i (record (s.inodes i) { resource = set_dirty (s.inodes i).resource }),
      )

  -- `now` is what `kclock` gives.
  pub inode_touch : ℕ → Store → Option ℕ → Status × Store
  inode_touch now s none = failed einval s
  inode_touch now s (some i) =
      let ip = s.inodes i in
      if ip.count == 0 then failed einval s else (
        ok tt,
        set_inode s i (record ip { inode_data = record ip.inode_data { i_time = now % 2 ^ 32 } }),
      )

  -- The label `error0` of `inode_read`, with the assertion
  abbrev pub given_back : Store → Status × Bitmap → Option (Option ℕ × Store)
  given_back s (ok u, imap) = some (none, set_imap s imap)
  given_back s (err e, imap) = none

  pub give_back : Store → ℕ → Option (Option ℕ × Store)
  give_back s num = given_back s (minix_inode_free s.fs_root.super s.fs_root.imap num)

  -- `ip->count--`, and `ip->data.i_nlinks--`
  abbrev pub with_count : Inode → ℕ → Inode
  with_count ip n = record ip { count = n }

  abbrev pub unlinked : Inode → Inode
  unlinked ip = record ip {
    inode_data = record ip.inode_data { i_nlinks = (ip.inode_data.i_nlinks + 2 ^ 8 - 1) % 2 ^ 8 };
  }

  -- `resource_free(&pool, idx)`
  abbrev pub freed : Store → ℕ → Inode → Status × Store
  freed s i ip = (ok tt, set_inode s i (record ip { resource = release ip.resource }))

  -- The release of the disk's i-node
  abbrev pub removed : Store → ℕ → Inode → Status × Bitmap → Status × Store
  removed s i ip (ok u, imap) = freed (set_imap s imap) i ip
  removed s i ip (err e, imap) = failed eagain (set_inode (set_imap s imap) i ip)

  -- When the last reference goes
  unfoldable pub drop_last : Store → ℕ → Status × Store
  drop_last s i =
      let ip = with_count (s.inodes i) 0 in
      if ip.inode_data.i_nlinks == 1
      then removed s i (unlinked ip) (minix_inode_free s.fs_root.super s.fs_root.imap ip.num)
      else freed s i (unlinked ip)

  unfoldable pub inode_free : Store → ℕ → Status × Store
  unfolding drop_last
  inode_free s i =
      let ip = s.inodes i in
      if is_outside i
      then failed einval s
      else if ip.count == 0
      then failed ebusy s
      else if ip.count == 1
      then drop_last s i
      else (ok tt, set_inode s i (with_count ip (ip.count - 1)))

  -- The entries of the table that `inode_init` leaves; it does not set the disk's i-node.
  pub inode_init : (ℕ → Inode) → ℕ → Inode
  inode_init before i = record (before i) {
    resource = initializer;
    dev = negsuc 0;
    num = minix_inode_null;
    count = 0;
  }
