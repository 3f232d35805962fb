-- ===== src/Vfs/Inode/Lookup.antt =====
-- src/sys/fs/vfs/inode.c: the i-node of a name.
use multikernel.Common.{
  ℕ, Bool, Option, none, some, pos, update, Result, ok, err, false, einval, enoent, eio,
}
use multikernel.Vfs.Disk.{Data, ramdisk_read}
use multikernel.Vfs.Minix.{DInode}
use multikernel.Vfs.Minix.Bytes.{half_at}
use multikernel.Vfs.Minix.Block.{FileMap}
use multikernel.Vfs.Minix.Dirent.{Name, minix_dirent_search, sizeof_d_dirent}
use multikernel.Sysv.Resource.{ResourceOps}
use multikernel.Vfs.Inode.{Store, no_inode, inode_disk_get}
use multikernel.Vfs.Inode.Transfer.{inode_get}

module _ (ops : ResourceOps) where
  open ops use {Resource, initializer, is_used, alloc, release}

  module _ (size : ℕ) (big : Bool) where
    -- `before` is what the directory entry holds before it is read.
    module _ (before : Data) where
      -- With the directory entry
      abbrev pub get_named : Store ops → Result ℕ × Data → Option (Option ℕ × Store ops)
      get_named s (err e, d) = no_inode ops eio s
      get_named s (ok n, d) = inode_get ops size big s (half_at big d 0)

      -- What the search leaves of the directory, the zone map and the disks
      abbrev pub searched : Store ops → ℕ → FileMap → Store ops
      searched s i m = record s {
        inodes = update s.inodes i (record (s.inodes i) { inode_data = m.inode });
        fs_root = record s.fs_root { bmap = m.zmap };
        disks = m.disks;
      }

      -- With the offset of the entry
      unfoldable pub look_up :
          Store ops → ℕ → Option (Result ℕ × FileMap) → Option (Option ℕ × Store ops)
      look_up s i none = none
      look_up s i (some (err e, m)) = no_inode ops enoent (searched s i m)
      look_up s i (some (ok off, m)) =
          get_named (searched s i m)
            (ramdisk_read size m.disks s.fs_root.dev before sizeof_d_dirent (pos off))

      -- The search of the directory, which fails on a null pointer
      unfoldable pub search_in :
          Store ops → ℕ → Name → Option DInode → Option (Option ℕ × Store ops)
      unfolding look_up
      search_in s i name none = no_inode ops enoent s
      search_in s i name (some dip) = look_up s i (
          minix_dirent_search size big s.fs_root.dev s.fs_root.super before
            (record { zmap = s.fs_root.bmap; inode = dip; disks = s.disks }) name false)

      -- `root` is `curr_proc->root`. `none` is a failed assertion or a panic.
      unfoldable pub inode_name : Store ops → Option ℕ → Name → Option (Option ℕ × Store ops)
      unfolding inode_disk_get search_in
      inode_name s none name = no_inode ops einval s
      inode_name s (some i) name = search_in s i name (inode_disk_get ops s (some i))
