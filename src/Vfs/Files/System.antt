-- ===== src/Vfs/Files/System.antt =====
-- src/sys/fs/vfs/fs.c: making, mounting and unmounting the root file system.
use multikernel.Common.{ℕ, ◌/◌, Bool, Option, none, some, pos, ok, err, Result, Status}
use multikernel.Bitmap.{Bitmap}
use multikernel.Vfs.Disk.{Data, Disks, ramdisk_init}
use multikernel.Vfs.Bcache.{block_size}
use multikernel.Vfs.Minix.{Superblock}
use multikernel.Vfs.Minix.Mkfs.{
  minix_mkfs, minix_mount, minix_unmount, minix_inode_root, disk_size, asserted_with,
}
use multikernel.Vfs.Inode.{Filesystem, Store, failed, nr_inodes}
use multikernel.Vfs.Inode.Transfer.{inode_get, inode_put}
use multikernel.Vfs.Files.{File, Vfs}
use multikernel.Sysv.Resource.{ResourceOps}

-- NANVIX_ROOT_DEV, NANVIX_ROOT_UID and NANVIX_ROOT_GID
abbrev pub root_dev : ℕ
root_dev = 0

abbrev pub root_uid : ℕ
root_uid = 0

abbrev pub root_gid : ℕ
root_gid = 0

-- FILE_INITIALIZER
abbrev pub file_initializer : File
file_initializer = record { oflag = 0; count = pos 0; position = 0; inode = none }

-- What `umalloc` gives to `fs_mount`: the superblock with what is in it, and the two maps
pub record Memory : Type 0 where
  pub super : Option Superblock
  pub imap : Option Data
  pub bmap : Option Data

-- What the calls of `kclock`, and memory that is not set, give to `minix_mkfs`
pub record Outside : Type 0 where
  pub now : ℕ
  pub now' : ℕ
  pub unused : ℕ
  pub before : Data

module _ (ops : ResourceOps) (size : ℕ) (big : Bool) where
  pub fs_make : Outside → ℕ → ℕ → ℕ → ℕ → ℕ → Disks → Option Disks
  fs_make out dev ninodes nblocks uid gid disks =
      minix_mkfs size big dev out.before ninodes nblocks uid gid out.unused out.now out.now' disks

  abbrev pub set_fs : Store ops → Filesystem → Store ops
  set_fs s fs = record s { fs_root = fs }

  -- With the root's i-node
  abbrev pub rooted : Option (Option ℕ × Store ops) → Option (Store ops)
  rooted none = none
  rooted (some (none, s)) = none
  rooted (some (some i, s)) = some (set_fs s (record s.fs_root { root = some i }))

  -- After `minix_mount`
  pub mounted : Store ops → ℕ → Result (Superblock × Bitmap × Bitmap) → Option (Store ops)
  mounted s dev (err e) = none
  mounted s dev (ok (sb, bmap, imap)) = rooted (
      inode_get ops size big
        (set_fs s (record s.fs_root { dev = dev; super = sb; imap = imap; bmap = bmap }))
        minix_inode_root)

  -- With the memory for the superblock
  pub mount_in : Store ops → ℕ → Memory → Option Superblock → Option (Store ops)
  unfolding mounted
  mount_in s dev mem none = none
  mount_in s dev mem (some sb) =
      mounted s dev (minix_mount size big dev sb mem.imap mem.bmap s.disks)

  -- What is left by a return of 0. `fs_init` alone calls it, when `curr_proc` is a null pointer: an
  -- error uses that pointer, which is `none`, as a failed assertion is.
  pub fs_mount : Memory → Store ops → ℕ → Option (Store ops)
  unfolding mount_in
  fs_mount mem s dev = mount_in s dev mem mem.super

  abbrev pub unmounted : Store ops → Status × Disks → Status × Store ops
  unmounted s (ok u, disks) = (ok tt, record s { disks = disks })
  unmounted s (err e, disks) = failed ops e (record s { disks = disks })

  -- After `inode_put`
  pub unmount_rest : Status × Store ops → Status × Store ops
  unmount_rest (err e, s) = failed ops e s
  unmount_rest (ok u, s) =
      let fs = s.fs_root in
      unmounted s (minix_unmount size big fs.dev fs.super fs.imap fs.bmap s.disks)

  pub fs_unmount : Store ops → Status × Store ops
  unfolding unmount_rest
  fs_unmount s = unmount_rest (inode_put ops size big s s.fs_root.root)

  -- The table of files
  abbrev pub started : Vfs ops → Store ops → Option (Vfs ops)
  started v s = some (record v { store = s; filetab = λ i. file_initializer })

  -- `none` is a failed assertion or a panic. The block cache, which `binit` sets up, is not used.
  pub fs_init : Outside → Memory → Vfs ops → Option (Vfs ops)
  unfolding fs_make fs_mount
  fs_init out mem v =
      asserted_with
        (fs_make out root_dev nr_inodes (disk_size / block_size) root_uid root_gid ramdisk_init)
        (λ disks.
          asserted_with (fs_mount mem (record v.store { disks = disks }) root_dev) (started v))

  abbrev pub shut : Vfs ops → Status × Store ops → Option (Vfs ops)
  shut v (ok u, s) = some (record v { store = s })
  shut v (err e, s) = none

  -- `none` is a failed assertion.
  pub fs_shutdown : Vfs ops → Option (Vfs ops)
  unfolding fs_unmount
  fs_shutdown v = shut v (fs_unmount v.store)
