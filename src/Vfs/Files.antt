-- ===== src/Vfs/Files.antt =====
-- src/sys/fs/vfs/fs.c and file.c: the files that are open, and the root file system. `off_t` is an
-- integer with no bound.
pub mod Transfer
pub mod System
pub mod Block
pub mod Open
pub mod Processes
pub mod Tests
use multikernel.Common.{
  ℕ, Bool, true, false, ◌||◌, not, Option, none, some, ℤ, pos, negsuc, ◌==ℤ◌, ◌-ℤ◌, leb_ℤ, ◌==◌,
  if◌then◌else◌, update, find_entry, Result, ok, err, Status, enoent, enotsup, emfile, enfile,
  ebadf,
}
use multikernel.Vfs.Mode.{s_isblk, s_isreg, s_isdir}
use multikernel.Vfs.Disk.{Data}
use multikernel.Vfs.Minix.{DInode}
use multikernel.Vfs.Minix.Dirent.{Name}
use multikernel.Vfs.Inode.{Store, inode_disk_get, failed, no_inode}
use multikernel.Vfs.Inode.Transfer.{inode_put}
use multikernel.Vfs.Inode.Lookup.{inode_name}
use multikernel.Sysv.Resource.{ResourceOps}

-- NANVIX_NR_FILES and NANVIX_OPEN_MAX
abbrev pub nr_files : ℕ
nr_files = 64

abbrev pub open_max : ℕ
open_max = 16

-- `struct file`; `oflag` is the bits of the `int`. The offset is never negative.
pub record File : Type 0 where
  pub oflag : ℕ
  pub count : ℤ
  pub position : ℕ
  pub inode : Option ℕ

-- `struct fprocess`, without `errcode`
pub record Process : Type 0 where
  pub pwd : Option ℕ
  pub root : Option ℕ
  pub ofiles : ℕ → Option ℕ

module _ (ops : ResourceOps) where
  -- `filetab`, `processes` and `curr_proc`, with the i-nodes and the file system
  pub record Vfs : Type 0 where
    pub store : Store ops
    pub filetab : ℕ → File
    pub processes : ℕ → Process
    pub curr_proc : ℕ

  abbrev pub current : Vfs → Process
  current v = v.processes v.curr_proc

  abbrev pub set_file : Vfs → ℕ → File → Vfs
  set_file v i f = record v { filetab = update v.filetab i f }

  abbrev pub set_store : Vfs → Store ops → Vfs
  set_store v s = record v { store = s }

  -- `curr_proc->ofiles[fd] = f`
  abbrev pub set_descriptor : Vfs → ℕ → Option ℕ → Vfs
  set_descriptor v fd f = record v {
    processes =
        update v.processes v.curr_proc
          (record (current v) { ofiles = update (current v).ofiles fd f });
  }

  -- An error number as an `int`
  abbrev pub as_count : Status → Result ℕ
  as_count (ok u) = ok 0
  as_count (err e) = err e

  abbrev pub is_null : Option ℕ → Bool
  is_null none = true
  is_null (some i) = false

  pub getfile : Vfs → Option ℕ
  getfile v = find_entry (λ f. f.count ==ℤ pos 0) v.filetab nr_files

  abbrev pub descriptor_or : Option ℕ → Result ℕ
  descriptor_or none = err emfile
  descriptor_or (some fd) = ok fd

  pub getfildes : Vfs → Result ℕ
  getfildes v = descriptor_or (find_entry is_null (current v).ofiles open_max)

  -- The name, the mode and the flags have no effect.
  pub do_creat : Store ops → Option (Option ℕ × Store ops)
  do_creat s = no_inode ops enoent s

  -- The disk's i-node of an open file; `none` is the use of a null pointer.
  abbrev pub inode_of_file : Vfs → File → Option DInode
  inode_of_file v f = inode_disk_get ops v.store f.inode

  abbrev pub set_count : File → ℤ → File
  set_count f n = record f { count = n }

  module _ (size : ℕ) (big : Bool) where
    -- The label `error` of `do_open`
    abbrev pub refused : ℕ → Store ops → Option (Option ℕ × Store ops)
    refused i s =
        some (none, (inode_put ops size big (record s { errcode = err enotsup }) (some i)).1)

    -- By the type of the file; `bdev_open` does nothing.
    pub open_inode : ℕ → Store ops → Option DInode → Option (Option ℕ × Store ops)
    open_inode i s none = none
    open_inode i s (some ip) =
        if s_isblk ip.i_mode
        then some (some i, s)
        else if s_isreg ip.i_mode || s_isdir ip.i_mode
        then refused i s
        else some (some i, s)

    -- With the i-node of the name
    pub open_named : Option (Option ℕ × Store ops) → Option (Option ℕ × Store ops)
    unfolding do_creat open_inode
    open_named none = none
    open_named (some (none, s)) = do_creat s
    open_named (some (some i, s)) = open_inode i s (inode_disk_get ops s (some i))

    -- After `do_open`, with the file and the descriptor
    pub opened : Vfs → ℕ → ℕ → ℕ → Option (Option ℕ × Store ops) → Option (Result ℕ × Vfs)
    opened v oflag fd f none = none
    opened v oflag fd f (some (none, s)) =
        some (as_count s.errcode, set_file (set_store v s) f (set_count (v.filetab f) (pos 0)))
    opened v oflag fd f (some (some i, s)) = some (
      ok fd,
      set_descriptor
          (set_file (set_store v s) f
            (record { oflag = oflag; count = pos 1; position = 0; inode = some i }))
          fd (some f),
    )

    -- `before` is what a directory entry holds before it is read.
    module _ (before : Data) where
      -- `none` is a failed assertion, a panic or the use of a null pointer.
      pub do_open : Vfs → Name → Option (Option ℕ × Store ops)
      unfolding open_named
      do_open v name = open_named (inode_name ops size big before v.store (current v).root name)

      pub open_with : Vfs → Name → ℕ → Result ℕ → Option ℕ → Option (Result ℕ × Vfs)
      unfolding do_open opened
      open_with v name oflag (err e) f = some (err e, v)
      open_with v name oflag (ok fd) none = some (err enfile, v)
      open_with v name oflag (ok fd) (some f) =
          let v' = set_file v f (set_count (v.filetab f) (pos 1)) in
          opened v' oflag fd f (do_open v' name)

      -- The mode has no effect.
      pub fs_open : Vfs → Name → ℕ → Option (Result ℕ × Vfs)
      unfolding getfile getfildes open_with
      fs_open v name oflag = open_with v name oflag (getfildes v) (getfile v)

    -- What a call on the i-nodes leaves
    abbrev pub in_store : Vfs → Status × Store ops → Status × Vfs
    in_store v (r, s) = (r, set_store v s)

    -- By the type of the file; `bdev_close` does nothing.
    pub close_inode : Vfs → Option ℕ → Option DInode → Option (Status × Vfs)
    close_inode v ip none = none
    close_inode v ip (some dip) =
        if s_isblk dip.i_mode
        then some (in_store v (inode_put ops size big v.store ip))
        else some (in_store v (failed ops enotsup v.store))

    pub close_file : Vfs → ℕ → ℕ → Option (Status × Vfs)
    unfolding close_inode
    close_file v fd f =
        let file = v.filetab f in
        let v' = set_file (set_descriptor v fd none) f (set_count file (file.count -ℤ pos 1)) in
        if leb_ℤ (pos 2) file.count
        then some (ok tt, v')
        else close_inode v' file.inode (inode_of_file v' file)

    unfoldable pub close_descriptor : Vfs → ℕ → Option ℕ → Option (Status × Vfs)
    unfolding close_file
    close_descriptor v fd none = some (in_store v (failed ops ebadf v.store))
    close_descriptor v fd (some f) = close_file v fd f

    -- `none` is the use of a null pointer.
    unfoldable pub fs_close : Vfs → ℕ → Option (Status × Vfs)
    unfolding close_descriptor
    fs_close v fd = close_descriptor v fd ((current v).ofiles fd)
