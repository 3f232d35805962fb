-- ===== src/Vfs/Files/Transfer.antt =====
-- src/sys/fs/vfs/fs.c and file.c: reading, writing and seeking in a file that is open.
use multikernel.Common.{
  ℕ, ◌+◌, ◌%◌, ◌||◌, Option, none, some, ℤ, pos, negsuc, ◌+ℤ◌, ◌==ℤ◌, ◌==◌, if◌then◌else◌, Result,
  ok, err, einval, enotsup, ebadf, espipe,
}
use multikernel.Vfs.Mode.{s_isblk, s_isreg, s_isdir, s_isfifo}
use multikernel.Vfs.Disk.{Data, Disks, ramdisk_read, ramdisk_write}
use multikernel.Vfs.Minix.{DInode}
use multikernel.Vfs.Files.{File, Vfs, current, set_file, as_count, inode_of_file}
use multikernel.Sysv.Flags.{has_flag}
use multikernel.Sysv.Resource.{ResourceOps}

-- O_RDONLY, O_WRONLY and O_APPEND
abbrev pub o_rdonly : ℕ
o_rdonly = 0

abbrev pub o_wronly : ℕ
o_wronly = 1

abbrev pub o_append : ℕ
o_append = 1024

-- `ACCMODE(m)`, the bits of O_ACCMODE, which is 3
abbrev pub accmode : ℕ → ℕ
accmode m = m % 4

-- SEEK_CUR, SEEK_END and SEEK_SET
abbrev pub seek_cur : ℤ
seek_cur = pos 0

abbrev pub seek_end : ℤ
seek_end = pos 1

abbrev pub seek_set : ℤ
seek_set = pos 2

-- The files that are not on a block device: the arguments have no effect.
pub file_read : Result ℕ
file_read = err enotsup

pub file_write : Result ℕ
file_write = err enotsup

module _ (ops : ResourceOps) where
  abbrev pub set_position : Vfs ops → ℕ → File → ℕ → Vfs ops
  set_position v f file p = set_file ops v f (record file { position = p })

  -- `if (count < 0) return (curr_proc->errcode);`, and else `f->pos += count;`
  abbrev pub counted : Vfs ops → ℕ → File → Result ℕ → Result ℕ × Vfs ops
  counted v f file (err e) = (as_count ops v.store.errcode, v)
  counted v f file (ok n) = (ok n, set_position v f file (file.position + n))

  abbrev pub set_disks : Vfs ops → Disks → Vfs ops
  set_disks v disks = record v { store = record v.store { disks = disks } }

  module _ (size : ℕ) where
    abbrev pub read_counted : Vfs ops → ℕ → File → Result ℕ × Data → Result ℕ × Data × Vfs ops
    read_counted v f file (r, buf) = let out = counted v f file r in (out.0, buf, out.1)

    -- By the type of the file
    unfoldable pub read_inode :
        Vfs ops → ℕ → File → Data → ℕ → Option DInode → Option (Result ℕ × Data × Vfs ops)
    unfolding file_read
    read_inode v f file buf n none = none
    read_inode v f file buf n (some ip) =
        if s_isblk ip.i_mode
        then some (
            read_counted v f file
              (ramdisk_read size v.store.disks (ip.i_zones 0) buf n (pos file.position)))
        else if s_isdir ip.i_mode || s_isreg ip.i_mode
        then some (read_counted v f file (file_read, buf))
        else some (err enotsup, buf, v)

    unfoldable pub read_file : Vfs ops → Data → ℕ → Option ℕ → Option (Result ℕ × Data × Vfs ops)
    unfolding read_inode
    read_file v buf n none = some (err ebadf, buf, v)
    read_file v buf n (some f) =
        let file = v.filetab f in
        if accmode file.oflag == o_wronly
        then some (err ebadf, buf, v)
        else if n == 0
        then some (ok 0, buf, v)
        else read_inode v f file buf n (inode_of_file ops v file)

    -- The result, the buffer and the state. `none` is the use of a null pointer.
    unfoldable pub fs_read : Vfs ops → ℕ → Data → ℕ → Option (Result ℕ × Data × Vfs ops)
    unfolding read_file
    fs_read v fd buf n = read_file v buf n ((current ops v).ofiles fd)

    abbrev pub written : Vfs ops → ℕ → File → Result ℕ × Disks → Result ℕ × Vfs ops
    written v f file (r, disks) = counted (set_disks v disks) f file r

    -- By the type of the file; for another type `count` is the 0 it starts with.
    unfoldable pub write_as : Vfs ops → ℕ → File → Data → ℕ → DInode → Result ℕ × Vfs ops
    unfolding file_write
    write_as v f file buf n ip =
        if s_isblk ip.i_mode
        then written v f file
            (ramdisk_write size v.store.disks (ip.i_zones 0) buf n (pos file.position))
        else if s_isreg ip.i_mode
        then counted v f file file_write
        else counted v f file (ok 0)

    -- In append mode the offset is first set to the size.
    unfoldable pub write_inode :
        Vfs ops → ℕ → File → Data → ℕ → Option DInode → Option (Result ℕ × Vfs ops)
    unfolding write_as
    write_inode v f file buf n none = none
    write_inode v f file buf n (some ip) =
        let file' = record file { position = ip.i_size } in
        if has_flag file.oflag o_append
        then some (write_as (set_file ops v f file') f file' buf n ip)
        else some (write_as v f file buf n ip)

    unfoldable pub write_file : Vfs ops → Data → ℕ → Option ℕ → Option (Result ℕ × Vfs ops)
    unfolding write_inode
    write_file v buf n none = some (err ebadf, v)
    write_file v buf n (some f) =
        let file = v.filetab f in
        if accmode file.oflag == o_rdonly
        then some (err ebadf, v)
        else if n == 0
        then some (ok 0, v)
        else write_inode v f file buf n (inode_of_file ops v file)

    -- `none` is the use of a null pointer.
    unfoldable pub fs_write : Vfs ops → ℕ → Data → ℕ → Option (Result ℕ × Vfs ops)
    unfolding write_file
    fs_write v fd buf n = write_file v buf n ((current ops v).ofiles fd)

  -- The offset that is asked for, which is not negative
  unfoldable pub move_to : Vfs ops → ℕ → File → ℤ → Result ℕ × Vfs ops
  move_to v f file (negsuc n) = (err einval, v)
  move_to v f file (pos p) = (ok p, set_position v f file p)

  -- `switch (whence)`
  unfoldable pub seek_inode :
      Vfs ops → ℕ → File → ℤ → ℤ → Option DInode → Option (Result ℕ × Vfs ops)
  unfolding move_to
  seek_inode v f file offset whence none = none
  seek_inode v f file offset whence (some ip) =
      if s_isfifo ip.i_mode
      then some (err espipe, v)
      else if whence ==ℤ seek_cur
      then some (move_to v f file (pos file.position +ℤ offset))
      else if whence ==ℤ seek_end
      then some (move_to v f file (pos ip.i_size +ℤ offset))
      else if whence ==ℤ seek_set
      then some (move_to v f file offset)
      else some (err einval, v)

  unfoldable pub seek_file : Vfs ops → ℤ → ℤ → Option ℕ → Option (Result ℕ × Vfs ops)
  unfolding seek_inode
  seek_file v offset whence none = some (err ebadf, v)
  seek_file v offset whence (some f) =
      seek_inode v f (v.filetab f) offset whence (inode_of_file ops v (v.filetab f))

  -- `none` is the use of a null pointer.
  unfoldable pub fs_lseek : Vfs ops → ℕ → ℤ → ℤ → Option (Result ℕ × Vfs ops)
  unfolding seek_file
  fs_lseek v fd offset whence = seek_file v offset whence ((current ops v).ofiles fd)
