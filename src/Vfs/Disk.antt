-- ===== src/Vfs/Disk.antt =====
-- src/sys/fs/vfs/disk/ramdisk.c, and the wrappers of include/nanvix/dev.h. A buffer is its bytes by
-- their offset, and is never a null pointer. The size of a disk, which the build's configuration
-- gives, is a parameter.
pub mod Access
use multikernel.Common.{
  ℕ, ◌+◌, ◌-◌, Bool, ◌&&◌, ℤ, pos, negsuc, leb, ltb, ◌==◌, if◌then◌else◌, update, Result, ok, err,
  einval,
}

-- NANVIX_NR_RAMDISKS
abbrev pub nr_ramdisks : ℕ
nr_ramdisks = 1

-- The bytes of a buffer
abbrev pub Data : Type 0
Data = ℕ → ℕ

-- `ramdisks`, by device and offset
abbrev pub Disks : Type 0
Disks = ℕ → Data

-- Whether a byte is one of the `n` from `off` on
abbrev pub is_within : ℕ → ℕ → ℕ → Bool
is_within off n k = leb off k && ltb k (off + n)

-- `umemcpy(data + off, buf, n)`
abbrev pub copy_to : Data → Data → ℕ → ℕ → Data
copy_to bytes buf n off k = if is_within off n k then buf (k - off) else bytes k

-- `umemcpy(buf, data + off, n)`
abbrev pub copy_from : Data → Data → ℕ → ℕ → Data
copy_from bytes buf n off k = if ltb k n then bytes (off + k) else buf k

module _ (ramdisk_size : ℕ) where
  unfoldable pub ramdisk_write : Disks → ℕ → Data → ℕ → ℤ → Result ℕ × Disks
  ramdisk_write disks minor buf n (negsuc off) = (err einval, disks)
  ramdisk_write disks minor buf n (pos off) =
      if leb nr_ramdisks minor
      then (err einval, disks)
      else if ltb ramdisk_size n
      then (err einval, disks)
      else if leb ramdisk_size off
      then (err einval, disks)
      else if ltb ramdisk_size (off + n)
      then (err einval, disks)
      else (ok n, update disks minor (copy_to (disks minor) buf n off))

  -- The result, and what the buffer holds after it
  unfoldable pub ramdisk_read : Disks → ℕ → Data → ℕ → ℤ → Result ℕ × Data
  ramdisk_read disks minor buf n (negsuc off) = (err einval, buf)
  ramdisk_read disks minor buf n (pos off) =
      if leb nr_ramdisks minor
      then (err einval, buf)
      else if ltb ramdisk_size n
      then (err einval, buf)
      else if leb ramdisk_size off
      then (err einval, buf)
      else if ltb ramdisk_size (off + n)
      then (err einval, buf)
      else (ok n, copy_from (disks minor) buf n off)

-- What `ramdisk_init` leaves
pub ramdisk_init : Disks
ramdisk_init minor k = 0
