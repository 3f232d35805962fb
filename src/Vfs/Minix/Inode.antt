-- ===== src/Vfs/Minix/Inode.antt =====
-- src/sys/fs/vfs/minix/inode.c: the i-nodes of a Minix file system, on its disk and in the i-node map.
-- A call gives its result, and the object that its pointer argument is to as the call leaves it.
pub mod Layout
pub mod Guards
pub mod Transfer
pub mod Allocate
use multikernel.Common.{
  ℕ, ◌+◌, ◌-◌, ◌*◌, ◌/◌, ◌%◌, ◌^◌, Bool, not, Option, none, some, ℤ, pos, leb, ◌==◌, if◌then◌else◌,
  Result, ok, err, Status, einval, eagain,
}
use multikernel.Bitmap.{Bitmap, bitmap_full, bitmap_set, bitmap_clear, bitmap_first_free}
use multikernel.Vfs.Disk.{Data, Disks, ramdisk_read, ramdisk_write}
use multikernel.Vfs.Minix.{
  Superblock, DInode, minix_block_size, minix_super_magic, minix_inode_null, is_bad_super,
  minix_block_null, sizeof_d_inode, inode_bytes, inode_of,
}

-- `num--`, of 16 bits
abbrev pub inode_index : ℕ → ℕ
inode_index num = (num + 2 ^ 16 - 1) % 2 ^ 16

-- The offset of the i-node with that index
abbrev pub minix_inode_offset : Superblock → ℕ → ℕ
minix_inode_offset sb num =
    (2 + sb.s_imap_nblocks + sb.s_bmap_nblocks + num / 32) * minix_block_size
    + num % 32 * sizeof_d_inode

module _ (size : ℕ) (big : Bool) where
  abbrev pub received : DInode → Result ℕ × Data → Status × DInode
  received ip (ok n, bytes) = (ok tt, inode_of big bytes)
  received ip (err e, bytes) = (err eagain, ip)

  pub minix_inode_read : Disks → ℕ → Superblock → DInode → ℕ → Status × DInode
  minix_inode_read disks dev sb ip num =
      if is_bad_super sb
      then (err einval, ip)
      else if leb sb.s_ninodes (inode_index num)
      then (err einval, ip)
      else received ip (
          ramdisk_read size disks dev (inode_bytes big ip) sizeof_d_inode
            (pos (minix_inode_offset sb (inode_index num))))

  abbrev pub sent : Result ℕ × Disks → Status × Disks
  sent (ok n, disks) = (ok tt, disks)
  sent (err e, disks) = (err eagain, disks)

  unfoldable pub minix_inode_write : Disks → ℕ → Superblock → DInode → ℕ → Status × Disks
  minix_inode_write disks dev sb ip num =
      if is_bad_super sb
      then (err einval, disks)
      else if leb sb.s_ninodes (inode_index num)
      then (err einval, disks)
      else sent (
          ramdisk_write size disks dev (inode_bytes big ip) sizeof_d_inode
            (pos (minix_inode_offset sb (inode_index num))))

  -- The new i-node; the two fields of a byte take their argument and the time in their width.
  abbrev pub fresh_inode : ℕ → ℕ → ℕ → ℕ → DInode
  fresh_inode mode uid gid now = record {
    i_mode = mode;
    i_uid = uid;
    i_size = 0;
    i_time = now % 2 ^ 32;
    i_gid = gid % 2 ^ 8;
    i_nlinks = 1;
    i_zones = λ i. minix_block_null;
  }

  -- The number, the i-node map and the disks after the write of the new i-node
  abbrev pub registered : Bitmap → ℕ → Status × Disks → ℕ × Bitmap × Disks
  registered imap bit (ok u, disks) = ((bit + 1) % 2 ^ 16, imap, disks)
  registered imap bit (err e, disks) = (minix_inode_null, bitmap_clear imap bit, disks)

  pub allocated_inode :
      Disks → ℕ → Superblock → Bitmap → DInode → Option ℕ → Option (ℕ × Bitmap × Disks)
  unfolding minix_inode_write
  allocated_inode disks dev sb imap ip none = none
  allocated_inode disks dev sb imap ip (some bit) =
      if bit == bitmap_full
      then some (minix_inode_null, imap, disks)
      else some (
          registered (bitmap_set imap bit) bit
            (minix_inode_write disks dev sb ip ((bit + 1) % 2 ^ 16)))

  -- `now` is what `kclock` gives. `none` is a search of the i-node map that leaves it. The read of
  -- the i-node before it is written has no effect: each of its fields is set.
  pub minix_inode_alloc :
      Disks → ℕ → Superblock → Bitmap → ℕ → ℕ → ℕ → ℕ → Option (ℕ × Bitmap × Disks)
  unfolding allocated_inode bitmap_first_free
  minix_inode_alloc disks dev sb imap mode uid gid now =
      if is_bad_super sb
      then some (minix_inode_null, imap, disks)
      else allocated_inode disks dev sb imap (fresh_inode mode uid gid now)
          (bitmap_first_free imap sb.s_ninodes)

pub minix_inode_free : Superblock → Bitmap → ℕ → Status × Bitmap
minix_inode_free sb imap num =
    if is_bad_super sb
    then (err einval, imap)
    else if leb sb.s_ninodes (inode_index num)
    then (err einval, imap)
    else (ok tt, bitmap_clear imap (inode_index num))
