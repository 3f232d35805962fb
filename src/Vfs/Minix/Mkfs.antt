-- ===== src/Vfs/Minix/Mkfs.antt =====
-- src/sys/fs/vfs/minix/minix.c: the creation, the mounting and the synchronisation of a Minix file
-- system.
pub mod Layout
mod Tests
use multikernel.Common.{
  ℕ, zero, suc, ◌+◌, ◌*◌, ◌/◌, ◌%◌, ◌^◌, Bool, not, Option, none, some, List, [], ◌∷◌, pos, ◌==◌,
  if◌then◌else◌, Result, ok, err, Status, eio,
}
use multikernel.Bitmap.{Bitmap}
use multikernel.Vfs.Disk.{Data, Disks, ramdisk_write}
use multikernel.Vfs.Minix.{
  Superblock, DInode, minix_block_size, minix_super_magic, minix_inode_null, sizeof_d_inode,
}
use multikernel.Vfs.Minix.Inode.{
  minix_inode_read, minix_inode_write, minix_inode_alloc, fresh_inode,
}
use multikernel.Vfs.Minix.Super.{minix_super_read, minix_super_write}
use multikernel.Vfs.Minix.Block.{FileMap}
use multikernel.Vfs.Minix.Dirent.{minix_dirent_add}

-- MINIX_BLOCK_BIT_LENGTH, MINIX_INODE_ROOT, NANVIX_MAX_FILE_SIZE and NANVIX_DISK_SIZE
abbrev pub minix_block_bit_length : ℕ
minix_block_bit_length = 8192

abbrev pub minix_inode_root : ℕ
minix_inode_root = 1

abbrev pub max_file_size : ℕ
max_file_size = 67108864

abbrev pub disk_size : ℕ
disk_size = 65536

-- `S_IFDIR | S_IRWXU | S_IRGRP | S_IXGRP | S_IROTH | S_IXOTH`, and the same with S_IFBLK
abbrev pub root_mode : ℕ
root_mode = 0x41ed

abbrev pub disk_mode : ℕ
disk_mode = 0x61ed

-- ".", ".." and "disk"
abbrev pub dot : List ℕ
dot = 46 ∷ []

abbrev pub dot_dot : List ℕ
dot_dot = 46 ∷ 46 ∷ []

abbrev pub disk_name : List ℕ
disk_name = 100 ∷ 105 ∷ 115 ∷ 107 ∷ []

-- ROUND
abbrev pub round : ℕ → ℕ
round x = if x == 0 then 1 else x

-- The new superblock; `unused` is what the field without a use holds.
pub new_super : ℕ → ℕ → ℕ → Superblock
new_super ninodes nblocks unused =
    let imap_nblocks = round (ninodes / minix_block_bit_length) in
    let bmap_nblocks = round (nblocks / minix_block_bit_length) in
    let inode_nblocks = round (ninodes * sizeof_d_inode / minix_block_size) in
    record {
      s_ninodes = ninodes;
      s_nblocks = nblocks;
      s_imap_nblocks = imap_nblocks;
      s_bmap_nblocks = bmap_nblocks;
      s_first_data_block = (2 + imap_nblocks + bmap_nblocks + inode_nblocks) % 2 ^ 16;
      unused1 = unused;
      s_max_size = max_file_size;
      s_magic = minix_super_magic;
    }

-- What a call that the server asserts to succeed leaves
abbrev pub asserted {ℓ} : {A : Type ℓ} → Status × A → Option A
asserted (ok u, a) = some a
asserted (err e, a) = none

abbrev pub asserted_with {ℓ κ} : {A : Type ℓ} {B : Type κ} → Option A → (A → Option B) → Option B
asserted_with none next = none
asserted_with (some a) next = next a

-- The result of a call that is not looked at
abbrev pub ignored : Option (Status × FileMap) → Option FileMap
ignored none = none
ignored (some (s, m)) = some m

module _ (size : ℕ) (big : Bool) (dev : ℕ) where
  -- `umemset(buf, 0, MINIX_BLOCK_SIZE);`, and the writes of the loop from block `i` on, with `n`
  -- that are left
  abbrev pub zeroed : Result ℕ × Disks → Option Disks
  zeroed (ok n, disks) = if n == minix_block_size then some disks else none
  zeroed (err e, disks) = none

  pub fill_zeros : ℕ → ℕ → Disks → Option Disks
  fill_zeros zero i disks = some disks
  fill_zeros (suc n) i disks =
      asserted_with
        (zeroed
          (ramdisk_write size disks dev (λ k. 0) minix_block_size (pos (i * minix_block_size))))
        (fill_zeros n (i + 1))

  -- The local variables of `minix_mkfs`
  pub record Mkfs : Type 0 where
    pub imap : Bitmap
    pub bmap : Bitmap
    pub root : DInode
    pub disks : Disks

  -- `before` is what the working buffers hold before they are read.
  module _ (sb : Superblock) (before : Data) where
    -- `minix_inode_read`, into a structure that has no value before, and the assertion
    abbrev pub read_asserted : Disks → ℕ → Option DInode
    read_asserted disks num =
        asserted (minix_inode_read size big disks dev sb (fresh_inode size big 0 0 0 0) num)

    abbrev pub write_asserted : Disks → DInode → ℕ → Option Disks
    write_asserted disks ip num = asserted (minix_inode_write size big disks dev sb ip num)

    -- `minix_dirent_add` to the root, whose result is not looked at
    abbrev pub with_map : Mkfs → Option FileMap → Option Mkfs
    with_map s none = none
    with_map s (some m) = some (record s { bmap = m.zmap; root = m.inode; disks = m.disks })

    pub add_to_root : List ℕ → ℕ → Mkfs → Option Mkfs
    add_to_root name num s = with_map s (
        ignored (
          minix_dirent_add size big dev sb before
            (record { zmap = s.bmap; inode = s.root; disks = s.disks }) name num))

    -- `minix_inode_write(dev, &super, &root, MINIX_INODE_ROOT)`, and the assertion
    abbrev pub with_disks : Mkfs → Disks → Mkfs
    with_disks s disks = record s { disks = disks }

    pub write_root : Mkfs → Option Mkfs
    write_root s =
        asserted_with (write_asserted s.disks s.root minix_inode_root) (λ d. some (with_disks s d))

    -- The root directory, with the i-node that is allocated
    pub make_root : Bitmap → Option (ℕ × Bitmap × Disks) → Option Mkfs
    unfolding add_to_root write_root
    make_root bmap none = none
    make_root bmap (some (num, imap, disks)) =
        if not (num == minix_inode_root)
        then none
        else asserted_with (read_asserted disks minix_inode_root) (λ root.
          asserted_with
            (add_to_root dot minix_inode_root
              (record { imap = imap; bmap = bmap; root = root; disks = disks }))
            (λ s. asserted_with (add_to_root dot_dot minix_inode_root s) write_root))

    -- The i-node of the disk, written under the number of the root, and then the root
    pub write_disk : DInode → Mkfs → Option Mkfs
    unfolding write_root
    write_disk winode s =
        asserted_with
          (write_asserted s.disks (record winode { i_size = disk_size }) minix_inode_root)
          (λ d. write_root (with_disks s d))

    -- The disk device, with the i-node that is allocated
    pub make_disk : Mkfs → Option (ℕ × Bitmap × Disks) → Option Mkfs
    unfolding add_to_root write_disk
    make_disk s none = none
    make_disk s (some (num, imap, disks)) =
        if num == minix_inode_null
        then none
        else asserted_with (read_asserted disks num) (λ winode.
          asserted_with (add_to_root disk_name num (record s { imap = imap; disks = disks }))
            (write_disk winode))

    abbrev pub super_written : Mkfs → Option Disks
    super_written s = asserted (minix_super_write size big s.disks dev sb s.bmap s.imap)

    -- From the allocation of the root's i-node on; `now` and `now'` are what `kclock` gives.
    pub populate : ℕ → ℕ → ℕ → ℕ → Disks → Option Disks
    unfolding make_root make_disk
    populate uid gid now now' disks =
        asserted_with
          (make_root (λ i. 0)
            (minix_inode_alloc size big disks dev sb (λ i. 0) root_mode uid gid now))
          (λ s.
            asserted_with
              (make_disk s
                (minix_inode_alloc size big s.disks dev sb s.imap disk_mode uid gid now'))
              super_written)

  -- Both calls of `ucalloc` give memory. `none` is a failed assertion or a panic.
  pub minix_mkfs : Data → ℕ → ℕ → ℕ → ℕ → ℕ → ℕ → ℕ → Disks → Option Disks
  unfolding new_super fill_zeros populate
  minix_mkfs before ninodes nblocks uid gid unused now now' disks =
      asserted_with (fill_zeros nblocks 0 disks)
        (populate (new_super ninodes nblocks unused) before uid gid now now')

  abbrev pub io_status : Status × Disks → Status × Disks
  io_status (ok u, disks) = (ok tt, disks)
  io_status (err e, disks) = (err eio, disks)

  pub minix_sync : Superblock → Bitmap → Bitmap → Disks → Status × Disks
  minix_sync sb imap bmap disks = io_status (minix_super_write size big disks dev sb bmap imap)

  abbrev pub io_result {ℓ} : {A : Type ℓ} → Result A → Result A
  io_result (ok a) = ok a
  io_result (err e) = err eio

  -- The superblock, the zone map and the i-node map; `mem` and `mem'` are what `umalloc` gives.
  pub minix_mount :
      Superblock → Option Data → Option Data → Disks → Result (Superblock × Bitmap × Bitmap)
  minix_mount sb mem mem' disks = io_result (minix_super_read size big disks dev sb mem mem')

  pub minix_unmount : Superblock → Bitmap → Bitmap → Disks → Status × Disks
  unfolding minix_sync
  minix_unmount sb imap bmap disks = minix_sync sb imap bmap disks
