-- ===== src/Vfs/Inode/Transfer.antt =====
-- src/sys/fs/vfs/inode.c: the transfer of i-nodes between the disk and the table, and the references
-- to them.
use multikernel.Common.{
  ℕ, ◌+◌, Bool, ◌&&◌, not, Option, none, some, pos, ◌==ℤ◌, leb, ◌==◌, if◌then◌else◌, find_entry, ok,
  err, Status, einval, enomem, eagain,
}
use multikernel.Bitmap.{Bitmap}
use multikernel.Vfs.Disk.{Disks}
use multikernel.Vfs.Minix.{DInode, minix_inode_null}
use multikernel.Vfs.Minix.Inode.{minix_inode_read, minix_inode_write, minix_inode_alloc}
use multikernel.Sysv.Resource.{ResourceOps}
use multikernel.Vfs.Inode.{
  nr_inodes, inodes_table_length, Inode, Store, failed, no_inode, set_inode, set_imap, is_outside,
  give_back, with_count, inode_free,
}

module _ (ops : ResourceOps) where
  open ops use {Resource, initializer, is_used, alloc, release}

  module _ (size : ℕ) (big : Bool) where
    -- After the read of the disk's i-node into a free entry
    abbrev pub loaded :
        Store ops → ℕ → ℕ → Resource → Status × DInode → Option (Option ℕ × Store ops)
    loaded s num i r (ok u, ip) = some (
      some i,
      set_inode ops s i
          (record { resource = r; inode_data = ip; dev = pos s.fs_root.dev; num = num; count = 1 }),
    )
    loaded s num i r (err e, ip) =
        give_back ops
          (set_inode ops s i (record (s.inodes i) { resource = release r; inode_data = ip })) num

    unfoldable pub read_into : Store ops → ℕ → Option (ℕ × Resource) → Option (Option ℕ × Store ops)
    unfolding give_back
    read_into s num none = give_back ops (record s { errcode = err enomem }) num
    read_into s num (some (i, r)) = loaded s num i r (
        minix_inode_read size big s.disks s.fs_root.dev s.fs_root.super (s.inodes i).inode_data num)

    -- `none` is a failed assertion.
    unfoldable pub inode_read : Store ops → ℕ → Option (Option ℕ × Store ops)
    unfolding read_into
    inode_read s num = read_into s num (alloc (λ i. (s.inodes i).resource) inodes_table_length)

    -- After the write of the i-node
    abbrev pub then_free : Store ops → ℕ → Status × Disks → Status × Store ops
    then_free s i (ok u, disks) = inode_free ops (record s { disks = disks }) i
    then_free s i (err e, disks) = failed ops eagain (record s { disks = disks })

    abbrev pub sync : Store ops → ℕ → Status × Disks
    sync s i =
        minix_inode_write size big s.disks s.fs_root.dev s.fs_root.super (s.inodes i).inode_data
          (s.inodes i).num

    unfoldable pub inode_put : Store ops → Option ℕ → Status × Store ops
    unfolding inode_free
    inode_put s none = failed ops einval s
    inode_put s (some i) =
        if is_outside ops i
        then failed ops einval s
        else if not ((s.inodes i).dev ==ℤ pos s.fs_root.dev)
        then failed ops einval s
        else if (s.inodes i).count == 0
        then failed ops einval s
        else then_free s i (sync s i)

    abbrev pub then_done : Store ops → Status × Disks → Status × Store ops
    then_done s (ok u, disks) = (ok tt, record s { disks = disks })
    then_done s (err e, disks) = failed ops eagain (record s { disks = disks })

    pub inode_write : Store ops → Option ℕ → Status × Store ops
    inode_write s none = failed ops einval s
    inode_write s (some i) =
        if not ((s.inodes i).dev ==ℤ pos s.fs_root.dev)
        then failed ops einval s
        else if (s.inodes i).count == 0
        then failed ops einval s
        else then_done s (sync s i)

    -- Whether an entry is the one of an i-node of the device
    abbrev pub is_inode : ℕ → ℕ → Inode ops → Bool
    is_inode d n ip = is_used ip.resource && ip.dev ==ℤ pos d && ip.num == n

    unfoldable pub get_known : Store ops → ℕ → Option ℕ → Option (Option ℕ × Store ops)
    unfolding inode_read
    get_known s num none = inode_read s num
    get_known s num (some i) =
        some (some i, set_inode ops s i (with_count ops (s.inodes i) ((s.inodes i).count + 1)))

    -- `none` is a failed assertion.
    unfoldable pub inode_get : Store ops → ℕ → Option (Option ℕ × Store ops)
    unfolding get_known
    inode_get s num =
        if leb nr_inodes num
        then no_inode ops einval s
        else get_known s num (find_entry (is_inode s.fs_root.dev num) s.inodes inodes_table_length)

    -- With the number of the new i-node
    pub read_new : Store ops → Option (ℕ × Bitmap × Disks) → Option (Option ℕ × Store ops)
    unfolding inode_read
    read_new s none = none
    read_new s (some (num, imap, disks)) =
        let s' = set_imap ops (record s { disks = disks }) imap in
        if num == minix_inode_null then no_inode ops eagain s' else inode_read s' num

    abbrev pub has_root :
        Store ops → Option ℕ → Option (Option ℕ × Store ops) → Option (Option ℕ × Store ops)
    has_root s none rest = no_inode ops einval s
    has_root s (some i) rest = rest

    -- `none` is a failed assertion, or a search of the i-node map that leaves it.
    pub inode_alloc : ℕ → Store ops → ℕ → ℕ → ℕ → Option (Option ℕ × Store ops)
    unfolding read_new
    inode_alloc now s mode uid gid = has_root s s.fs_root.root (
        read_new s (
          minix_inode_alloc size big s.disks s.fs_root.dev s.fs_root.super s.fs_root.imap mode uid
            gid now))
