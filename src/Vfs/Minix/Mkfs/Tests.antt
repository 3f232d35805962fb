-- ===== src/Vfs/Minix/Mkfs/Tests.antt =====
-- A test of the layout that the server gives to its root file system.
use multikernel.Common.{◌+◌, ◌*◌, ◌≤◌, refl, arith}
use multikernel.Vfs.Minix.{minix_block_size, sizeof_d_inode}
use multikernel.Vfs.Minix.Inode.{minix_inode_offset}
use multikernel.Vfs.Minix.Mkfs.{new_super}
use multikernel.Vfs.Minix.Mkfs.Layout.{new_super-inodes}

new_super-inodes_example :
    let sb = new_super 64 64 0 in
    ((2 + sb.s_imap_nblocks + sb.s_bmap_nblocks) * minix_block_size ≤ minix_inode_offset sb 63)
    × (minix_inode_offset sb 63 + sizeof_d_inode ≤ sb.s_first_data_block * minix_block_size)
new_super-inodes_example =
    new_super-inodes 64 64 0 63 (omega arith) (omega arith) refl (omega arith)
