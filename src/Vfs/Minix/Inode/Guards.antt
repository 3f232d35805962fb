-- ===== src/Vfs/Minix/Inode/Guards.antt =====
-- The i-nodes that the disk and the i-node map accept are the same.
use multikernel.Common.{ℕ, ◌≡◌, refl, Bool, inl, inr, leb, if_inv, ok}
use multikernel.Bitmap.{Bitmap}
use multikernel.Vfs.Disk.{Disks}
use multikernel.Vfs.Minix.{Superblock, DInode, is_bad_super}
use multikernel.Vfs.Minix.Inode.{inode_index, minix_inode_write, minix_inode_free}

-- An i-node that was written to the disk is one that can be released.
pub minix_inode_free-written :
    (size : ℕ) (big : Bool) (disks disks' : Disks) (dev : ℕ) (sb : Superblock) (ip : DInode)
    (num : ℕ) (imap : Bitmap)
    → minix_inode_write size big disks dev sb ip num ≡ (ok tt, disks')
    → (minix_inode_free sb imap num).0 ≡ ok tt
unfolding minix_inode_write minix_inode_free
minix_inode_free-written size big disks disks' dev sb ip num imap e =
    elim (if_inv (is_bad_super sb) _ _ e) [
      | inl (_, bad) ↦ absurd (cc)
      | inr (good, e') ↦ elim (if_inv (leb sb.s_ninodes (inode_index num)) _ _ e') [
        | inl (_, bad) ↦ absurd (cc)
        | inr (within, _) ↦ rw (good, within) refl
      ]
    ]
