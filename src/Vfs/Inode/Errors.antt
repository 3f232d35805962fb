-- ===== src/Vfs/Inode/Errors.antt =====
-- The error number of a process: the release of an i-node does not clear it.
use multikernel.Common.{ℕ, Bool, not, Option, none, some, pos, ◌==ℤ◌, ◌==◌, if-all, ok, err, Status}
use multikernel.Bitmap.{Bitmap}
use multikernel.Vfs.Disk.{Disks}
use multikernel.Vfs.Inode.{Inode, Store, is_outside, removed, drop_last, inode_free}
use multikernel.Vfs.Inode.Transfer.{then_free, inode_put}
use multikernel.Sysv.Resource.{ResourceOps}

abbrev pub IsError : Status → Type 0
IsError (ok u) = ⊥
IsError (err e) = Unit {0}

module _ (ops : ResourceOps) where
  abbrev Noted : Status × Store ops → Type 0
  Noted r = IsError r.1.errcode

  removed-Noted :
      (s : Store ops) (i : ℕ) (ip : Inode ops) (r : Status × Bitmap)
      → IsError s.errcode
      → Noted (removed ops s i ip r)
  removed-Noted s i ip (ok u, imap) h = h
  removed-Noted s i ip (err e, imap) h = tt

  inode_free-Noted : (s : Store ops) (i : ℕ) → IsError s.errcode → Noted (inode_free ops s i)
  unfolding inode_free drop_last
  inode_free-Noted s i h =
      if-all Noted (is_outside ops i) _ _ (λ _. tt)
        (λ _.
          if-all Noted ((s.inodes i).count == 0) _ _ (λ _. tt)
            (λ _.
              if-all Noted ((s.inodes i).count == 1) _ _
                (λ _.
                  if-all Noted ((s.inodes i).inode_data.i_nlinks == 1) _ _
                    (λ _. removed-Noted s i _ _ h) (λ _. h))
                (λ _. h)))

  pub inode_put-IsError :
      (size : ℕ) (big : Bool) (s : Store ops) (ip : Option ℕ)
      → IsError s.errcode
      → IsError (inode_put ops size big s ip).1.errcode
  unfolding inode_put
  inode_put-IsError size big s none h = tt
  inode_put-IsError size big s (some i) h =
      if-all Noted (is_outside ops i) _ _ (λ _. tt)
        (λ _.
          if-all Noted (not ((s.inodes i).dev ==ℤ pos s.fs_root.dev)) _ _ (λ _. tt)
            (λ _. if-all Noted ((s.inodes i).count == 0) _ _ (λ _. tt) (λ _. after_write _)))
    where
      after_write : (o : Status × Disks) → Noted (then_free ops size big s i o)
      after_write (ok u, disks) = inode_free-Noted (record s { disks = disks }) i h
      after_write (err e, disks) = tt
