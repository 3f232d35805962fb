-- ===== src/Vfs/Minix/Inode/Transfer.antt =====
-- What a write of an i-node leaves for reads of i-nodes.
use mathlib.Core.Path.{subst}
use multikernel.Common.{
  ℕ, ◌+◌, ◌-◌, ◌*◌, ◌/◌, ◌%◌, ◌^◌, ◌≤◌, ◌<◌, ◌≡◌, ◌≢◌, refl, Bool, true, false, ◌==◌, ==_refl,
  ==_iff, Bool-cases, leb, if◌then◌else◌, arith, ap, ◌∙◌, inl, inr, ok, pos, update,
}
use multikernel.Vfs.Disk.{Data, Disks, is_within, copy_to, copy_from}
use multikernel.Vfs.Disk.Access.{fits, ramdisk_read-ok, ramdisk_write-ok}
use multikernel.Vfs.Minix.{Superblock, DInode, is_bad_super, sizeof_d_inode, inode_bytes, inode_of}
use multikernel.Vfs.Minix.Inode.{
  inode_index, minix_inode_offset, minix_inode_read, minix_inode_write, sent, received,
}
use multikernel.Vfs.Minix.Inode.Layout.{
  IsDInode, SameInode, SameInode-trans, inode_of-SameInode, SameInode-trans, inode_of-inode_bytes,
}

module _ (size : ℕ) (big : Bool) where
  -- The number is one of the table's, and its i-node lies on the disk.
  pub record IsInodeNumber (dev : ℕ) (sb : Superblock) (num : ℕ) : Type 0 where
    pub positive : 0 < num
    pub in_table : num ≤ sb.s_ninodes
    pub short : num < 2 ^ 16
    pub on_disk : fits size dev sizeof_d_inode (pos (minix_inode_offset sb (num - 1))) ≡ true

  index_of : (num : ℕ) → 0 < num → num < 2 ^ 16 → inode_index num ≡ num - 1
  index_of num p lt = omega arith

  listed : (n num : ℕ) → 0 < num → num ≤ n → leb n (num - 1) ≡ false
  listed n num p le = ground arith

  pub minix_inode_write-ok :
      (disks : Disks) (dev : ℕ) (sb : Superblock) (ip : DInode) (num : ℕ)
      → is_bad_super sb ≡ false
      → IsInodeNumber dev sb num
      → minix_inode_write size big disks dev sb ip num ≡ (
        ok tt,
        update disks dev (
            copy_to
              (disks dev)
              (inode_bytes big ip)
              sizeof_d_inode
              (minix_inode_offset sb (num - 1))),
      )
  unfolding minix_inode_write
  minix_inode_write-ok disks dev sb ip num good h =
      rw (good, index_of num h.positive h.short, listed sb.s_ninodes num h.positive h.in_table)
        (ap (sent size big) (
          ramdisk_write-ok size disks dev (inode_bytes big ip) sizeof_d_inode
            (minix_inode_offset sb (num - 1)) h.on_disk))

  pub minix_inode_read-ok :
      (disks : Disks) (dev : ℕ) (sb : Superblock) (old : DInode) (num : ℕ)
      → is_bad_super sb ≡ false
      → IsInodeNumber dev sb num
      → minix_inode_read size big disks dev sb old num ≡ (
        ok tt,
        inode_of big (
            copy_from
              (disks dev)
              (inode_bytes big old)
              sizeof_d_inode
              (minix_inode_offset sb (num - 1))),
      )
  unfolding minix_inode_read
  minix_inode_read-ok disks dev sb old num good h =
      rw (good, index_of num h.positive h.short, listed sb.s_ninodes num h.positive h.in_table)
        (ap (received size big old) (
          ramdisk_read-ok size disks dev (inode_bytes big old) sizeof_d_inode
            (minix_inode_offset sb (num - 1)) h.on_disk))

  -- The byte `k` that a read at `o'` sends after a write at `o`
  bytes_after :
      (disks : Disks) (dev : ℕ) (b b' : Data) (o o' k : ℕ)
      → k < sizeof_d_inode
      → copy_from
          (update disks dev (copy_to (disks dev) b sizeof_d_inode o) dev)
          b'
          sizeof_d_inode
          o'
          k
        ≡ (if is_within o sizeof_d_inode (o' + k)
            then b (o' + k - o)
            else copy_from (disks dev) b' sizeof_d_inode o' k)
  bytes_after disks dev b b' o o' k lt = rw (==_refl dev) (ground (arith, lt))

  at_its_place :
      (b : Data) (o k c : ℕ)
      → k < sizeof_d_inode
      → (if is_within o sizeof_d_inode (o + k) then b (o + k - o) else c) ≡ b k
  at_its_place b o k c lt = rw (within o k lt) (ap b (back o k))
    where
      within : (o k : ℕ) → k < sizeof_d_inode → is_within o sizeof_d_inode (o + k) ≡ true
      within o k lt = ground arith

      back : (o k : ℕ) → o + k - o ≡ k
      back o k = omega arith

  elsewhere :
      (sb : Superblock) (m m' k : ℕ)
      → m ≢ m'
      → k < sizeof_d_inode
      → is_within (minix_inode_offset sb m) sizeof_d_inode (minix_inode_offset sb m' + k) ≡ false
  elsewhere sb m m' k ne lt =
      rw
        (
          offset_of (2 + sb.s_imap_nblocks + sb.s_bmap_nblocks) m,
          offset_of (2 + sb.s_imap_nblocks + sb.s_bmap_nblocks) m',
        )
        (disjoint ((2 + sb.s_imap_nblocks + sb.s_bmap_nblocks) * 1024) m m' k ne lt)
    where
      offset_of : (base m : ℕ) → (base + m / 32) * 1024 + m % 32 * 32 ≡ base * 1024 + m * 32
      offset_of base m = omega arith

      disjoint :
          (z m m' k : ℕ) → m ≢ m' → k < 32 → is_within (z + m * 32) 32 (z + m' * 32 + k) ≡ false
      disjoint z m m' k ne lt = ground arith

  same_after :
      (disks : Disks) (dev : ℕ) (sb : Superblock) (ip old : DInode) (num num' : ℕ)
      → IsDInode ip
      → 0 < num
      → 0 < num'
      → SameInode
          (inode_of big (
            copy_from
              (update disks dev
                (copy_to
                  (disks dev)
                  (inode_bytes big ip)
                  sizeof_d_inode
                  (minix_inode_offset sb (num - 1)))
                dev)
              (inode_bytes big old)
              sizeof_d_inode
              (minix_inode_offset sb (num' - 1))))
          (if num == num'
            then ip
            else inode_of big (
                copy_from
                  (disks dev)
                  (inode_bytes big old)
                  sizeof_d_inode
                  (minix_inode_offset sb (num' - 1))))
  same_after disks dev sb ip old num num' w p p' =
      let o = minix_inode_offset sb (num - 1) in
      let o' = minix_inode_offset sb (num' - 1) in
      let after = λ (k : ℕ) (lt : k < sizeof_d_inode).
        bytes_after disks dev (inode_bytes big ip) (inode_bytes big old) o o' k lt in
      elim (Bool-cases (num == num')) [
        | inl hit ↦ rw hit (
            SameInode-trans _ _ _
              (inode_of-SameInode big _ (inode_bytes big ip) (λ k lt.
                after k lt
                ∙ subst
                    (λ n.
                      (if is_within o sizeof_d_inode (minix_inode_offset sb (n - 1) + k)
                        then inode_bytes big ip (minix_inode_offset sb (n - 1) + k - o)
                        else copy_from (disks dev) (inode_bytes big old) sizeof_d_inode
                            (minix_inode_offset sb (n - 1)) k)
                      ≡ inode_bytes big ip k)
                    ((==_iff num num').0 hit) (at_its_place (inode_bytes big ip) o k _ lt)))
              (inode_of-inode_bytes big ip w))
        | inr miss ↦ rw miss (
            inode_of-SameInode big _ _ (λ k lt.
              after k lt
              ∙ rw (elsewhere sb (num - 1) (num' - 1) k (apart num num' p p' miss) lt) refl))
      ]
    where
      apart : (num num' : ℕ) → 0 < num → 0 < num' → (num == num') ≡ false → (num - 1) ≢ (num' - 1)
      apart num num' p p' miss e = ground (arith, miss)

  -- In a file system that is not a bad one, a write of an i-node with fields in range succeeds.
  -- Afterwards a read of its number gives that i-node, and a read of another number what it gave before.
  pub minix_inode_write-read :
      (disks : Disks) (dev : ℕ) (sb : Superblock) (ip old : DInode) (num num' : ℕ)
      → is_bad_super sb ≡ false
      → IsDInode ip
      → IsInodeNumber dev sb num
      → IsInodeNumber dev sb num'
      → let out = minix_inode_write size big disks dev sb ip num in
        let after = minix_inode_read size big out.1 dev sb old num' in
        (out.0 ≡ ok tt)
        × (after.0 ≡ ok tt)
        × SameInode after.1
            (if num == num' then ip else (minix_inode_read size big disks dev sb old num').1)
  minix_inode_write-read disks dev sb ip old num num' good w h h' =
      rw (minix_inode_write-ok disks dev sb ip num good h) (
        rw
          (
            minix_inode_read-ok _ dev sb old num' good h',
            minix_inode_read-ok disks dev sb old num' good h',
          )
          (refl, refl, same_after disks dev sb ip old num num' w h.positive h'.positive))
