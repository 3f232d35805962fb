-- ===== src/Vfs/Minix/Inode/Allocate.antt =====
-- The allocation of i-nodes from the i-node map, and their release.
use mathlib.Core.Path.{subst}
use multikernel.Common.{
  ℕ, ◌+◌, ◌-◌, ◌*◌, ◌%◌, ◌^◌, ◌≤◌, ◌<◌, ◌≡◌, refl, ◌⊎◌, Bool, true, false, ◌==◌, ==_refl,
  Bool-cases, leb, if◌then◌else◌, arith, ◌∙◌, sym, inl, inr, Option, some, ok, err, einval, pos,
}
use multikernel.Bitmap.{Bitmap, bitmap_full, bitmap_set, bitmap_clear, bitmap_first_free}
use multikernel.Bitmap.Laws.{bit, IsWords, FindsFree, bit-clear, clear-set, bitmap_first_free_lem}
use multikernel.Vfs.Disk.{Disks}
use multikernel.Vfs.Disk.Access.{fits}
use multikernel.Vfs.Minix.{Superblock, DInode, is_bad_super, minix_inode_null, sizeof_d_inode}
use multikernel.Vfs.Minix.Inode.{
  inode_index, minix_inode_offset, minix_inode_read, minix_inode_write, fresh_inode,
  allocated_inode, minix_inode_alloc, minix_inode_free,
}
use multikernel.Vfs.Minix.Inode.Layout.{IsDInode, SameInode}
use multikernel.Vfs.Minix.Inode.Transfer.{
  IsInodeNumber, minix_inode_write-ok, minix_inode_write-read,
}

module _ (size : ℕ) (big : Bool) where
  -- Each i-node of the table lies on the disk.
  abbrev pub HasTable : ℕ → Superblock → Type 0
  HasTable dev sb =
      (num : ℕ)
      → 0 < num
      → num ≤ sb.s_ninodes
      → fits size dev sizeof_d_inode (pos (minix_inode_offset sb (num - 1))) ≡ true

  -- What a call that allocates an i-node gives: the null number, and then all i-nodes of the table
  -- are in use and nothing has changed; or the number of the lowest free one, which is in use from
  -- then on, and on the disk is `ip`.
  abbrev pub AllocatesInode :
      Disks → ℕ → Superblock → Bitmap → DInode → Option (ℕ × Bitmap × Disks) → Type 0
  AllocatesInode disks dev sb imap ip result =
      ((imap' : Bitmap) × (result ≡ some (minix_inode_null, imap', disks))
        × ((j : ℕ) → bit imap' j ≡ bit imap j)
        × ((j : ℕ) → j < sb.s_ninodes → bit imap j ≡ 1))
      ⊎ ((r : ℕ) × (disks' : Disks) × (result ≡ some (r + 1, bitmap_set imap r, disks'))
          × (r < sb.s_ninodes)
          × (bit imap r ≡ 0)
          × ((j : ℕ) → j < r → bit imap j ≡ 1)
          × ((old : DInode) → SameInode (minix_inode_read size big disks' dev sb old (r + 1)).1 ip))

  module _ (disks : Disks) (dev : ℕ) (sb : Superblock) (imap : Bitmap) (ip : DInode) (r : ℕ)
      (good : is_bad_super sb ≡ false) (w : IsDInode ip) (short : r + 1 < 2 ^ 16)
      (table : HasTable dev sb) where
    in_table : r < sb.s_ninodes → IsInodeNumber size big dev sb (r + 1)
    in_table lt = record {
      positive = omega arith;
      in_table = omega arith;
      short = short;
      on_disk = table (r + 1) (omega arith) (omega arith);
    }

    whole : (r + 1) % 2 ^ 16 ≡ r + 1
    whole = omega arith

    not_full : (r == bitmap_full) ≡ false
    not_full = ground arith

    taken :
        (lt : r < sb.s_ninodes)
        → allocated_inode size big disks dev sb imap ip (some r)
          ≡ some (r + 1, bitmap_set imap r, (minix_inode_write size big disks dev sb ip (r + 1)).1)
    unfolding allocated_inode
    taken lt =
        rw
          (
            not_full,
            whole,
            minix_inode_write-ok size big disks dev sb ip (r + 1) good (in_table lt),
          )
          (rw whole refl)

    not_listed :
        sb.s_ninodes ≤ r → minix_inode_write size big disks dev sb ip (r + 1) ≡ (err einval, disks)
    unfolding minix_inode_write
    not_listed le = rw (good, outside sb.s_ninodes r short le) refl
      where
        outside : (n r : ℕ) → r + 1 < 2 ^ 16 → n ≤ r → leb n (inode_index (r + 1)) ≡ true
        outside n r lt le = ground arith

    refused :
        sb.s_ninodes ≤ r
        → allocated_inode size big disks dev sb imap ip (some r)
          ≡ some (minix_inode_null, bitmap_clear (bitmap_set imap r) r, disks)
    unfolding allocated_inode
    refused le = rw (not_full, whole, not_listed le) refl

  fresh-IsDInode :
      (mode uid gid now : ℕ)
      → mode < 2 ^ 16
      → uid < 2 ^ 16
      → IsDInode (fresh_inode size big mode uid gid now)
  fresh-IsDInode mode uid gid now hm hu = record {
    mode = hm;
    uid = hu;
    size = omega arith;
    time = omega arith;
    gid = omega arith;
    nlinks = omega arith;
    zones = λ i hi. omega arith;
  }

  allocated-Allocates :
      (disks : Disks) (dev : ℕ) (sb : Superblock) (imap : Bitmap) (ip : DInode) (n : ℕ)
      → is_bad_super sb ≡ false
      → IsDInode ip
      → sb.s_ninodes ≡ n * 4
      → n * 32 < 2 ^ 16
      → HasTable dev sb
      → (found : Option ℕ) → FindsFree imap n found
      → AllocatesInode disks dev sb imap ip (allocated_inode size big disks dev sb imap ip found)
  unfolding allocated_inode
  allocated-Allocates disks dev sb imap ip n good w hn small table found (inl (e, full)) =
      rw e (inl (imap, refl, λ j. refl, λ j hj. full j (omega arith)))
  allocated-Allocates disks dev sb imap ip n good w hn small table found
        (inr (r, e, lt, free, before)) =
      rw e (elim (below_or sb.s_ninodes r) [
        | inl listed ↦ inr (
          r,
          (minix_inode_write size big disks dev sb ip (r + 1)).1,
          taken disks dev sb imap ip r good w (omega arith) table listed,
          listed,
          free,
          before,
          λ old. rw (==_refl (r + 1)) at (
              (minix_inode_write-read size big disks dev sb ip old (r + 1) (r + 1) good w
                (in_table disks dev sb imap ip r good w (omega arith) table listed)
                (in_table disks dev sb imap ip r good w (omega arith) table listed)).2),
        )
        | inr beyond ↦ inl (
          bitmap_clear (bitmap_set imap r) r,
          refused disks dev sb imap ip r good w (omega arith) table beyond,
          clear-set imap r free,
          λ j hj. before j (omega arith),
        )
      ])
    where
      below_or : (n r : ℕ) → (r < n) ⊎ (n ≤ r)
      below_or n r = omega arith

  -- In a file system that is not a bad one, whose i-nodes are a multiple of four and fewer than
  -- 8192 and lie on the disk, with mode and user in range: the call gives the lowest number that is
  -- free in the map, takes it, and writes the new i-node to the disk; it gives the null number only
  -- if all of the table's i-nodes are in use, and then leaves the map's bits and the disks as they were.
  pub minix_inode_alloc-Allocates :
      (disks : Disks) (dev : ℕ) (sb : Superblock) (imap : Bitmap) (mode uid gid now n : ℕ)
      → is_bad_super sb ≡ false
      → IsWords imap
      → sb.s_ninodes ≡ n * 4
      → n * 32 < 2 ^ 16
      → mode < 2 ^ 16
      → uid < 2 ^ 16
      → HasTable dev sb
      → AllocatesInode disks dev sb imap
          (fresh_inode size big mode uid gid now)
          (minix_inode_alloc size big disks dev sb imap mode uid gid now)
  unfolding minix_inode_alloc
  minix_inode_alloc-Allocates disks dev sb imap mode uid gid now n good words hn small hm hu table =
      rw good (
        allocated-Allocates disks dev sb imap (fresh_inode size big mode uid gid now) n good
          (fresh-IsDInode mode uid gid now hm hu) hn small table _
          (subst (λ t. FindsFree imap n (bitmap_first_free imap t)) (sym hn)
            (bitmap_first_free_lem imap n words (omega arith))))

-- Releasing an i-node of the table frees its number in the map and no other; another number is
-- refused, and then nothing changes.
pub minix_inode_free_lem :
    (sb : Superblock) (imap : Bitmap) (num : ℕ)
    → is_bad_super sb ≡ false
    → num < 2 ^ 16
    → sb.s_ninodes < 2 ^ 16
    → ((0 < num)
        × (num ≤ sb.s_ninodes)
        × ((minix_inode_free sb imap num).0 ≡ ok tt)
        × ((j : ℕ)
            → bit (minix_inode_free sb imap num).1 j ≡ (if num == j + 1 then 0 else bit imap j)))
      ⊎ ((¬ ((0 < num) × (num ≤ sb.s_ninodes)))
          × (minix_inode_free sb imap num ≡ (err einval, imap)))
unfolding minix_inode_free
minix_inode_free_lem sb imap num good lt short =
    elim (Bool-cases (leb sb.s_ninodes (inode_index num))) [
      | inl out ↦ inr (λ (p, le). ground (arith, out), rw (good, out) refl)
      | inr in_range ↦ inl (
        ground (arith, in_range),
        ground (arith, in_range),
        rw (good, in_range) refl,
        λ j. rw (good, in_range) (bit-clear imap (inode_index num) j ∙ ground (arith, in_range)),
      )
    ]
