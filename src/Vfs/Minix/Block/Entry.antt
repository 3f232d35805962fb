-- ===== src/Vfs/Minix/Block/Entry.antt =====
-- The entries of an indirect block, on the disk and in the buffer it is read into.
use mathlib.Core.Path.{subst}
use multikernel.Common.{
  ℕ, ◌+◌, ◌*◌, ◌^◌, ◌<◌, ◌≡◌, ◌≢◌, refl, Bool, true, false, ◌&&◌, ◌==◌, ==_refl, if◌then◌else◌,
  if_inv, arith, ap, ◌∙◌, sym, inl, inr, Option, some_inj, some, none, Result, pos,
}
use multikernel.Bitmap.{Bitmap, bitmap_full, bitmap_first_free}
use multikernel.Vfs.Disk.{Data, Disks, copy_to, copy_from, ramdisk_write}
use multikernel.Vfs.Disk.Access.{
  copy_to-inside, copy_from-inside, fits, ramdisk_read-ok, ramdisk_write-ok,
}
use multikernel.Vfs.Minix.{
  Superblock, is_bad_super, minix_block_null, minix_block_size, minix_nr_single, minix_zone_single,
}
use multikernel.Vfs.Minix.Bytes.{half_at, set_half, half-bytes}
use multikernel.Vfs.Minix.Block.{
  FileMap, minix_block_alloc, allocated_block, zone_filled, entries, stored_entry, entry_of,
}

-- A block number is one of 16 bits.
abbrev GivesShort : Option (ℕ × Bitmap) → Type 0
GivesShort o = (num : ℕ) (zmap : Bitmap) → o ≡ some (num, zmap) → num < 2 ^ 16

some-GivesShort : (v : ℕ) (z : Bitmap) → v < 2 ^ 16 → GivesShort (some (v, z))
some-GivesShort v z lt num zmap e =
    subst (λ (q : ℕ × Bitmap). q.0 < 2 ^ 16) (some_inj (v, z) (num, zmap) e) lt

if-GivesShort :
    (b : Bool) (o o' : Option (ℕ × Bitmap))
    → GivesShort o
    → GivesShort o'
    → GivesShort (if b then o else o')
if-GivesShort true o o' h h' = h
if-GivesShort false o o' h h' = h'

allocated-GivesShort :
    (sb : Superblock) (zmap : Bitmap) (found : Option ℕ)
    → GivesShort (allocated_block sb zmap found)
allocated-GivesShort sb zmap none = λ num z e. absurd (ground (arith, e))
allocated-GivesShort sb zmap (some bit) =
    if-GivesShort (bit == bitmap_full) _ _ (some-GivesShort minix_block_null zmap (omega arith))
      (some-GivesShort _ _ (omega arith))

minix_block_alloc-GivesShort :
    (sb : Superblock) (zmap : Bitmap) → GivesShort (minix_block_alloc sb zmap)
unfolding minix_block_alloc
minix_block_alloc-GivesShort sb zmap =
    if-GivesShort (is_bad_super sb) _ _ (some-GivesShort minix_block_null zmap (omega arith))
      (allocated-GivesShort sb zmap (bitmap_first_free zmap (sb.s_bmap_nblocks * minix_block_size)))

-- A zone that is in use is not allocated again.
pub zone_filled-same :
    (sb : Superblock) (m : FileMap) (i : ℕ) (create : Bool)
    → (m.inode.i_zones i == minix_block_null) ≡ false
    → zone_filled sb m i create ≡ some m
unfolding zone_filled
zone_filled-same sb m i create used = rw used refl

-- The entry that a store of a number puts into an object, and that a transfer brings back
half_at-set_half :
    (big : Bool) (b : Data) (x v : ℕ) → v < 2 ^ 16 → half_at big (set_half big b x v) x ≡ v
half_at-set_half big b x v lt =
    half-bytes big (set_half big b x v) x v lt (rw (==_refl x) refl)
      (rw (next x, ==_refl (x + 1)) refl)
  where
    next : (x : ℕ) → (x + 1 == x) ≡ false
    next x = ground arith

half_same :
    (big : Bool) (b b' : Data) (x : ℕ)
    → b x ≡ b' x
    → b (x + 1) ≡ b' (x + 1)
    → half_at big b x ≡ half_at big b' x
half_same true b b' x e e' = rw (e, e') refl
half_same false b b' x e e' = rw (e, e') refl

pub not_zero : (n : ℕ) → n ≢ 0 → (n == 0) ≡ false
not_zero n h = ground (arith, h)

module _ (size : ℕ) (big : Bool) where
  -- The indirect block lies on the disk.
  abbrev pub HasBlock : ℕ → Type 0
  HasBlock phys = fits size 0 minix_block_size (pos (phys * minix_block_size)) ≡ true

  -- An entry is what the disk has, whatever was in the buffer.
  entry_on_disk :
      (disks : Disks) (before : Data) (phys logic : ℕ)
      → HasBlock phys
      → logic < minix_nr_single
      → half_at big (entries size big disks before phys) (logic * 2)
        ≡ half_at big (λ k. disks 0 (phys * minix_block_size + k)) (logic * 2)
  entry_on_disk disks before phys logic on lt =
      ap (λ (q : _). half_at big q.1 (logic * 2))
        (ramdisk_read-ok size disks 0 before minix_block_size (phys * minix_block_size) on)
      ∙ half_same big (copy_from (disks 0) before minix_block_size (phys * minix_block_size))
          (λ k. disks 0 (phys * minix_block_size + k)) (logic * 2)
          (copy_from-inside (disks 0) before minix_block_size (phys * minix_block_size) (logic * 2)
            (omega arith))
          (copy_from-inside (disks 0) before minix_block_size (phys * minix_block_size)
            (logic * 2 + 1) (omega arith))

  -- The entry that a new block was stored in
  stored_on_disk :
      (disks : Disks) (before buf : Data) (phys logic v : ℕ)
      → HasBlock phys
      → logic < minix_nr_single
      → v < 2 ^ 16
      → half_at big
          (entries size big
            (ramdisk_write size disks 0
              (set_half big buf (logic * 2) v)
              minix_block_size
              (pos (phys * minix_block_size))).1
            before
            phys)
          (logic * 2)
        ≡ v
  stored_on_disk disks before buf phys logic v on lt short =
      let b = set_half big buf (logic * 2) v in
      let o = phys * minix_block_size in
      entry_on_disk _ before phys logic on lt
      ∙ ap (λ (q : Result ℕ × Disks). half_at big (λ k. q.1 0 (o + k)) (logic * 2))
          (ramdisk_write-ok size disks 0 b minix_block_size o on)
      ∙ half_same big (λ k. copy_to (disks 0) b minix_block_size o (o + k)) b (logic * 2)
          (copy_to-inside (disks 0) b minix_block_size o (logic * 2) (omega arith))
          (copy_to-inside (disks 0) b minix_block_size o (logic * 2 + 1) (omega arith))
      ∙ half_at-set_half big buf (logic * 2) v short

  -- A second call on what a call left gives the same block, and leaves all as it is.
  abbrev pub IsRepeated : (FileMap → Bool → Data → Option (ℕ × FileMap)) → ℕ → FileMap → Type 0
  IsRepeated call num m = (create : Bool) (before : Data) → call m create before ≡ some (num, m)

  -- What a call left for an entry, if it gave a block
  abbrev Kept : Superblock → ℕ → FileMap → ℕ × FileMap → Type 0
  Kept sb logic m q =
      HasBlock (q.1.inode.i_zones minix_zone_single)
      → q.0 ≢ 0
      → (q.1.inode ≡ m.inode) × IsRepeated (λ t c b. entry_of size big sb b logic c t) q.0 q.1

  -- An entry that is in use is given.
  settled :
      (sb : Superblock) (logic num : ℕ) (m : FileMap) (create : Bool) (before : Data)
      → half_at big
          (entries size big m.disks before (m.inode.i_zones minix_zone_single))
          (logic * 2)
        ≡ num
      → num ≢ 0
      → entry_of size big sb before logic create m ≡ some (num, m)
  unfolding entry_of
  settled sb logic num m create before e used = rw e (rw (not_zero num used) refl)

  read-Kept :
      (sb : Superblock) (before : Data) (logic : ℕ) (m : FileMap)
      → logic < minix_nr_single
      → Kept sb logic m (
        half_at big
            (entries size big m.disks before (m.inode.i_zones minix_zone_single))
            (logic * 2),
        m,
      )
  read-Kept sb before logic m lt on used = (
    refl,
    λ c b.
        settled sb logic _ m c b
          (entry_on_disk m.disks b (m.inode.i_zones minix_zone_single) logic on lt
            ∙ sym (entry_on_disk m.disks before (m.inode.i_zones minix_zone_single) logic on lt))
          used,
  )

  stored-Kept :
      (sb : Superblock) (buf : Data) (logic : ℕ) (m : FileMap) (o : Option (ℕ × Bitmap))
      (q : ℕ × FileMap)
      → logic < minix_nr_single
      → GivesShort o
      → stored_entry size big m buf (m.inode.i_zones minix_zone_single * minix_block_size) logic o
        ≡ some q
      → Kept sb logic m q
  stored-Kept sb buf logic m none q lt short e = absurd (ground (arith, e))
  stored-Kept sb buf logic m (some (phys, zmap)) q lt short e =
      subst (Kept sb logic m) (some_inj _ q e) (λ on used. (
        refl,
        λ c b.
            settled sb logic phys _ c b
              (stored_on_disk m.disks b buf (m.inode.i_zones minix_zone_single) logic phys on lt
                (short phys zmap refl))
              used,
      ))

  pub entry-Kept :
      (sb : Superblock) (before : Data) (logic : ℕ) (create : Bool) (m : FileMap) (q : ℕ × FileMap)
      → logic < minix_nr_single
      → entry_of size big sb before logic create m ≡ some q
      → Kept sb logic m q
  unfolding entry_of
  entry-Kept sb before logic create m q lt e =
      elim (if_inv
        (half_at big (entries size big m.disks before (m.inode.i_zones minix_zone_single))
              (logic * 2)
            == minix_block_null
          && create)
        (stored_entry size big m
          (entries size big m.disks before (m.inode.i_zones minix_zone_single))
          (m.inode.i_zones minix_zone_single * minix_block_size) logic
          (minix_block_alloc sb m.zmap))
        (some (
          half_at big (entries size big m.disks before (m.inode.i_zones minix_zone_single))
              (logic * 2),
          m,
        ))
        e) [
          | inl (_, e') ↦
              stored-Kept sb _ logic m (minix_block_alloc sb m.zmap) q lt
                (minix_block_alloc-GivesShort sb m.zmap) e'
          | inr (_, e') ↦ subst (Kept sb logic m) (some_inj _ q e') (read-Kept sb before logic m lt)
        ]
