-- ===== src/Vfs/Minix/Block/Map.antt =====
-- The map from a file's offsets to blocks: a block that it gave is given again.
use mathlib.Core.Path.{subst}
use multikernel.Common.{
  ℕ, ◌-◌, ◌<◌, ◌≡◌, ◌≢◌, Bool, false, ◌||◌, ◌==◌, ltb, leb, if◌then◌else◌, if_inv, if_false, arith,
  ap, ◌∙◌, sym, inl, inr, Option, some_inj, some, none, ℤ,
}
use multikernel.Vfs.Disk.{Data}
use multikernel.Vfs.Minix.{
  Superblock, DInode, is_bad_super, minix_block_null, minix_nr_single, minix_zone_single,
  minix_nr_zones_direct,
}
use multikernel.Vfs.Minix.Block.{
  FileMap, logical_block, unsigned_offset, zone_filled, zone_of, entry_of, single_of, block_at,
  minix_block_map,
}
use multikernel.Vfs.Minix.Block.Entry.{zone_filled-same, not_zero, HasBlock, IsRepeated, entry-Kept}

module _ (size : ℕ) (big : Bool) where
  single-IsRepeated :
      (sb : Superblock) (before : Data) (logic : ℕ) (create : Bool) (m' : FileMap) (num : ℕ)
      (filled : Option FileMap)
      → logic < minix_nr_single
      → HasBlock size big (m'.inode.i_zones minix_zone_single)
      → single_of size big sb before logic create filled ≡ some (num, m')
      → num ≢ 0
      → IsRepeated size big
          (λ t c b. single_of size big sb b logic c (zone_filled sb t minix_zone_single c))
          num
          m'
  single-IsRepeated sb before logic create m' num none lt on e used = absurd (ground (arith, e))
  single-IsRepeated sb before logic create m' num (some m) lt on e used =
      elim (if_inv (m.inode.i_zones minix_zone_single == minix_block_null) none
        (entry_of size big sb before logic create m) e) [
          | inl (_, e') ↦ absurd (ground (arith, e'))
          | inr (u, e') ↦
              let k = entry-Kept size big sb before logic create m (num, m') lt e' on used in
              let u' =
                subst (λ (ip : DInode). (ip.i_zones minix_zone_single == minix_block_null) ≡ false)
                  (sym k.0) u in
              λ c b.
                subst (λ o. single_of size big sb b logic c o ≡ some (num, m'))
                  (sym (zone_filled-same sb m' minix_zone_single c u')) (rw u' (k.1 c b))
        ]

  direct-IsRepeated :
      (sb : Superblock) (i : ℕ) (m' : FileMap) (num : ℕ) (filled : Option FileMap)
      → zone_of i filled ≡ some (num, m')
      → num ≢ 0
      → (c : Bool) → zone_of i (zone_filled sb m' i c) ≡ some (num, m')
  direct-IsRepeated sb i m' num none e used = absurd (ground (arith, e))
  direct-IsRepeated sb i m' num (some m) e used =
      subst
        (λ (q : ℕ × FileMap). q.0 ≢ 0 → (c : Bool) → zone_of i (zone_filled sb q.1 i c) ≡ some q)
        (some_inj (m.inode.i_zones i, m) (num, m') e)
        (λ u c. ap (zone_of i) (zone_filled-same sb m i c (not_zero _ u))) used

  block-IsRepeated :
      (sb : Superblock) (before : Data) (m m' : FileMap) (logic : ℕ) (create : Bool) (num : ℕ)
      → block_at size big sb before m logic create ≡ some (num, m')
      → num ≢ 0
      → (ltb logic minix_nr_zones_direct ≡ false
          → HasBlock size big (m'.inode.i_zones minix_zone_single))
      → IsRepeated size big (λ t c b. block_at size big sb b t logic c) num m'
  unfolding block_at
  block-IsRepeated sb before m m' logic create num e used on =
      elim (if_inv (ltb logic minix_nr_zones_direct) (zone_of logic (zone_filled sb m logic create))
        (if ltb (logic - minix_nr_zones_direct) minix_nr_single
          then single_of size big sb before (logic - minix_nr_zones_direct) create
              (zone_filled sb m minix_zone_single create)
          else none)
        e) [
          | inl (d, e') ↦ λ c b.
              rw d (direct-IsRepeated sb logic m' num (zone_filled sb m logic create) e' used c)
          | inr (d, e') ↦
              elim (if_inv (ltb (logic - minix_nr_zones_direct) minix_nr_single)
                (single_of size big sb before (logic - minix_nr_zones_direct) create
                  (zone_filled sb m minix_zone_single create))
                none e') [
                  | inl (s, e'') ↦ λ c b.
                      rw (d, s)
                        (single-IsRepeated sb before (logic - minix_nr_zones_direct) create m' num
                          (zone_filled sb m minix_zone_single create) (ground (arith, s)) (on d) e''
                          used c b)
                  | inr (s, e'') ↦ absurd (ground (arith, e''))
                ]
        ]

  minix_block_map-IsRepeated :
      (sb : Superblock) (before : Data) (m m' : FileMap) (off : ℤ) (create : Bool) (num : ℕ)
      → minix_block_map size big sb before m off create ≡ some (num, m')
      → num ≢ 0
      → (ltb (logical_block off) minix_nr_zones_direct ≡ false
          → HasBlock size big (m'.inode.i_zones minix_zone_single))
      → IsRepeated size big (λ t c b. minix_block_map size big sb b t off c) num m'
  unfolding minix_block_map
  minix_block_map-IsRepeated sb before m m' off create num e used on =
      elim (if_inv (is_bad_super sb) (some (minix_block_null, m))
        (if leb sb.s_max_size (unsigned_offset off)
          then some (minix_block_null, m)
          else block_at size big sb before m (logical_block off)
              (ltb (unsigned_offset off) m.inode.i_size || create))
        e) [
          | inl (_, e') ↦ absurd (used (sym (ap (λ (q : ℕ × FileMap). q.0) (some_inj _ _ e'))))
          | inr (good, e') ↦
              elim (if_inv (leb sb.s_max_size (unsigned_offset off)) (some (minix_block_null, m))
                (block_at size big sb before m (logical_block off)
                  (ltb (unsigned_offset off) m.inode.i_size || create))
                e') [
                  | inl (_, e'') ↦
                      absurd (used (sym (ap (λ (q : ℕ × FileMap). q.0) (some_inj _ _ e''))))
                  | inr (small, e'') ↦ λ c b.
                      if_false _ _ _ good
                      ∙ if_false _ _ _ small
                      ∙ (block-IsRepeated sb before m m' (logical_block off) _ num e'' used on
                          (ltb (unsigned_offset off) m'.inode.i_size || c) b)
                ]
        ]

  -- When the map has given a block for an offset, it gives the same for it from then on, whether it
  -- is to create one or not and whatever its buffer holds, and changes nothing any more; for a
  -- block that is not of a direct zone, where the block of the single indirect zone lies on the disk.
  pub minix_block_map-again :
      (sb : Superblock) (before before' : Data) (m m' : FileMap) (off : ℤ) (create create' : Bool)
      (num : ℕ)
      → minix_block_map size big sb before m off create ≡ some (num, m')
      → num ≢ 0
      → (ltb (logical_block off) minix_nr_zones_direct ≡ false
          → HasBlock size big (m'.inode.i_zones minix_zone_single))
      → minix_block_map size big sb before' m' off create' ≡ some (num, m')
  minix_block_map-again sb before before' m m' off create create' num e used on =
      minix_block_map-IsRepeated sb before m m' off create num e used on create' before'
