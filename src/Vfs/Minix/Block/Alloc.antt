-- ===== src/Vfs/Minix/Block/Alloc.antt =====
-- The allocation and the release of blocks, as changes of the zone map's bits.
use mathlib.Core.Path.{subst}
use multikernel.Common.{
  ℕ, zero, suc, ◌+◌, ◌-◌, ◌*◌, ◌%◌, ◌^◌, ◌≤◌, ◌<◌, ◌≡◌, refl, ◌⊎◌, false, ◌==◌, Bool-cases, leb,
  if◌then◌else◌, arith, ap, ◌∙◌, sym, inl, inr, Option, some_inj, some, Status, ok, pos,
}
use multikernel.Bitmap.{Bitmap, bitmap_full, bitmap_set, bitmap_clear, bitmap_first_free}
use multikernel.Bitmap.Laws.{bit, IsWords, FindsFree, bit-clear, clear-set, bitmap_first_free_lem}
use multikernel.Vfs.Minix.{Superblock, is_bad_super, minix_block_null, minix_nr_single}
use multikernel.Vfs.Minix.Block.{
  minix_block_alloc, allocated_block, zone_bit, free_times, minix_block_free_direct,
  minix_block_free_indirect, minix_block_free_dindirect, minix_block_free,
}

-- What a call that allocates a block gives: the null block, and then every bit of the zone map is
-- set and it is as before; or the block of the lowest clear bit, which is set from then on.
abbrev pub AllocatesBlock : Superblock → Bitmap → Option (ℕ × Bitmap) → Type 0
AllocatesBlock sb zmap result =
    ((result ≡ some (minix_block_null, zmap))
      × ((j : ℕ) → j < sb.s_bmap_nblocks * 8192 → bit zmap j ≡ 1))
    ⊎ ((r : ℕ) × (result ≡ some ((sb.s_first_data_block + r) % 2 ^ 16, bitmap_set zmap r))
        × (r < sb.s_bmap_nblocks * 8192)
        × (bit zmap r ≡ 0)
        × ((j : ℕ) → j < r → bit zmap j ≡ 1))

-- In a file system that is not a bad one, the call takes the lowest clear bit of the zone map and
-- returns the block that is as far from the first data block; it returns the null block with the
-- map as it was only if each bit is set, or if that number is a multiple of 2 ^ 16.
pub minix_block_alloc_lem :
    (sb : Superblock) (zmap : Bitmap)
    → is_bad_super sb ≡ false
    → IsWords zmap
    → sb.s_bmap_nblocks < 2 ^ 16
    → AllocatesBlock sb zmap (minix_block_alloc sb zmap)
unfolding minix_block_alloc
minix_block_alloc_lem sb zmap good w small = rw good (
    allocated (sb.s_bmap_nblocks * 256) (by_words sb.s_bmap_nblocks) _ (
      subst (λ t. FindsFree zmap (sb.s_bmap_nblocks * 256) (bitmap_first_free zmap t))
        (sym (in_bytes sb.s_bmap_nblocks))
        (bitmap_first_free_lem zmap (sb.s_bmap_nblocks * 256) w (omega arith))))
  where
    in_bytes : (n : ℕ) → n * 1024 ≡ n * 256 * 4
    in_bytes n = omega arith

    by_words : (n : ℕ) → n * 256 * 32 ≡ n * 8192
    by_words n = omega arith

    beyond : (r n : ℕ) → r < n → n < 2 ^ 30 → (r == bitmap_full) ≡ false
    beyond r n lt le = ground arith

    allocated :
        (n : ℕ)
        → n * 32 ≡ sb.s_bmap_nblocks * 8192
        → (found : Option ℕ) → FindsFree zmap n found
        → AllocatesBlock sb zmap (allocated_block sb zmap found)
    allocated n e found (inl (full, set)) = rw full (inl (refl, λ j lt. set j (omega arith)))
    allocated n e found (inr (r, hit, lt, free, before)) =
        rw hit (inr (r, rw (beyond r (n * 32) lt (omega arith)) refl, omega arith, free, before))

-- One bit is cleared, that of the block.
abbrev FreesOnly : Superblock → ℕ → Bitmap → Bitmap → Type 0
FreesOnly sb num zmap zmap' =
    (j : ℕ) → bit zmap' j ≡ (if zone_bit sb num == j then 0 else bit zmap j)

FreesOnly-trans :
    (sb : Superblock) (num : ℕ) (z z' z'' : Bitmap)
    → FreesOnly sb num z z'
    → FreesOnly sb num z' z''
    → FreesOnly sb num z z''
FreesOnly-trans sb num z z' z'' h h' j = elim (Bool-cases (zone_bit sb num == j)) [
  | inl hit ↦ h' j ∙ rw hit refl
  | inr miss ↦ h' j ∙ rw miss (h j ∙ rw miss refl)
]

-- The block's bit is one of the zones'.
abbrev pub IsBlock : Superblock → ℕ → Type 0
IsBlock sb num = (0 < num) × (zone_bit sb num < sb.s_nblocks)

module _ (sb : Superblock) (num : ℕ) (good : is_bad_super sb ≡ false) (h : IsBlock sb num) where
  not_null : (num == 0) ≡ false
  not_null = ground (arith, h)

  pub minix_block_free_direct-ok :
      (zmap : Bitmap)
      → minix_block_free_direct sb zmap num ≡ (ok tt, bitmap_clear zmap (zone_bit sb num))
  unfolding minix_block_free_direct
  minix_block_free_direct-ok zmap =
      rw (good, not_null, inside (zone_bit sb num) sb.s_nblocks h.1) refl
    where
      inside : (b n : ℕ) → b < n → leb n b ≡ false
      inside b n lt = ground arith

  direct-FreesOnly : (zmap : Bitmap) → FreesOnly sb num zmap (minix_block_free_direct sb zmap num).1
  direct-FreesOnly zmap j =
      rw (minix_block_free_direct-ok zmap) (bit-clear zmap (zone_bit sb num) j)

  times-FreesOnly :
      (free : Bitmap → Status × Bitmap)
      → ((z : Bitmap) → FreesOnly sb num z (free z).1)
      → (n : ℕ) (zmap : Bitmap)
      → FreesOnly sb num zmap (minix_block_free_direct sb (free_times free n zmap) num).1
  unfolding free_times
  times-FreesOnly free each zero zmap = direct-FreesOnly zmap
  times-FreesOnly free each (suc n) zmap =
      FreesOnly-trans sb num zmap (free zmap).1
        (minix_block_free_direct sb (free_times free n (free zmap).1) num).1 (each zmap)
        (times-FreesOnly free each n (free zmap).1)

  -- The guards of a release let it through.
  guarded :
      {A : Type 0} (x y : A)
      → (if is_bad_super sb then x else if num == minix_block_null then x else y) ≡ y
  guarded x y = rw (good, not_null) refl

  indirect-FreesOnly :
      (zmap : Bitmap) → FreesOnly sb num zmap (minix_block_free_indirect sb zmap num).1
  unfolding minix_block_free_indirect
  indirect-FreesOnly zmap =
      subst (λ (out : Status × Bitmap). FreesOnly sb num zmap out.1) (sym (guarded _ _))
        (times-FreesOnly (λ z. minix_block_free_direct sb z num) direct-FreesOnly minix_nr_single
          zmap)

  dindirect-FreesOnly :
      (zmap : Bitmap) → FreesOnly sb num zmap (minix_block_free_dindirect sb zmap num).1
  unfolding minix_block_free_dindirect
  dindirect-FreesOnly zmap =
      subst (λ (out : Status × Bitmap). FreesOnly sb num zmap out.1) (sym (guarded _ _))
        (times-FreesOnly (λ z. minix_block_free_indirect sb z num) indirect-FreesOnly
          minix_nr_single zmap)

  passed : {A : Type 0} (x y : A) → (if is_bad_super sb then x else y) ≡ y
  passed x y = rw good refl

  abbrev Frees : Bitmap → Status × Bitmap → Type 0
  Frees zmap out = (out.0 ≡ ok tt) × FreesOnly sb num zmap out.1

  -- Releasing a block of the file system, as a direct, a single indirect or a double indirect one,
  -- succeeds and clears the bit of that block and no other: the blocks that an indirect block
  -- points to are not released.
  pub minix_block_free-bits :
      (zmap : Bitmap) (lvl : ℕ)
      → lvl < 3
      → let out = minix_block_free sb zmap num (pos lvl) in
        (out.0 ≡ ok tt) × ((j : ℕ) → bit out.1 j ≡ (if zone_bit sb num == j then 0 else bit zmap j))
  unfolding minix_block_free
  minix_block_free-bits zmap zero lt =
      subst (Frees zmap) (sym (passed _ _)) (refl, direct-FreesOnly zmap)
  minix_block_free-bits zmap (suc zero) lt =
      subst (Frees zmap) (sym (passed _ _)) (refl, indirect-FreesOnly zmap)
  minix_block_free-bits zmap (suc (suc zero)) lt =
      subst (Frees zmap) (sym (passed _ _)) (refl, dindirect-FreesOnly zmap)
  minix_block_free-bits zmap (suc (suc (suc n))) lt = absurd (omega arith)

-- The release of a block gives back the zone map from before its allocation.
abbrev Restored : Superblock → Bitmap → ℕ × Bitmap → Type 0
Restored sb zmap q =
    IsBlock sb q.0
    → ((minix_block_free_direct sb q.1 q.0).0 ≡ ok tt)
      × ((j : ℕ) → bit (minix_block_free_direct sb q.1 q.0).1 j ≡ bit zmap j)

-- A block that was just allocated is released with the same map as before the allocation, when the
-- zone map has at most 2 ^ 16 bits and the block is one of the zones.
pub minix_block_alloc-free :
    (sb : Superblock) (zmap zmap' : Bitmap) (num : ℕ)
    → is_bad_super sb ≡ false
    → IsWords zmap
    → sb.s_bmap_nblocks ≤ 8
    → sb.s_first_data_block < 2 ^ 16
    → minix_block_alloc sb zmap ≡ some (num, zmap')
    → IsBlock sb num
    → ((minix_block_free_direct sb zmap' num).0 ≡ ok tt)
      × ((j : ℕ) → bit (minix_block_free_direct sb zmap' num).1 j ≡ bit zmap j)
minix_block_alloc-free sb zmap zmap' num good w small first e h =
    elim (minix_block_alloc_lem sb zmap good w (omega arith)) [
      | inl (null, full) ↦ absurd (null_num (sym null ∙ e))
      | inr (r, got, lt, free, before) ↦ taken r got lt free
    ]
  where
    positive : {n : ℕ} → 0 ≡ n → 0 < n → ⊥
    positive eq lt = omega arith

    null_num : ◌≡◌ {A = Option (ℕ × Bitmap)} (some (minix_block_null, zmap)) (some (num, zmap')) → ⊥
    null_num eq = positive (ap (λ (q : ℕ × Bitmap). q.0) (some_inj _ _ eq)) h.0

    back :
        (first r : ℕ)
        → first < 2 ^ 16
        → r < 2 ^ 16
        → ((first + r) % 2 ^ 16 + 2 ^ 16 - first) % 2 ^ 16 ≡ r
    back first r lt lt' = omega arith

    restored :
        (r : ℕ)
        → r < sb.s_bmap_nblocks * 8192
        → bit zmap r ≡ 0
        → Restored sb zmap ((sb.s_first_data_block + r) % 2 ^ 16, bitmap_set zmap r)
    restored r lt free is_block =
        rw
          (
            minix_block_free_direct-ok sb _ good is_block (bitmap_set zmap r),
            back sb.s_first_data_block r first (omega arith),
          )
          (refl, clear-set zmap r free)

    taken :
        (r : ℕ)
        → minix_block_alloc sb zmap ≡ some ((sb.s_first_data_block + r) % 2 ^ 16, bitmap_set zmap r)
        → r < sb.s_bmap_nblocks * 8192
        → bit zmap r ≡ 0
        → ((minix_block_free_direct sb zmap' num).0 ≡ ok tt)
          × ((j : ℕ) → bit (minix_block_free_direct sb zmap' num).1 j ≡ bit zmap j)
    taken r got lt free =
        subst (Restored sb zmap) (some_inj _ _ (sym got ∙ e)) (restored r lt free) h
