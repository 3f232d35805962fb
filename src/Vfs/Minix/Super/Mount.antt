-- ===== src/Vfs/Minix/Super/Mount.antt =====
-- A superblock and maps that were written are read back.
use mathlib.Core.Path.{subst}
use multikernel.Common.{
  ℕ, ◌+◌, ◌*◌, ◌<◌, ◌≡◌, refl, Bool, true, false, ==_refl, if◌then◌else◌, if_false, arith, ap, ◌∙◌,
  sym, some, Result, ok, err, einval, pos, update,
}
use multikernel.Bitmap.{Bitmap}
use multikernel.Bitmap.Laws.{IsWords}
use multikernel.Vfs.Disk.{Data, Disks, is_within, copy_to, copy_from, ramdisk_read, ramdisk_write}
use multikernel.Vfs.Disk.Access.{
  copy_to-inside, copy_from-inside, fits, ramdisk_read-ok, ramdisk_write-ok,
}
use multikernel.Vfs.Minix.{Superblock, is_bad_super, minix_block_size, sizeof_d_superblock}
use multikernel.Vfs.Minix.Super.{
  super_bytes, super_of, bitmap_bytes, bitmap_of, then_write, then_read, written, zmap_offset,
  read_maps, write_maps, minix_super_read, minix_super_write,
}
use multikernel.Vfs.Minix.Super.Layout.{IsSuper, super-bytes, map-bytes}

module _ (size : ℕ) (big : Bool) (dev : ℕ) (sb : Superblock) (zmap imap : Bitmap) where
  -- The disk after the three writes
  abbrev first_written : Data → Data
  first_written d = copy_to d (super_bytes big sb) sizeof_d_superblock (1 * minix_block_size)

  abbrev second_written : Data → Data
  second_written d =
      copy_to (first_written d) (bitmap_bytes big imap) (sb.s_imap_nblocks * minix_block_size)
        (2 * minix_block_size)

  abbrev all_written : Data → Data
  all_written d =
      copy_to (second_written d) (bitmap_bytes big zmap) (sb.s_bmap_nblocks * minix_block_size)
        (zmap_offset sb)

  in_super :
      (d : Data) (k : ℕ)
      → k < sizeof_d_superblock
      → all_written d (1 * minix_block_size + k) ≡ super_bytes big sb k
  in_super d k lt =
      rw (before_zmap sb.s_imap_nblocks sb.s_bmap_nblocks k lt, before_imap sb.s_imap_nblocks k lt)
        (copy_to-inside d (super_bytes big sb) sizeof_d_superblock (1 * minix_block_size) k lt)
    where
      before_zmap : (a c k : ℕ) → k < 18 → is_within ((2 + a) * 1024) (c * 1024) (1024 + k) ≡ false
      before_zmap a c k lt = ground arith

      before_imap : (a k : ℕ) → k < 18 → is_within 2048 (a * 1024) (1024 + k) ≡ false
      before_imap a k lt = ground arith

  in_imap :
      (d : Data) (k : ℕ)
      → k < sb.s_imap_nblocks * minix_block_size
      → all_written d (2 * minix_block_size + k) ≡ bitmap_bytes big imap k
  in_imap d k lt = rw (before_zmap sb.s_imap_nblocks sb.s_bmap_nblocks k lt) (
      copy_to-inside (first_written d) (bitmap_bytes big imap)
        (sb.s_imap_nblocks * minix_block_size) (2 * minix_block_size) k lt)
    where
      before_zmap :
          (a c k : ℕ) → k < a * 1024 → is_within ((2 + a) * 1024) (c * 1024) (2048 + k) ≡ false
      before_zmap a c k lt = ground arith

  -- The superblock and the maps, in their order, lie on the disk.
  pub record HasMaps : Type 0 where
    pub super_fits : fits size dev sizeof_d_superblock (pos (1 * minix_block_size)) ≡ true
    pub imap_fits :
        fits size dev (sb.s_imap_nblocks * minix_block_size) (pos (2 * minix_block_size)) ≡ true
    pub zmap_fits :
        fits size dev (sb.s_bmap_nblocks * minix_block_size) (pos (zmap_offset sb)) ≡ true

  pub minix_super_write-ok :
      (disks : Disks)
      → is_bad_super sb ≡ false
      → HasMaps
      → (disks' : Disks) × (minix_super_write size big disks dev sb zmap imap ≡ (ok tt, disks'))
        × (disks' dev ≡ all_written (disks dev))
  unfolding minix_super_write write_maps
  minix_super_write-ok disks good h =
      let d1 = update disks dev (first_written (disks dev)) in
      let d2 = update d1 dev (
        copy_to (d1 dev) (bitmap_bytes big imap) (sb.s_imap_nblocks * minix_block_size)
          (2 * minix_block_size)) in
      let d3 = update d2 dev (
        copy_to (d2 dev) (bitmap_bytes big zmap) (sb.s_bmap_nblocks * minix_block_size)
          (zmap_offset sb)) in
      (
        d3,
        ap
              (λ (q : Result ℕ × Disks). then_write q (λ d.
                if is_bad_super sb
                then (err einval, d)
                else write_maps size big sb zmap imap dev d))
              (ramdisk_write-ok size disks dev (super_bytes big sb) sizeof_d_superblock
                (1 * minix_block_size) h.super_fits)
            ∙ if_false _ _ _ good
            ∙ ap
                (λ (q : Result ℕ × Disks). then_write q (λ d. written (
                  ramdisk_write size d dev (bitmap_bytes big zmap)
                    (sb.s_bmap_nblocks * minix_block_size) (pos (zmap_offset sb)))))
                (ramdisk_write-ok size d1 dev (bitmap_bytes big imap)
                  (sb.s_imap_nblocks * minix_block_size) (2 * minix_block_size) h.imap_fits)
            ∙ ap written (
                ramdisk_write-ok size d2 dev (bitmap_bytes big zmap)
                  (sb.s_bmap_nblocks * minix_block_size) (zmap_offset sb) h.zmap_fits),
        rw (==_refl dev) refl,
      )

  -- What a read of a disk with the superblock and the maps gives
  abbrev pub IsRead : Result (Superblock × Bitmap × Bitmap) → Type 0
  IsRead (err e) = ⊥
  IsRead (ok (sb', zmap', imap')) =
      (sb' ≡ sb)
      × ((i : ℕ) → i < sb.s_bmap_nblocks * 256 → zmap' i ≡ zmap i)
      × ((i : ℕ) → i < sb.s_imap_nblocks * 256 → imap' i ≡ imap i)

  in_zmap :
      (d : Data) (k : ℕ)
      → k < sb.s_bmap_nblocks * minix_block_size
      → all_written d (zmap_offset sb + k) ≡ bitmap_bytes big zmap k
  in_zmap d k lt =
      copy_to-inside (second_written d) (bitmap_bytes big zmap)
        (sb.s_bmap_nblocks * minix_block_size) (zmap_offset sb) k lt

  super_again :
      (disks : Disks) (d : Data) (old : Superblock)
      → disks dev ≡ all_written d
      → IsSuper sb
      → super_of big
          (copy_from (disks dev) (super_bytes big old) sizeof_d_superblock (1 * minix_block_size))
        ≡ sb
  super_again disks d old same w = super-bytes big sb _ w (λ k lt.
      copy_from-inside (disks dev) (super_bytes big old) sizeof_d_superblock (1 * minix_block_size)
        k lt
      ∙ ap (λ g. g (1 * minix_block_size + k)) same
      ∙ in_super d k lt)

  maps_again :
      (disks : Disks) (d mem mem' : Data)
      → disks dev ≡ all_written d
      → IsWords zmap
      → IsWords imap
      → HasMaps
      → IsRead (read_maps size big disks dev (some mem) (some mem') sb)
  unfolding read_maps
  maps_again disks d mem mem' same wz wi h =
      let zb = copy_from (disks dev) mem' (sb.s_bmap_nblocks * minix_block_size) (zmap_offset sb) in
      let ib =
        copy_from (disks dev) mem (sb.s_imap_nblocks * minix_block_size) (2 * minix_block_size) in
      subst IsRead
        (sym (
          ap
            (λ (q : Result ℕ × Data). then_read {A = Superblock × Bitmap × Bitmap} q (λ i.
              then_read {A = Superblock × Bitmap × Bitmap}
                (ramdisk_read size disks dev mem' (sb.s_bmap_nblocks * minix_block_size)
                  (pos (zmap_offset sb)))
                (λ z. ok (sb, bitmap_of big z, bitmap_of big i))))
            (ramdisk_read-ok size disks dev mem (sb.s_imap_nblocks * minix_block_size)
              (2 * minix_block_size) h.imap_fits)
          ∙ ap
              (λ (q : Result ℕ × Data).
                then_read {A = Superblock × Bitmap × Bitmap} q
                  (λ z. ok (sb, bitmap_of big z, bitmap_of big ib)))
              (ramdisk_read-ok size disks dev mem' (sb.s_bmap_nblocks * minix_block_size)
                (zmap_offset sb) h.zmap_fits)))
        (
          refl,
          map-bytes big zmap zb sb.s_bmap_nblocks wz (λ k lt.
              copy_from-inside (disks dev) mem' (sb.s_bmap_nblocks * minix_block_size)
                (zmap_offset sb) k lt
              ∙ ap (λ g. g (zmap_offset sb + k)) same
              ∙ in_zmap d k lt),
          map-bytes big imap ib sb.s_imap_nblocks wi (λ k lt.
              copy_from-inside (disks dev) mem (sb.s_imap_nblocks * minix_block_size)
                (2 * minix_block_size) k lt
              ∙ ap (λ g. g (2 * minix_block_size + k)) same
              ∙ in_imap d k lt),
        )

  reads :
      (disks : Disks) (d : Data) (old : Superblock) (mem mem' : Data)
      → disks dev ≡ all_written d
      → is_bad_super sb ≡ false
      → IsSuper sb
      → IsWords zmap
      → IsWords imap
      → HasMaps
      → IsRead (minix_super_read size big disks dev old (some mem) (some mem'))
  unfolding minix_super_read
  reads disks d old mem mem' same good w wz wi h =
      subst IsRead
        (sym (
          ap
            (λ (q : Result ℕ × Data). then_read q (λ b.
              if is_bad_super (super_of big b)
              then err einval
              else read_maps size big disks dev (some mem) (some mem') (super_of big b)))
            (ramdisk_read-ok size disks dev (super_bytes big old) sizeof_d_superblock
              (1 * minix_block_size) h.super_fits)
          ∙ ap
              (λ t.
                if is_bad_super t
                then err einval
                else read_maps size big disks dev (some mem) (some mem') t)
              (super_again disks d old same w)
          ∙ if_false _ _ _ good))
        (maps_again disks d mem mem' same wz wi h)

  -- The superblock of a file system that is not a bad one, with its two maps, is written without an
  -- error if all lie on the disk; and when memory is given for the maps, reading them then gives the
  -- superblock and each word of the maps.
  pub minix_super_write-IsRead :
      (disks : Disks) (old : Superblock) (mem mem' : Data)
      → is_bad_super sb ≡ false
      → IsSuper sb
      → IsWords zmap
      → IsWords imap
      → HasMaps
      → let out = minix_super_write size big disks dev sb zmap imap in
        (out.0 ≡ ok tt) × IsRead (minix_super_read size big out.1 dev old (some mem) (some mem'))
  minix_super_write-IsRead disks old mem mem' good w wz wi h =
      let done = minix_super_write-ok disks good h in
      rw done.1 (refl, reads done.0 (disks dev) old mem mem' done.2 good w wz wi h)
