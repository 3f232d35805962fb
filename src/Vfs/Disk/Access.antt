-- ===== src/Vfs/Disk/Access.antt =====
-- When the RAM disk accepts a transfer, and that it keeps what it is given.
use multikernel.Common.{
  ℕ, ◌+◌, ◌-◌, ◌<◌, ◌≡◌, refl, Bool, true, false, ◌&&◌, ℤ, pos, negsuc, pos_part, leb, ltb, arith,
  update, if◌then◌else◌, ok, err, einval, ap,
}
use multikernel.Vfs.Disk.{
  Data, Disks, nr_ramdisks, is_within, copy_to, copy_from, ramdisk_write, ramdisk_read,
}

-- A transfer moves the bytes of its range, and no others.
pub copy_from-inside :
    (bytes b : Data) (n o k : ℕ) → k < n → copy_from bytes b n o k ≡ bytes (o + k)
copy_from-inside bytes b n o k lt = ground (arith, lt)

pub copy_to-inside : (bytes b : Data) (n o k : ℕ) → k < n → copy_to bytes b n o (o + k) ≡ b k
copy_to-inside bytes b n o k lt = rw (inside n o k lt) (ap b (back o k))
  where
    inside : (n o k : ℕ) → k < n → is_within o n (o + k) ≡ true
    inside n o k lt = ground arith

    back : (o k : ℕ) → o + k - o ≡ k
    back o k = omega arith

pub copy_to-outside :
    (bytes b : Data) (n o k : ℕ) → is_within o n k ≡ false → copy_to bytes b n o k ≡ bytes k
copy_to-outside bytes b n o k out = rw out refl

module _ (size : ℕ) where
  -- The transfer stays inside a disk.
  abbrev pub fits : ℕ → ℕ → ℤ → Bool
  fits minor n (negsuc off) = false
  fits minor n (pos off) = ltb minor nr_ramdisks && ltb off size && leb (off + n) size

  pub ramdisk_write-cases :
      (disks : Disks) (minor : ℕ) (buf : Data) (n : ℕ) (off : ℤ)
      → ramdisk_write size disks minor buf n off ≡ (
          if fits minor n off
          then (ok n, update disks minor (copy_to (disks minor) buf n (pos_part off)))
          else (err einval, disks))
  unfolding ramdisk_write
  ramdisk_write-cases disks minor buf n (negsuc off) = refl
  ramdisk_write-cases disks minor buf n (pos off) = ground arith

  pub ramdisk_read-cases :
      (disks : Disks) (minor : ℕ) (buf : Data) (n : ℕ) (off : ℤ)
      → ramdisk_read size disks minor buf n off ≡ (
          if fits minor n off
          then (ok n, copy_from (disks minor) buf n (pos_part off))
          else (err einval, buf))
  unfolding ramdisk_read
  ramdisk_read-cases disks minor buf n (negsuc off) = refl
  ramdisk_read-cases disks minor buf n (pos off) = ground arith

  pub ramdisk_write-ok :
      (disks : Disks) (minor : ℕ) (buf : Data) (n off : ℕ)
      → fits minor n (pos off) ≡ true
      → ramdisk_write size disks minor buf n (pos off)
        ≡ (ok n, update disks minor (copy_to (disks minor) buf n off))
  ramdisk_write-ok disks minor buf n off h =
      rw (ramdisk_write-cases disks minor buf n (pos off), h) refl

  pub ramdisk_read-ok :
      (disks : Disks) (minor : ℕ) (buf : Data) (n off : ℕ)
      → fits minor n (pos off) ≡ true
      → ramdisk_read size disks minor buf n (pos off) ≡ (ok n, copy_from (disks minor) buf n off)
  ramdisk_read-ok disks minor buf n off h =
      rw (ramdisk_read-cases disks minor buf n (pos off), h) refl

  -- After a write that fits, a read that fits sends the bytes that were written where it meets
  -- them, and elsewhere the bytes that were there before.
  pub ramdisk_write-read :
      (disks : Disks) (minor : ℕ) (buf old : Data) (n m off off' : ℕ)
      → fits minor n (pos off) ≡ true
      → fits minor m (pos off') ≡ true
      → let out =
          ramdisk_read size
            (ramdisk_write size disks minor buf n (pos off)).1
            minor
            old
            m
            (pos off') in
        (out.0 ≡ ok m)
        × ((k : ℕ)
            → k < m
            → out.1 k ≡ (
                if is_within off n (off' + k)
                then buf (off' + k - off)
                else disks minor (off' + k)))
  ramdisk_write-read disks minor buf old n m off off' h h' =
      rw (ramdisk_write-cases disks minor buf n (pos off), h)
        (rw
          (
            ramdisk_read-cases (update disks minor (copy_to (disks minor) buf n off)) minor old m
                (pos off'),
            h',
          )
          (refl, λ k lt. ground (arith, lt)))
