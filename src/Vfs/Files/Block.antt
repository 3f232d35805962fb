-- ===== src/Vfs/Files/Block.antt =====
-- A file on a block device: what is written to it is read back.
use multikernel.Common.{
  ℕ, ◌+◌, ◌<◌, ◌≡◌, ◌≢◌, refl, ap, ◌∙◌, arith, true, false, Option, none, some, pos, ◌==◌, ==_refl,
  update, Result, ok,
}
use multikernel.Vfs.Mode.{s_isblk, s_isfifo}
use multikernel.Vfs.Disk.{Data, Disks, copy_to, copy_from}
use multikernel.Vfs.Disk.Access.{
  fits, ramdisk_write-ok, ramdisk_read-ok, ramdisk_write-cases, copy_from-inside, copy_to-inside,
}
use multikernel.Vfs.Minix.{DInode}
use multikernel.Vfs.Inode.{inode_disk_get}
use multikernel.Vfs.Files.{Vfs, current, inode_of_file}
use multikernel.Vfs.Files.Transfer.{
  o_rdonly, o_wronly, o_append, accmode, seek_set, set_position, set_disks, read_inode, read_file,
  fs_read, write_as, write_inode, write_file, fs_write, move_to, seek_inode, seek_file, fs_lseek,
}
use multikernel.Sysv.Flags.{has_flag}
use multikernel.Sysv.Resource.{ResourceOps}

module _ (ops : ResourceOps) where
  -- A descriptor of a block device that is open for reading and writing, and not for appending
  pub record IsBlockFile (v : Vfs ops) (fd f : ℕ) (ip : DInode) : Type 0 where
    pub descriptor : (current ops v).ofiles fd ≡ some f
    pub inode : inode_of_file ops v (v.filetab f) ≡ some ip
    pub block : s_isblk ip.i_mode ≡ true
    pub readable : accmode (v.filetab f).oflag == o_wronly ≡ false
    pub writable : accmode (v.filetab f).oflag == o_rdonly ≡ false
    pub overwrites : has_flag (v.filetab f).oflag o_append ≡ false

  -- The file at another offset, with other disks
  abbrev pub changed : Vfs ops → ℕ → Disks → ℕ → Vfs ops
  changed v f disks p = set_position ops (set_disks ops v disks) f (v.filetab f) p

  changed_file :
      (v : Vfs ops) (f : ℕ) (disks : Disks) (p : ℕ)
      → (changed v f disks p).filetab f ≡ record (v.filetab f) { position = p }
  changed_file v f disks p = rw (==_refl f) refl

  changed-IsBlockFile :
      (v : Vfs ops) (fd f : ℕ) (ip : DInode) (disks : Disks) (p : ℕ)
      → IsBlockFile v fd f ip
      → IsBlockFile (changed v f disks p) fd f ip
  unfolding inode_disk_get
  changed-IsBlockFile v fd f ip disks p b = record {
    descriptor = b.descriptor;
    inode =
        ap (λ x. inode_of_file ops (changed v f disks p) x) (changed_file v f disks p)
        ∙ same (v.filetab f).inode b.inode;
    block = b.block;
    readable = ap (λ x. accmode x.oflag == o_wronly) (changed_file v f disks p) ∙ b.readable;
    writable = ap (λ x. accmode x.oflag == o_rdonly) (changed_file v f disks p) ∙ b.writable;
    overwrites = ap (λ x. has_flag x.oflag o_append) (changed_file v f disks p) ∙ b.overwrites;
  }
    where
      same :
          (i : Option ℕ)
          → inode_disk_get ops v.store i ≡ some ip
          → inode_disk_get ops (changed v f disks p).store i ≡ some ip
      same none e = e
      same (some i) e = e

  module _ (size : ℕ) where
    -- What a write gives that the device accepts
    fs_write-fits :
        (v : Vfs ops) (fd f : ℕ) (ip : DInode) (buf : Data) (n : ℕ)
        → IsBlockFile v fd f ip
        → n ≢ 0
        → fits size (ip.i_zones 0) n (pos (v.filetab f).position) ≡ true
        → let disks =
            update v.store.disks
              (ip.i_zones 0)
              (copy_to (v.store.disks (ip.i_zones 0)) buf n (v.filetab f).position) in
          fs_write ops size v fd buf n ≡ some (ok n, changed v f disks ((v.filetab f).position + n))
    unfolding fs_write write_file write_inode write_as
    fs_write-fits v fd f ip buf n b ne fit =
        rw
          (
            b.descriptor,
            b.writable,
            zero_false n ne,
            b.inode,
            b.overwrites,
            b.block,
            ramdisk_write-ok size v.store.disks (ip.i_zones 0) buf n (v.filetab f).position fit,
          )
          refl
      where
        zero_false : (n : ℕ) → n ≢ 0 → (n == 0) ≡ false
        zero_false n ne = ground (arith, ne)

    -- What a read gives that the device accepts
    fs_read-fits :
        (v : Vfs ops) (fd f : ℕ) (ip : DInode) (old : Data) (n : ℕ)
        → IsBlockFile v fd f ip
        → n ≢ 0
        → fits size (ip.i_zones 0) n (pos (v.filetab f).position) ≡ true
        → fs_read ops size v fd old n
          ≡ some (
            ok n,
            copy_from (v.store.disks (ip.i_zones 0)) old n (v.filetab f).position,
            set_position ops v f (v.filetab f) ((v.filetab f).position + n),
          )
    unfolding fs_read read_file read_inode
    fs_read-fits v fd f ip old n b ne fit =
        rw
          (
            b.descriptor,
            b.readable,
            zero_false n ne,
            b.inode,
            b.block,
            ramdisk_read-ok size v.store.disks (ip.i_zones 0) old n (v.filetab f).position fit,
          )
          refl
      where
        zero_false : (n : ℕ) → n ≢ 0 → (n == 0) ≡ false
        zero_false n ne = ground (arith, ne)

  fs_lseek_set :
      (v : Vfs ops) (fd f p : ℕ) (ip : DInode)
      → IsBlockFile v fd f ip
      → fs_lseek ops v fd (pos p) seek_set ≡ some (ok p, set_position ops v f (v.filetab f) p)
  unfolding fs_lseek seek_file seek_inode move_to
  fs_lseek_set v fd f p ip b = rw (b.descriptor, b.inode, no_pipe ip.i_mode b.block) refl
    where
      no_pipe : (mode : ℕ) → s_isblk mode ≡ true → s_isfifo mode ≡ false
      no_pipe mode e = ground (arith, e)

  module _ (size : ℕ) where
    -- What a write, a seek back and a read give
    abbrev pub Reread : Vfs ops → ℕ → ℕ → Data → Data → ℕ → Result ℕ × Vfs ops → Type 0
    Reread v fd f buf old n (r, v') =
        (r ≡ ok n)
        × ((v2 : Vfs ops) × (fs_lseek ops v' fd (pos (v.filetab f).position) seek_set
              ≡ some (ok (v.filetab f).position, v2))
            × ((out : Data) × (v3 : Vfs ops) × (fs_read ops size v2 fd old n ≡ some (ok n, out, v3))
                × ((k : ℕ) → k < n → out k ≡ buf k)))

    written_back :
        (disks : Disks) (dev n off k : ℕ) (buf old : Data)
        → k < n
        → copy_from (update disks dev (copy_to (disks dev) buf n off) dev) old n off k ≡ buf k
    written_back disks dev n off k buf old lt =
        copy_from-inside (update disks dev (copy_to (disks dev) buf n off) dev) old n off k lt
        ∙ rw (==_refl dev) (copy_to-inside (disks dev) buf n off k lt)

    -- On a block device that is open for reading and writing, where the range lies on the device: a
    -- write of `n` bytes gives `n`, a seek back to where it began succeeds, and a read of `n` bytes
    -- then gives the bytes that were written.
    pub fs_write-read :
        (v : Vfs ops) (fd f : ℕ) (ip : DInode) (buf old : Data) (n : ℕ)
        → IsBlockFile v fd f ip
        → n ≢ 0
        → fits size (ip.i_zones 0) n (pos (v.filetab f).position) ≡ true
        → (out : Result ℕ × Vfs ops) × (fs_write ops size v fd buf n ≡ some out)
          × Reread v fd f buf old n out
    fs_write-read v fd f ip buf old n b ne fit = (
      (ok n, v1),
      fs_write-fits size v fd f ip buf n b ne fit,
      (
        refl,
        (
          v2,
          fs_lseek_set v1 fd f p ip b1,
          (
            copy_from (disks dev) old n (v2.filetab f).position,
            _,
            fs_read-fits size v2 fd f ip old n b2 ne (ap (λ q. fits size dev n (pos q)) at ∙ fit),
            λ k lt.
                ap (λ q. copy_from (disks dev) old n q k) at
                ∙ written_back v.store.disks dev n p k buf old lt,
          ),
        ),
      ),
    )
      where
        p : ℕ
        p = (v.filetab f).position

        dev : ℕ
        dev = ip.i_zones 0

        disks : Disks
        disks = update v.store.disks dev (copy_to (v.store.disks dev) buf n p)

        v1 : Vfs ops
        v1 = changed v f disks (p + n)

        b1 : IsBlockFile v1 fd f ip
        b1 = changed-IsBlockFile v fd f ip disks (p + n) b

        v2 : Vfs ops
        v2 = changed v1 f disks p

        b2 : IsBlockFile v2 fd f ip
        b2 = changed-IsBlockFile v1 fd f ip disks p b1

        at : (v2.filetab f).position ≡ p
        at = ap (λ x. x.position) (changed_file v1 f disks p)

    -- Where the range does not lie on the device and no error is noted for the process, a write gives
    -- 0, as if it had succeeded, and changes nothing.
    pub fs_write_beyond :
        (v : Vfs ops) (fd f : ℕ) (ip : DInode) (buf : Data) (n : ℕ)
        → IsBlockFile v fd f ip
        → v.store.errcode ≡ ok tt
        → n ≢ 0
        → fits size (ip.i_zones 0) n (pos (v.filetab f).position) ≡ false
        → fs_write ops size v fd buf n ≡ some (ok 0, v)
    unfolding fs_write write_file write_inode write_as
    fs_write_beyond v fd f ip buf n b quiet ne beyond =
        rw
          (
            b.descriptor,
            b.writable,
            zero_false n ne,
            b.inode,
            b.overwrites,
            b.block,
            ramdisk_write-cases size v.store.disks (ip.i_zones 0) buf n
                (pos (v.filetab f).position),
            beyond,
            quiet,
          )
          refl
      where
        zero_false : (n : ℕ) → n ≢ 0 → (n == 0) ≡ false
        zero_false n ne = ground (arith, ne)
