-- ===== src/Vfs/Files/Processes.antt =====
-- Which processes have files: what the operations on files do to the tables of descriptors.
use multikernel.Common.{
  ℕ, ◌≡◌, ◌≢◌, refl, sym, ap, ◌∙◌, Bool, ◌||◌, Option, none, some, ℤ, pos, negsuc, ◌-ℤ◌, leb_ℤ,
  ◌==ℤ◌, ◌==◌, if-all, update-all, Result, ok, err, Status,
}
use multikernel.Vfs.Mode.{s_isblk, s_isreg, s_isdir, s_isfifo}
use multikernel.Vfs.Disk.{Data, ramdisk_read}
use multikernel.Vfs.Minix.{DInode}
use multikernel.Vfs.Minix.Dirent.{Name}
use multikernel.Vfs.Files.{
  File, Process, Vfs, current, set_file, set_count, set_descriptor, inode_of_file, close_inode,
  close_file, close_descriptor, fs_close, fs_open,
}
use multikernel.Vfs.Files.Open.{OpenOutcome, fs_open-OpenOutcome}
use multikernel.Vfs.Files.Transfer.{
  o_rdonly, o_wronly, o_append, accmode, seek_cur, seek_end, seek_set, counted, read_inode,
  read_file, fs_read, write_as, write_inode, write_file, fs_write, move_to, seek_inode, seek_file,
  fs_lseek, file_read, file_write,
}
use multikernel.Sysv.Flags.{has_flag}
use multikernel.Sysv.Resource.{ResourceOps}

module _ (ops : ResourceOps) where
  -- No process but the first has a file.
  abbrev pub OnlyFirst : (ℕ → Process) → Type 0
  OnlyFirst t = (i fd : ℕ) → i ≢ 0 → (t i).ofiles fd ≡ none

  -- The table of processes after an operation
  abbrev pub Same : (ℕ → Process) → Vfs ops → Type 0
  Same t v = v.processes ≡ t

  abbrev pub SameOf : (ℕ → Process) → Option (Result ℕ × Vfs ops) → Type 0
  SameOf t none = Unit {0}
  SameOf t (some (r, v)) = v.processes ≡ t

  abbrev pub SameRead : (ℕ → Process) → Option (Result ℕ × Data × Vfs ops) → Type 0
  SameRead t none = Unit {0}
  SameRead t (some (r, out, v)) = v.processes ≡ t

  counted-Same :
      (v : Vfs ops) (f : ℕ) (file : File) (r : Result ℕ)
      → (counted ops v f file r).1.processes ≡ v.processes
  counted-Same v f file (ok n) = refl
  counted-Same v f file (err e) = refl

  move_to-Same :
      (v : Vfs ops) (f : ℕ) (file : File) (p : ℤ)
      → SameOf v.processes (some (move_to ops v f file p))
  unfolding move_to
  move_to-Same v f file (pos p) = refl
  move_to-Same v f file (negsuc n) = refl

  seek_inode-Same :
      (v : Vfs ops) (f : ℕ) (file : File) (offset whence : ℤ) (o : Option DInode)
      → SameOf v.processes (seek_inode ops v f file offset whence o)
  unfolding seek_inode
  seek_inode-Same v f file offset whence none = tt
  seek_inode-Same v f file offset whence (some ip) =
      if-all P (s_isfifo ip.i_mode) _ _ (λ _. refl)
        (λ _.
          if-all P (whence ==ℤ seek_cur) _ _ (λ _. move_to-Same v f file _)
            (λ _.
              if-all P (whence ==ℤ seek_end) _ _ (λ _. move_to-Same v f file _)
                (λ _.
                  if-all P (whence ==ℤ seek_set) _ _ (λ _. move_to-Same v f file _) (λ _. refl))))
    where
      P : Option (Result ℕ × Vfs ops) → Type 0
      P = SameOf v.processes

  pub fs_lseek-Same :
      (v : Vfs ops) (fd : ℕ) (offset whence : ℤ)
      → SameOf v.processes (fs_lseek ops v fd offset whence)
  unfolding fs_lseek seek_file
  fs_lseek-Same v fd offset whence = by_descriptor ((current ops v).ofiles fd)
    where
      by_descriptor : (o : Option ℕ) → SameOf v.processes (seek_file ops v offset whence o)
      by_descriptor none = refl
      by_descriptor (some f) =
          seek_inode-Same v f (v.filetab f) offset whence (inode_of_file ops v (v.filetab f))

  module _ (size : ℕ) where
    write_as-Same :
        (v : Vfs ops) (f : ℕ) (file : File) (buf : Data) (n : ℕ) (ip : DInode)
        → (write_as ops size v f file buf n ip).1.processes ≡ v.processes
    unfolding write_as
    write_as-Same v f file buf n ip =
        if-all P (s_isblk ip.i_mode) _ _ (λ _. counted-Same _ f file _)
          (λ _.
            if-all P (s_isreg ip.i_mode) _ _ (λ _. counted-Same v f file file_write)
              (λ _. counted-Same v f file (ok 0)))
      where
        P : Result ℕ × Vfs ops → Type 0
        P r = r.1.processes ≡ v.processes

    pub fs_write-Same :
        (v : Vfs ops) (fd : ℕ) (buf : Data) (n : ℕ)
        → SameOf v.processes (fs_write ops size v fd buf n)
    unfolding fs_write write_file write_inode
    fs_write-Same v fd buf n = by_descriptor ((current ops v).ofiles fd)
      where
        P : Option (Result ℕ × Vfs ops) → Type 0
        P = SameOf v.processes

        by_inode : (f : ℕ) (o : Option DInode) → P (write_inode ops size v f (v.filetab f) buf n o)
        by_inode f none = tt
        by_inode f (some ip) =
            if-all P (has_flag (v.filetab f).oflag o_append) _ _ (λ _. write_as-Same _ f _ buf n ip)
              (λ _. write_as-Same v f _ buf n ip)

        by_descriptor : (o : Option ℕ) → P (write_file ops size v buf n o)
        by_descriptor none = refl
        by_descriptor (some f) =
            if-all P (accmode (v.filetab f).oflag == o_rdonly) _ _ (λ _. refl)
              (λ _.
                if-all P (n == 0) _ _ (λ _. refl)
                  (λ _. by_inode f (inode_of_file ops v (v.filetab f))))

    pub fs_read-Same :
        (v : Vfs ops) (fd : ℕ) (buf : Data) (n : ℕ)
        → SameRead v.processes (fs_read ops size v fd buf n)
    unfolding fs_read read_file read_inode
    fs_read-Same v fd buf n = by_descriptor ((current ops v).ofiles fd)
      where
        P : Option (Result ℕ × Data × Vfs ops) → Type 0
        P = SameRead v.processes

        by_inode : (f : ℕ) (o : Option DInode) → P (read_inode ops size v f (v.filetab f) buf n o)
        by_inode f none = tt
        by_inode f (some ip) =
            if-all P (s_isblk ip.i_mode) _ _
              (λ _.
                counted-Same v f (v.filetab f)
                  (ramdisk_read size v.store.disks (ip.i_zones 0) buf n
                    (pos (v.filetab f).position)).0)
              (λ _.
                if-all P (s_isdir ip.i_mode || s_isreg ip.i_mode) _ _
                  (λ _. counted-Same v f (v.filetab f) file_read) (λ _. refl))

        by_descriptor : (o : Option ℕ) → P (read_file ops size v buf n o)
        by_descriptor none = refl
        by_descriptor (some f) =
            if-all P (accmode (v.filetab f).oflag == o_wronly) _ _ (λ _. refl)
              (λ _.
                if-all P (n == 0) _ _ (λ _. refl)
                  (λ _. by_inode f (inode_of_file ops v (v.filetab f))))

  abbrev pub OnlyFirstOf {ℓ} : {A : Type ℓ} → Option (A × Vfs ops) → Type 0
  OnlyFirstOf none = Unit {0}
  OnlyFirstOf (some (r, v)) = OnlyFirst v.processes

  set_none-OnlyFirst :
      (v : Vfs ops) (fd : ℕ)
      → OnlyFirst v.processes
      → OnlyFirst (set_descriptor ops v fd none).processes
  set_none-OnlyFirst v fd h i j ne =
      update-all (λ p. p.ofiles j ≡ none) v.processes v.curr_proc _ i
        (λ e.
          update-all (λ o. o ≡ none) (current ops v).ofiles fd none j (λ _. refl)
            (λ _. h v.curr_proc j (λ z. ne (sym e ∙ z))))
        (λ _. h i j ne)

  module _ (size : ℕ) (big : Bool) where
    pub fs_close-OnlyFirst :
        (v : Vfs ops) (fd : ℕ) → OnlyFirst v.processes → OnlyFirstOf (fs_close ops size big v fd)
    unfolding fs_close close_descriptor close_file close_inode
    fs_close-OnlyFirst v fd h = by_descriptor ((current ops v).ofiles fd)
      where
        P : Option (Status × Vfs ops) → Type 0
        P = OnlyFirstOf

        by_inode :
            (v' : Vfs ops) (ip : Option ℕ) (o : Option DInode)
            → OnlyFirst v'.processes
            → P (close_inode ops size big v' ip o)
        by_inode v' ip none h' = tt
        by_inode v' ip (some dip) h' = if-all P (s_isblk dip.i_mode) _ _ (λ _. h') (λ _. h')

        after : ℕ → Vfs ops
        after f =
            let n = (v.filetab f).count -ℤ pos 1 in
            set_file ops (set_descriptor ops v fd none) f (set_count ops (v.filetab f) n)

        by_descriptor : (o : Option ℕ) → P (close_descriptor ops size big v fd o)
        by_descriptor none = h
        by_descriptor (some f) =
            if-all P (leb_ℤ (pos 2) (v.filetab f).count) _ _ (λ _. set_none-OnlyFirst v fd h)
              (λ _.
                by_inode (after f) (v.filetab f).inode (inode_of_file ops (after f) (v.filetab f))
                  (set_none-OnlyFirst v fd h))

    pub fs_open-OnlyFirst :
        (before : Data) (v : Vfs ops) (name : Name) (oflag : ℕ)
        → v.curr_proc ≡ 0
        → OnlyFirst v.processes
        → OnlyFirstOf (fs_open ops size big before v name oflag)
    fs_open-OnlyFirst before v name oflag first h =
        kept (fs_open ops size big before v name oflag)
          (fs_open-OpenOutcome ops size big before v name oflag)
      where
        kept : (o : Option (Result ℕ × Vfs ops)) → OpenOutcome ops v oflag o → OnlyFirstOf o
        kept none out = tt
        kept (some (ok fd, v')) out =
            λ i j ne. ap (λ p. p.ofiles j) (out.processes i (λ e. ne (e ∙ first))) ∙ h i j ne
        kept (some (err e, v')) out = λ i j ne. ap (λ t. (t i).ofiles j) out.processes ∙ h i j ne
