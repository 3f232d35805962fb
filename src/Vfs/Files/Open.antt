-- ===== src/Vfs/Files/Open.antt =====
-- What opening a file leaves in the tables, when it succeeds and when it fails.
use multikernel.Common.{
  ℕ, ◌<◌, ◌≡◌, ◌≢◌, refl, sym, ap, ◌∙◌, inl, inr, arith, Bool, true, false, ◌||◌, Option, none,
  some, pos, ◌==ℤ◌, ==ℤ_iff, ◌==◌, ==_iff, ==_refl, if-all, Bool-cases, update, find_entry,
  search-First, Result, ok, err, Status, enotsup,
}
use multikernel.Vfs.Mode.{s_isblk, s_isreg, s_isdir}
use multikernel.Vfs.Disk.{Data}
use multikernel.Vfs.Minix.{DInode}
use multikernel.Vfs.Minix.Dirent.{Name}
use multikernel.Vfs.Inode.{Store, inode_disk_get}
use multikernel.Vfs.Inode.Errors.{IsError, inode_put-IsError}
use multikernel.Vfs.Files.{
  nr_files, open_max, Vfs, current, set_file, set_count, as_count, is_null, descriptor_or, getfile,
  getfildes, do_creat, open_inode, open_named, do_open, opened, open_with, fs_open,
}
use multikernel.Sysv.Resource.{ResourceOps}

module _ (ops : ResourceOps) where
  -- The tables after an open: a descriptor that was free leads to a file that was free, at its start,
  -- and the other files, the caller's other descriptors and directories and the other processes are as
  -- before; or all files and processes are as before.
  pub record Opens (v : Vfs ops) (oflag fd : ℕ) (v' : Vfs ops) : Type 0 where
    pub fd_below : fd < open_max
    pub fd_was_free : (current ops v).ofiles fd ≡ none
    pub f : ℕ
    pub ip : ℕ
    pub f_below : f < nr_files
    pub f_was_free : (v.filetab f).count ≡ pos 0
    pub descriptor : (current ops v').ofiles fd ≡ some f
    pub file : v'.filetab f ≡ record { oflag = oflag; count = pos 1; position = 0; inode = some ip }
    pub others : (j : ℕ) → j ≢ f → v'.filetab j ≡ v.filetab j
    pub caller : v'.curr_proc ≡ v.curr_proc
    pub other_descriptors : (j : ℕ) → j ≢ fd → (current ops v').ofiles j ≡ (current ops v).ofiles j
    pub pwd : (current ops v').pwd ≡ (current ops v).pwd
    pub root : (current ops v').root ≡ (current ops v).root
    pub processes : (i : ℕ) → i ≢ v.curr_proc → v'.processes i ≡ v.processes i

  pub record Refuses (v v' : Vfs ops) : Type 0 where
    pub files : (j : ℕ) → v'.filetab j ≡ v.filetab j
    pub caller : v'.curr_proc ≡ v.curr_proc
    pub processes : v'.processes ≡ v.processes

  abbrev pub OpenOutcome : Vfs ops → ℕ → Option (Result ℕ × Vfs ops) → Type 0
  OpenOutcome v oflag none = Unit {0}
  OpenOutcome v oflag (some (ok fd, v')) = Opens v oflag fd v'
  OpenOutcome v oflag (some (err e, v')) = Refuses v v'

  -- An open without an i-node notes an error.
  abbrev NoInodeNoted : Option (Option ℕ × Store ops) → Type 0
  NoInodeNoted none = Unit {0}
  NoInodeNoted (some (none, s)) = IsError s.errcode
  NoInodeNoted (some (some i, s)) = Unit {0}

  module _ (size : ℕ) (big : Bool) where
    open_inode-Noted :
        (i : ℕ) (s : Store ops) (o : Option DInode) → NoInodeNoted (open_inode ops size big i s o)
    unfolding open_inode
    open_inode-Noted i s none = tt
    open_inode-Noted i s (some ip) =
        if-all NoInodeNoted (s_isblk ip.i_mode) _ _ (λ _. tt)
          (λ _.
            if-all NoInodeNoted (s_isreg ip.i_mode || s_isdir ip.i_mode) _ _
              (λ _. inode_put-IsError ops size big (record s { errcode = err enotsup }) (some i) tt)
              (λ _. tt))

    open_named-Noted :
        (o : Option (Option ℕ × Store ops)) → NoInodeNoted (open_named ops size big o)
    unfolding open_named do_creat
    open_named-Noted none = tt
    open_named-Noted (some (none, s)) = tt
    open_named-Noted (some (some i, s)) = open_inode-Noted i s (inode_disk_get ops s (some i))

    -- The file as it was: its count was 0.
    closed_again :
        (v : Vfs ops) (f j : ℕ)
        → (v.filetab f).count ≡ pos 0
        → update
            (update v.filetab f (set_count ops (v.filetab f) (pos 1)))
            f
            (set_count ops (update v.filetab f (set_count ops (v.filetab f) (pos 1)) f) (pos 0))
            j
          ≡ v.filetab j
    closed_again v f j free = elim (Bool-cases (f == j)) [
      | inl hit ↦ rw hit (
          ap (λ x. set_count ops x (pos 0)) (at_f v f)
          ∙ ap (set_count ops (v.filetab f)) (sym free)
          ∙ ap v.filetab ((==_iff f j).0 hit))
      | inr miss ↦ rw miss refl
    ]
      where
        at_f :
            (v : Vfs ops) (f : ℕ)
            → update v.filetab f (set_count ops (v.filetab f) (pos 1)) f
              ≡ set_count ops (v.filetab f) (pos 1)
        at_f v f = rw (==_refl f) refl

    opened-OpenOutcome :
        (v : Vfs ops) (oflag fd f : ℕ) (o : Option (Option ℕ × Store ops))
        → NoInodeNoted o
        → fd < open_max
        → (current ops v).ofiles fd ≡ none
        → f < nr_files
        → (v.filetab f).count ≡ pos 0
        → OpenOutcome v oflag (
            opened ops size big
              (set_file ops v f (set_count ops (v.filetab f) (pos 1)))
              oflag
              fd
              f
              o)
    unfolding opened
    opened-OpenOutcome v oflag fd f none noted lt free lt' free' = tt
    opened-OpenOutcome v oflag fd f (some (some i, s)) noted lt free lt' free' = record {
      fd_below = lt;
      fd_was_free = free;
      f = f;
      ip = i;
      f_below = lt';
      f_was_free = free';
      descriptor = rw (==_refl v.curr_proc, ==_refl fd) refl;
      file = rw (==_refl f) refl;
      others = λ j ne. rw (differ f j ne) refl;
      caller = refl;
      other_descriptors = λ j ne. rw (==_refl v.curr_proc, differ fd j ne) refl;
      pwd = rw (==_refl v.curr_proc) refl;
      root = rw (==_refl v.curr_proc) refl;
      processes = λ j ne. rw (differ v.curr_proc j ne) refl;
    }
      where
        differ : (f j : ℕ) → j ≢ f → (f == j) ≡ false
        differ f j ne = ground (arith, ne)
    opened-OpenOutcome v oflag fd f (some (none, s)) noted lt free lt' free' =
        refusal s.errcode noted
      where
        after : Vfs ops
        after =
            set_file ops
              (record (set_file ops v f (set_count ops (v.filetab f) (pos 1))) { store = s }) f
              (set_count ops (update v.filetab f (set_count ops (v.filetab f) (pos 1)) f) (pos 0))

        refusal : (e : Status) → IsError e → OpenOutcome v oflag (some (as_count ops e, after))
        refusal (ok u) h = absurd h
        refusal (err e) h = record {
          files = λ j. closed_again v f j free';
          caller = refl;
          processes = refl;
        }

    -- Opening a file, where the server does not stop, gives a free descriptor, below NANVIX_OPEN_MAX,
    -- that leads to an entry of the table of files that was free, and changes no other entry, no other
    -- descriptor of the caller, none of its directories and no other process; or it gives an error,
    -- and every entry of the table of files and every process is as it was.
    pub fs_open-OpenOutcome :
        (before : Data) (v : Vfs ops) (name : Name) (oflag : ℕ)
        → OpenOutcome v oflag (fs_open ops size big before v name oflag)
    unfolding fs_open open_with do_open getfile getfildes
    fs_open-OpenOutcome before v name oflag =
        by_tables (find_entry (is_null ops) (current ops v).ofiles open_max)
          (find_entry (λ f. f.count ==ℤ pos 0) v.filetab nr_files) refl refl
      where
        null_none : (o : Option ℕ) → is_null ops o ≡ true → o ≡ none
        null_none none e = refl
        null_none (some i) e = absurd (cc)

        by_tables :
            (d t : Option ℕ)
            → find_entry (is_null ops) (current ops v).ofiles open_max ≡ d
            → find_entry (λ f. f.count ==ℤ pos 0) v.filetab nr_files ≡ t
            → OpenOutcome v oflag
                (open_with ops size big before v name oflag (descriptor_or ops d) t)
        by_tables none t ed et = record { files = λ j. refl; caller = refl; processes = refl }
        by_tables (some fd) none ed et = record {
          files = λ j. refl;
          caller = refl;
          processes = refl;
        }
        by_tables (some fd) (some f) ed et =
            let fd_first = search-First _ _ fd ed in
            let f_first = search-First _ _ f et in
            opened-OpenOutcome v oflag fd f _ (open_named-Noted _) fd_first.within
              (null_none _ fd_first.passes) f_first.within ((==ℤ_iff _ _).0 f_first.passes)
