-- ===== src/Vfs/Process.antt =====
-- src/sys/fs/vfs/vfs.c and fprocess.c: the entry points of the file system, for the process of a
-- connection. A negative number in place of a connection is an error.
use multikernel.Common.{
  ℕ, Bool, Option, none, some, ℤ, pos, negsuc, leb, ltb, if◌then◌else◌, Result, ok, err, Status,
  einval,
}
use multikernel.Connection.{connections_max}
use multikernel.Vfs.Disk.{Data}
use multikernel.Vfs.Minix.Dirent.{Name}
use multikernel.Vfs.Files.{Vfs, open_max, fs_open, fs_close}
use multikernel.Vfs.Files.Transfer.{fs_read, fs_write, fs_lseek}
use multikernel.Vfs.Files.System.{Outside, Memory, fs_init, fs_shutdown}
use multikernel.Sysv.Resource.{ResourceOps}

module _ (ops : ResourceOps) (proc_max : ℕ) where
  -- `curr_proc = &processes[connection]; curr_proc->errcode = 0;`
  abbrev pub launched : Vfs ops → ℕ → Vfs ops
  launched v i = record v { curr_proc = i; store = record v.store { errcode = ok tt } }

  unfoldable pub fprocess_launch : Vfs ops → Result ℕ → Status × Vfs ops
  fprocess_launch v (err e) = (err einval, v)
  fprocess_launch v (ok i) =
      if leb (connections_max proc_max) i then (err einval, v) else (ok tt, launched v i)

  -- What the loop leaves in an entry of `processes`. It runs to NANVIX_PROC_MAX.
  pub fprocess_init : Vfs ops → Vfs ops
  fprocess_init v = record v {
    processes = λ i.
        if ltb i proc_max
        then record {
          pwd = v.store.fs_root.root;
          root = v.store.fs_root.root;
          ofiles = λ j. if ltb j open_max then none else (v.processes i).ofiles j;
        }
        else v.processes i;
  }

  -- `if (fprocess_launch(connection) < 0) return (-EINVAL);`
  abbrev pub in_process {ℓ} : {A : Type ℓ} → A → (Vfs ops → Option A) → Status × Vfs ops → Option A
  in_process refusal next (err e, v) = some refusal
  in_process refusal next (ok u, v) = next v

  module _ (size : ℕ) (big : Bool) where
    -- `before` is what a directory entry holds before it is read.
    unfoldable pub vfs_open : Data → Vfs ops → Result ℕ → Name → ℕ → Option (Result ℕ × Vfs ops)
    unfolding fprocess_launch
    vfs_open before v connection filename oflag =
        in_process (err einval, v) (λ v'. fs_open ops size big before v' filename oflag)
          (fprocess_launch v connection)

    -- `if (!WITHIN(fd, 0, NANVIX_OPEN_MAX)) return (-EINVAL);`, and then the launch
    abbrev pub with_descriptor {ℓ} :
        {A : Type ℓ} → Vfs ops → ℤ → Result ℕ → A → (ℕ → Vfs ops → Option A) → Option A
    with_descriptor v (negsuc fd) connection refusal next = some refusal
    with_descriptor v (pos fd) connection refusal next =
        if leb open_max fd
        then some refusal
        else in_process refusal (next fd) (fprocess_launch v connection)

    unfoldable pub vfs_close : Vfs ops → Result ℕ → ℤ → Option (Status × Vfs ops)
    unfolding fprocess_launch
    vfs_close v connection fd =
        with_descriptor v fd connection (err einval, v) (λ fd' v'. fs_close ops size big v' fd')

    unfoldable pub vfs_read : Vfs ops → Result ℕ → ℤ → Data → ℕ → Option (Result ℕ × Data × Vfs ops)
    unfolding fprocess_launch
    vfs_read v connection fd buf n =
        with_descriptor v fd connection (err einval, buf, v)
          (λ fd' v'. fs_read ops size v' fd' buf n)

    unfoldable pub vfs_write : Vfs ops → Result ℕ → ℤ → Data → ℕ → Option (Result ℕ × Vfs ops)
    unfolding fprocess_launch
    vfs_write v connection fd buf n =
        with_descriptor v fd connection (err einval, v) (λ fd' v'. fs_write ops size v' fd' buf n)

    unfoldable pub vfs_seek : Vfs ops → Result ℕ → ℤ → ℤ → ℤ → Option (Result ℕ × Vfs ops)
    unfolding fprocess_launch
    vfs_seek v connection fd offset whence =
        with_descriptor v fd connection (err einval, v)
          (λ fd' v'. fs_lseek ops v' fd' offset whence)

    abbrev pub with_processes : Option (Vfs ops) → Option (Vfs ops)
    with_processes none = none
    with_processes (some v) = some (fprocess_init v)

    pub vfs_init : Outside → Memory → Vfs ops → Option (Vfs ops)
    unfolding fprocess_init
    vfs_init out mem v = with_processes (fs_init ops size big out mem v)

    pub vfs_shutdown : Vfs ops → Option (Vfs ops)
    vfs_shutdown v = fs_shutdown ops size big v
