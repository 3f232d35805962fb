-- ===== src/Sysv/Sem.antt =====
-- src/sys/pm/sysv/sem/sem.c: the table of semaphores, and that of the connections which sleep on
-- one. A null `sops` is left out: the server passes a field of its message.
pub mod Valid
pub mod Operate
pub mod Sleep
use multikernel.Common.{
  ℕ, ◌-◌, ◌%◌, ◌^◌, ◌≡◌, Bool, true, false, ◌&&◌, not, Option, none, some, ℤ, pos, negsuc, is_neg,
  ◌==ℤ◌, ◌+ℤ◌, ◌-ℤ◌, leb_ℤ, ltb, ◌==◌, if◌then◌else◌, update, find_entry, Result, ok, err, Status,
  Errno, einval, enoent, enotsup, eexist, enospc,
}
use multikernel.Sysv.Resource.{ResourceOps}
use multikernel.Sysv.Flags.{has_flag, ipc_creat, ipc_excl, ipc_nowait, ipc_private, sem_undo}

-- NANVIX_SEM_MAX
abbrev pub sem_max : ℕ
sem_max = 64

-- An entry of `sleeping`.
pub record Sleeper : Type 0 where
  pub conn : ℤ
  pub semid : ℤ
  pub val : ℤ

-- `struct nanvix_sembuf`, as far as it is read; `sem_op` is a `short`.
pub record Sembuf : Type 0 where
  pub sem_op : ℤ
  pub sem_flg : ℕ

-- `sops->sem_op > 0`
abbrev pub is_positive : ℤ → Bool
is_positive (pos n) = ltb 0 n
is_positive (negsuc n) = false

-- An `int` of 32 bits, which wraps around
abbrev pub as_int : ℤ → ℤ
as_int (pos n) = let m = n % 2 ^ 32 in if ltb m (2 ^ 31) then pos m else negsuc (2 ^ 32 - 1 - m)
as_int (negsuc n) = let m = n % 2 ^ 32 in if ltb m (2 ^ 31) then negsuc m else pos (2 ^ 32 - 1 - m)

-- Whether the operation can not be done at once: a decrement below zero, or a wait for zero.
abbrev pub must_wait : ℤ → ℤ → Bool
must_wait val op = if is_neg op then is_neg (as_int (val +ℤ op)) else is_positive val

module _ (ops : ResourceOps) where
  open ops use {Resource, initializer, is_used, alloc, release}

  -- `struct sem`, without the owner and the mode, which no code reads or writes
  pub record Sem : Type 0 where
    pub resource : Resource
    pub key : ℤ
    pub refcount : ℤ
    pub val : ℤ

  -- `semaphores` and `sleeping`
  pub record Sems : Type 0 where
    pub semaphores : ℕ → Sem
    pub sleeping : ℕ → Sleeper

  abbrev pub has_key : ℤ → Sem → Bool
  has_key key e = is_used e.resource && e.key ==ℤ key

  -- `semaphores[semid].refcount++`
  abbrev pub reference : Sems → ℕ → Sems
  reference s i = record s {
    semaphores =
        update s.semaphores i
          (record (s.semaphores i) { refcount = (s.semaphores i).refcount +ℤ pos 1 });
  }

  pub sem_create : Sems → ℤ → Option (ℕ × Resource) → Result ℕ × Sems
  sem_create s key none = (err enospc, s)
  sem_create s key (some (i, r)) = (
    ok i,
    reference
        (record s {
          semaphores =
              update s.semaphores i
                (record (s.semaphores i) { resource = r; key = key; val = pos 0 });
        })
        i,
  )

  pub sem_found : Sems → ℤ → ℕ → Option ℕ → Result ℕ × Sems
  sem_found s key semflg (some i) =
      if has_flag semflg ipc_creat && has_flag semflg ipc_excl
      then (err eexist, s)
      else (ok i, reference s i)
  sem_found s key semflg none =
      if not (has_flag semflg ipc_creat)
      then (err enoent, s)
      else sem_create s key (alloc (λ i. (s.semaphores i).resource) sem_max)

  unfoldable pub do_sem_get : Sems → ℤ → ℕ → Result ℕ × Sems
  unfolding sem_found sem_create
  do_sem_get s key semflg =
      if key ==ℤ pos ipc_private
      then (err enotsup, s)
      else if not (has_flag semflg ipc_creat) && has_flag semflg ipc_excl
      then (err einval, s)
      else sem_found s key semflg (find_entry (has_key key) s.semaphores sem_max)

  -- `semaphores[semid].refcount--`, and the release of the last
  pub dereferenced : Sem → Sem
  dereferenced e =
      if e.refcount -ℤ pos 1 ==ℤ pos 0
      then record e { refcount = e.refcount -ℤ pos 1; resource = release e.resource }
      else record e { refcount = e.refcount -ℤ pos 1 }

  pub do_sem_close : Sems → ℤ → Status × Sems
  unfolding dereferenced
  do_sem_close s (negsuc n) = (err einval, s)
  do_sem_close s (pos i) =
      if not (ltb i sem_max)
      then (err einval, s)
      else if not (is_used (s.semaphores i).resource)
      then (err einval, s)
      else (ok tt, record s { semaphores = update s.semaphores i (dereferenced (s.semaphores i)) })

  -- The loop of `do_sleep` does not stop at the first free entry: it fills them all.
  unfoldable pub do_sleep : ℕ → Sems → ℤ → ℤ → ℤ → Sems
  do_sleep proc_max s conn semid val = record s {
    sleeping = λ i.
        if ltb i proc_max && (s.sleeping i).semid ==ℤ negsuc 0
        then record { conn = conn; semid = semid; val = val }
        else s.sleeping i;
  }

  -- The value of semaphore `i` becomes `v`.
  abbrev pub set_val : Sems → ℕ → ℤ → Sems
  set_val s i v = record s {
    semaphores = update s.semaphores i (record (s.semaphores i) { val = v });
  }

  unfoldable pub wake : Sems → ℕ → Option ℕ → ℤ × Sems
  wake s i none = (pos 0, s)
  wake s i (some k) = (
    (s.sleeping k).conn,
    record (set_val s i (as_int ((s.semaphores i).val -ℤ (s.sleeping k).val))) {
      sleeping = update s.sleeping k (record (s.sleeping k) { semid = negsuc 0 });
    },
  )

  abbrev pub can_wake : Sems → ℕ → Sleeper → Bool
  can_wake s i k = k.semid ==ℤ pos i && leb_ℤ k.val (s.semaphores i).val

  unfoldable pub do_wakeup : ℕ → Sems → ℕ → ℤ × Sems
  unfolding wake
  do_wakeup proc_max s i = wake s i (find_entry (can_wake s i) s.sleeping proc_max)

  -- `(awaken > 0) ? awaken : 0`
  abbrev pub awoken : ℤ × Sems → Result ℤ × Sems
  awoken (c, s) = (ok (if is_positive c then c else pos 0), s)

  unfoldable pub do_sem_operate : ℕ → Sems → ℤ → ℤ → Sembuf → Result ℤ × Sems
  unfolding do_sleep do_wakeup
  do_sem_operate proc_max s conn (negsuc n) sops = (err einval, s)
  do_sem_operate proc_max s conn (pos i) sops =
      if is_neg conn
      then (err einval, s)
      else if not (ltb i sem_max)
      then (err einval, s)
      else if not (is_used (s.semaphores i).resource)
      then (err einval, s)
      else if has_flag sops.sem_flg sem_undo
      then (err enotsup, s)
      else if is_positive sops.sem_op
      then awoken
          (do_wakeup proc_max (set_val s i (as_int ((s.semaphores i).val +ℤ sops.sem_op))) i)
      else if must_wait (s.semaphores i).val sops.sem_op
      then (if has_flag sops.sem_flg ipc_nowait
          then (ok (pos 0), s)
          else (ok conn, do_sleep proc_max s conn (pos i) sops.sem_op))
      else (ok (pos 0), set_val s i (as_int ((s.semaphores i).val +ℤ sops.sem_op)))

  -- What `do_sem_init` leaves; the keys and values are static data, which starts as zeros.
  unfoldable pub do_sem_init : Sems
  do_sem_init = record {
    semaphores = λ i. record { resource = initializer; key = pos 0; refcount = pos 0; val = pos 0 };
    sleeping = λ i. record { conn = pos 0; semid = negsuc 0; val = pos 0 };
  }
