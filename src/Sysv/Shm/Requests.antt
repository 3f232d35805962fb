-- ===== src/Sysv/Shm/Requests.antt =====
-- The requests of src/sys/pm/sysv/shm/shm.c on shared memory regions.
use multikernel.Common.{
  ℕ, ◌+◌, not, Option, none, some, ℤ, pos, negsuc, ltb, if◌then◌else◌, Result, ok, err, Status,
  Errno, einval, enotsup, eexist, eagain, eacces, efbig, ebusy, enfile, eperm,
}
use multikernel.NameServer.{Name}
use multikernel.Sysv.Flags.{has_flag}
use multikernel.Sysv.Resource.{RegionOps}
use multikernel.Sysv.Shm.{
  shm_max, shm_size_max, o_accmode, o_wronly, o_rdwr, o_creat, o_excl, o_trunc, s_irusr, s_iwusr,
  has_other, nanvix_shm_name_is_invalid, Shms, set_region, shm_is_remove, shm_is_owner,
  shm_set_remove, shm_set_perm, shm_set_size, shm_alloc, shm_get, shm_put,
}

module _ (ops : RegionOps) where
  open ops use {
    Resource, initializer, is_used, alloc, release, is_busy, is_writable, is_mapped, set_busy,
    set_notbusy, set_rdonly, set_rdwr, Remote, nanvix_rmem_alloc, nanvix_rmem_free,
  }

  -- The page after a truncation
  abbrev pub paged : Option (Shms ops) → ℕ → Option (Result ℕ × Shms ops)
  paged none i = none
  paged (some s) i = some (ok (s.regions i).page, s)

  unfoldable pub do_shm_ftruncate : Shms ops → ℤ → ℤ → Option (Result ℕ × Shms ops)
  do_shm_ftruncate s (negsuc n) size = some (err einval, s)
  do_shm_ftruncate s (pos i) (negsuc n) = some (err einval, s)
  do_shm_ftruncate s (pos i) (pos size) =
      if not (ltb i shm_max)
      then some (err einval, s)
      else if not (is_used (s.regions i).resource)
      then some (err einval, s)
      else if ltb shm_size_max size
      then some (err efbig, s)
      else if not (is_writable (s.regions i).resource)
      then some (err eacces, s)
      else if is_mapped (s.regions i).resource
      then some (err ebusy, s)
      else paged (shm_set_size ops s i size) i

  -- What opening a region returns: its number, and its page.
  abbrev pub Opened : Type 0
  Opened = Option (Result (ℕ × ℕ) × Shms ops)

  abbrev pub put_refused : Errno → Option (Status × Shms ops) → Opened
  put_refused e none = none
  put_refused e (some (_, s)) = some (err e, s)

  -- `shm_put(shmid); return (-e);`
  abbrev pub refuse : Shms ops → ℕ → Errno → Opened
  refuse s i e = put_refused e (shm_put ops s i)

  abbrev pub opened : Shms ops → ℕ → Opened
  opened s i = some (ok (i, (s.regions i).page), s)

  abbrev pub truncated : Shms ops → ℕ → Option (Result ℕ × Shms ops) → Opened
  truncated s i none = none
  truncated s i (some (err e, s')) = refuse s' i eagain
  truncated s i (some (ok page, s')) = opened s' i

  -- The truncation on opening, the same in both of its callers
  unfoldable pub open_trunc : Shms ops → ℕ → ℕ → Opened
  open_trunc s i oflags =
      if has_flag oflags o_trunc
      then (if not (has_flag oflags (o_rdwr + o_wronly))
          then refuse s i eacces
          else truncated s i (do_shm_ftruncate s (pos i) (pos 0)))
      else opened s i

  unfoldable pub open_found : Shms ops → ℕ → Option (ℕ × Shms ops) → Opened
  unfolding open_trunc
  open_found s oflags none = some (err einval, s)
  open_found s oflags (some (i, s')) =
      if shm_is_remove ops s' i then refuse s' i eagain else open_trunc s' i oflags

  -- What follows the check of the name, which fails with EINVAL for any error
  abbrev pub when_valid : Status → Shms ops → Opened → Opened
  when_valid (ok u) s next = next
  when_valid (err e) s next = some (err einval, s)

  unfoldable pub do_shm_open : Shms ops → Name → ℕ → Opened
  unfolding open_found
  do_shm_open s name oflags = when_valid (nanvix_shm_name_is_invalid name) s (
      if has_other oflags (o_trunc + o_accmode)
      then some (err enotsup, s)
      else open_found s oflags (shm_get ops s name))

  -- A new region, after `shm_set_size`
  abbrev pub named : ℤ → Name → ℕ → ℕ → Option (Shms ops) → Opened
  named proc name mode i none = none
  named proc name mode i (some s) =
      let s' = shm_set_perm ops s i mode in
      opened (set_region ops s' i (record (s'.regions i) { owner = proc; name = name })) i

  unfoldable pub create_new : Shms ops → ℤ → Name → ℕ → Option (ℕ × Shms ops) → Opened
  create_new s proc name mode none = some (err enfile, s)
  create_new s proc name mode (some (i, s')) = named proc name mode i (shm_set_size ops s' i 0)

  unfoldable pub create_found : Shms ops → ℤ → Name → ℕ → ℕ → Option (ℕ × Shms ops) → Opened
  unfolding create_new
  create_found s proc name oflags mode none = create_new s proc name mode (shm_alloc ops s)
  create_found s proc name oflags mode (some (i, s')) =
      if has_flag oflags o_excl then refuse s' i eexist else open_trunc s' i oflags

  unfoldable pub do_shm_create : Shms ops → ℤ → Name → ℕ → ℕ → Opened
  unfolding create_found
  do_shm_create s proc name oflags mode = when_valid (nanvix_shm_name_is_invalid name) s (
      if has_other oflags (o_creat + o_excl + o_trunc + o_accmode)
      then some (err enotsup, s)
      else if has_other mode (s_irusr + s_iwusr)
      then some (err enotsup, s)
      else if not (has_flag oflags o_creat)
      then some (err einval, s)
      else create_found s proc name oflags mode (shm_get ops s name))

  pub do_shm_close : Shms ops → ℤ → Option (Status × Shms ops)
  do_shm_close s (negsuc n) = some (err einval, s)
  do_shm_close s (pos i) =
      if not (ltb i shm_max)
      then some (err einval, s)
      else if not (is_used (s.regions i).resource)
      then some (err einval, s)
      else shm_put ops s i

  abbrev pub put_denied : Option (Status × Shms ops) → Option (Status × Shms ops)
  put_denied none = none
  put_denied (some (_, s)) = some (err eperm, s)

  pub unlink_found : Shms ops → ℤ → Option (ℕ × Shms ops) → Option (Status × Shms ops)
  unlink_found s proc none = some (err einval, s)
  unlink_found s proc (some (i, s')) =
      if not (shm_is_owner ops s' i proc)
      then put_denied (shm_put ops s' i)
      else do_shm_close (shm_set_remove ops s' i) (pos i)

  pub do_shm_unlink : Shms ops → ℤ → Name → Option (Status × Shms ops)
  unfolding unlink_found
  do_shm_unlink s proc name = unlink_found s proc (shm_get ops s name)
