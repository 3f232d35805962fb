-- ===== src/Sysv/Shm.antt =====
-- src/sys/pm/sysv/shm/shm.c: the table of shared memory regions, with the checks of
-- include/nanvix/servers/sysv/shm.h. `none` as an outcome is the server's stop by a failed assertion.
-- The names are never null pointers: the server passes a field of its message.
mod Tests
pub mod Requests
pub mod Refuse
use multikernel.Common.{
  ℕ, ◌+◌, ◌-◌, ◌^◌, Bool, true, false, ◌&&◌, not, Option, none, some, [], ℤ, pos, negsuc, is_neg,
  ◌==ℤ◌, ◌+ℤ◌, ◌-ℤ◌, leb_ℤ, leb, ltb, ◌==◌, length, if◌then◌else◌, update, find_entry, Result, ok,
  err, Status, Errno, einval, enotsup, eexist, eagain, eacces, enametoolong, efbig, ebusy, enfile,
  eperm,
}
use multikernel.NameServer.{Name, name_eq}
use multikernel.Rmem.{rmem_null}
use multikernel.Sysv.Flags.{has_flag}
use multikernel.Sysv.Resource.{RegionOps}

-- NANVIX_SHM_MAX, NANVIX_SHM_NAME_MAX and NANVIX_SHM_SIZE_MAX
abbrev pub shm_max : ℕ
shm_max = 128

abbrev pub shm_name_max : ℕ
shm_name_max = 64

abbrev pub shm_size_max : ℕ
shm_size_max = 4096

-- O_ACCMODE, O_WRONLY, O_RDWR, O_CREAT, O_EXCL and O_TRUNC, of include/posix/fcntl.h
abbrev pub o_accmode : ℕ
o_accmode = 3

abbrev pub o_wronly : ℕ
o_wronly = 1

abbrev pub o_rdwr : ℕ
o_rdwr = 2

abbrev pub o_creat : ℕ
o_creat = 64

abbrev pub o_excl : ℕ
o_excl = 128

abbrev pub o_trunc : ℕ
o_trunc = 512

-- S_IRUSR and S_IWUSR, of include/posix/sys/stat.h
abbrev pub s_irusr : ℕ
s_irusr = 256

abbrev pub s_iwusr : ℕ
s_iwusr = 128

-- `flags & ~mask`, on 32 bits
abbrev pub has_other : ℕ → ℕ → Bool
has_other flags mask = has_flag flags (2 ^ 32 - 1 - mask)

abbrev pub nanvix_shm_name_is_invalid : Name → Status
nanvix_shm_name_is_invalid name =
    if name_eq name []
    then err einval
    else if leb (shm_name_max - 1) (length name)
    then err enametoolong
    else ok tt

module _ (ops : RegionOps) where
  open ops use {
    Resource, initializer, is_used, alloc, release, is_busy, is_writable, is_mapped, set_busy,
    set_notbusy, set_rdonly, set_rdwr, Remote, nanvix_rmem_alloc, nanvix_rmem_free,
  }

  -- `struct region`
  pub record Region : Type 0 where
    pub resource : Resource
    pub name : Name
    pub owner : ℤ
    pub refcount : ℤ
    pub mode : ℕ
    pub size : ℕ
    pub page : ℕ

  -- `regions`, and the remote memory that the server is a client of
  pub record Shms : Type 0 where
    pub regions : ℕ → Region
    pub remote : Remote

  abbrev pub set_region : Shms → ℕ → Region → Shms
  set_region s i r = record s { regions = update s.regions i r }

  pub shm_is_remove : Shms → ℕ → Bool
  shm_is_remove s i = not (is_busy (s.regions i).resource)

  abbrev pub shm_is_owner : Shms → ℕ → ℤ → Bool
  shm_is_owner s i proc = (s.regions i).owner ==ℤ proc

  abbrev pub shm_set_remove : Shms → ℕ → Shms
  shm_set_remove s i =
      set_region s i (record (s.regions i) { resource = set_notbusy (s.regions i).resource })

  abbrev pub writable_if : Bool → Resource → Resource
  writable_if true r = set_rdwr r
  writable_if false r = r

  abbrev pub shm_set_perm : Shms → ℕ → ℕ → Shms
  shm_set_perm s i mode = set_region s i (record (s.regions i) {
    mode = mode;
    resource = writable_if (has_flag mode s_iwusr) (s.regions i).resource;
  })

  abbrev pub set_size : Shms → ℕ → ℕ → Shms
  set_size s i size = set_region s i (record (s.regions i) { size = size })

  -- `uassert((regions[shmid].page = nanvix_rmem_alloc()) != RMEM_NULL)`
  abbrev pub take_page : Shms → ℕ → ℕ × Remote → Option Shms
  take_page s i (page, remote) =
      if page == rmem_null
      then none
      else some (set_region (record s { remote = remote }) i (record (s.regions i) { page = page }))

  -- `uassert(nanvix_rmem_free(regions[shmid].page) == 0)`, and the reset of the page
  abbrev pub drop_page : Shms → ℕ → Bool × Remote → Option Shms
  drop_page s i (done, remote) =
      if done
      then some
          (set_region (record s { remote = remote }) i (record (s.regions i) { page = rmem_null }))
      else none

  abbrev pub sized : Option Shms → ℕ → ℕ → Option Shms
  sized none i size = none
  sized (some s) i size = some (set_size s i size)

  pub shm_set_size : Shms → ℕ → ℕ → Option Shms
  shm_set_size s i size =
      if ltb 0 size && (s.regions i).page == rmem_null
      then sized (take_page s i (nanvix_rmem_alloc s.remote)) i size
      else if size == 0 && not ((s.regions i).page == rmem_null)
      then sized (drop_page s i (nanvix_rmem_free s.remote (s.regions i).page)) i size
      else some (set_size s i size)

  abbrev pub new_region : Shms → Option (ℕ × Resource) → Option (ℕ × Shms)
  new_region s none = none
  new_region s (some (i, r)) = some (
    i,
    set_region s i (record (s.regions i) { refcount = pos 1; resource = set_rdonly (set_busy r) }),
  )

  -- `none` is -1.
  pub shm_alloc : Shms → Option (ℕ × Shms)
  shm_alloc s = new_region s (alloc (λ i. (s.regions i).resource) shm_max)

  abbrev pub shm_free : Shms → ℕ → Shms
  shm_free s i = set_region s i (record (s.regions i) { resource = release (s.regions i).resource })

  -- `regions[i].refcount++`
  abbrev pub acquired : Shms → ℕ → Shms
  acquired s i =
      set_region s i (record (s.regions i) { refcount = (s.regions i).refcount +ℤ pos 1 })

  abbrev pub is_region : Name → Region → Bool
  is_region name r = is_used r.resource && name_eq r.name name

  abbrev pub got : Shms → Option ℕ → Option (ℕ × Shms)
  got s none = none
  got s (some i) = some (i, acquired s i)

  -- `none` is -1.
  pub shm_get : Shms → Name → Option (ℕ × Shms)
  shm_get s name = got s (find_entry (is_region name) s.regions shm_max)

  abbrev pub put_page : Option Shms → ℕ → Option (Status × Shms)
  put_page none i = none
  put_page (some s) i = some (ok tt, shm_free s i)

  -- The region that no process uses anymore
  pub put_last : Shms → ℕ → Option (Status × Shms)
  put_last s i =
      if not ((s.regions i).page == rmem_null)
      then put_page (drop_page s i (nanvix_rmem_free s.remote (s.regions i).page)) i
      else some (ok tt, shm_free s i)

  -- `regions[shmid].refcount--`, and what follows
  pub put_one : Shms → ℕ → Option (Status × Shms)
  unfolding put_last shm_is_remove
  put_one s i =
      if (s.regions i).refcount ==ℤ pos 0 && shm_is_remove s i
      then put_last s i
      else some (ok tt, s)

  pub shm_put : Shms → ℕ → Option (Status × Shms)
  unfolding put_one
  shm_put s i =
      if (s.regions i).refcount ==ℤ pos 0
      then some (err einval, s)
      else put_one
          (set_region s i (record (s.regions i) { refcount = (s.regions i).refcount -ℤ pos 1 })) i

  -- What `shm_init` leaves; the other fields are those of `regions` before it.
  pub shm_init : (ℕ → Region) → Remote → Shms
  shm_init before remote = record {
    regions = λ i. record (before i) { refcount = pos 0; resource = initializer; page = rmem_null };
    remote = remote;
  }
