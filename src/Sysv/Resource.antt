-- ===== src/Sysv/Resource.antt =====
-- What src/sys/pm/sysv takes from the kernel's nanvix/hal/resource.h, which is not in the
-- repository: the status word of a table's entry, and the allocation of an entry in a pool.
use multikernel.Common.{ℕ, ◌<◌, ◌≡◌, Bool, true, false, Option, none, some}

pub record ResourceOps : Type 1 where
  pub Resource : Type 0
  -- RESOURCE_INITIALIZER
  pub initializer : Resource
  pub is_used : Resource → Bool
  -- `resource_alloc`: an entry of the pool, and what its status word becomes
  pub alloc : (ℕ → Resource) → ℕ → Option (ℕ × Resource)
  -- `resource_free`
  pub release : Resource → Resource
  -- A new status word is that of an unused entry.
  pub initializer_unused : is_used initializer ≡ false
  -- An allocation hands out an unused entry of the pool, and marks it as used.
  pub alloc_within : (rs : ℕ → Resource) (n i : ℕ) (r : Resource) → alloc rs n ≡ some (i, r) → i < n
  pub alloc_unused :
      (rs : ℕ → Resource) (n i : ℕ) (r : Resource)
      → alloc rs n ≡ some (i, r)
      → is_used (rs i) ≡ false
  pub alloc_used :
      (rs : ℕ → Resource) (n i : ℕ) (r : Resource) → alloc rs n ≡ some (i, r) → is_used r ≡ true
  -- It fails only where all entries are used.
  pub alloc_full :
      (rs : ℕ → Resource) (n : ℕ) → alloc rs n ≡ none → (i : ℕ) → i < n → is_used (rs i) ≡ true
  -- A released entry is unused.
  pub release_unused : (r : Resource) → is_used (release r) ≡ false

-- What shm.c uses besides: the flags of a status word, and the server's calls as a client of remote
-- memory, whose reply depends on the state of the servers it talks to.
pub record RegionOps : Type 1 where
  pub Resource : Type 0
  pub initializer : Resource
  pub is_used : Resource → Bool
  pub is_busy : Resource → Bool
  pub is_writable : Resource → Bool
  pub is_mapped : Resource → Bool
  pub alloc : (ℕ → Resource) → ℕ → Option (ℕ × Resource)
  pub release : Resource → Resource
  pub set_busy : Resource → Resource
  pub set_notbusy : Resource → Resource
  pub set_rdonly : Resource → Resource
  pub set_rdwr : Resource → Resource
  pub Remote : Type 0
  -- A page, with RMEM_NULL for a failure
  pub nanvix_rmem_alloc : Remote → ℕ × Remote
  -- Whether the page was freed
  pub nanvix_rmem_free : Remote → ℕ → Bool × Remote
  -- A new status word is that of an unused entry.
  pub initializer_unused : is_used initializer ≡ false
