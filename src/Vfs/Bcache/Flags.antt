-- ===== src/Vfs/Bcache/Flags.antt =====
-- What the block cache takes from the kernel's nanvix/hal/resource.h, which is not in the
-- repository: three flags in a status word, each set and cleared alone.
use multikernel.Common.{◌≡◌, Bool, true, false}

pub record FlagOps : Type 1 where
  pub Flags : Type 0
  -- RESOURCE_INITIALIZER
  pub initializer : Flags
  pub is_used : Flags → Bool
  pub is_dirty : Flags → Bool
  pub is_valid : Flags → Bool
  pub set_used : Flags → Flags
  pub set_unused : Flags → Flags
  pub set_dirty : Flags → Flags
  pub set_clean : Flags → Flags
  pub set_valid : Flags → Flags
  pub set_invalid : Flags → Flags
  -- No flag of a new status word is set.
  pub initial :
      (is_used initializer ≡ false)
      × (is_dirty initializer ≡ false)
      × (is_valid initializer ≡ false)
  -- A call sets or clears its flag and leaves the others.
  pub sets_used :
      (f : Flags)
      → (is_used (set_used f) ≡ true)
        × (is_dirty (set_used f) ≡ is_dirty f)
        × (is_valid (set_used f) ≡ is_valid f)
  pub sets_unused :
      (f : Flags)
      → (is_used (set_unused f) ≡ false)
        × (is_dirty (set_unused f) ≡ is_dirty f)
        × (is_valid (set_unused f) ≡ is_valid f)
  pub sets_dirty :
      (f : Flags)
      → (is_used (set_dirty f) ≡ is_used f)
        × (is_dirty (set_dirty f) ≡ true)
        × (is_valid (set_dirty f) ≡ is_valid f)
  pub sets_clean :
      (f : Flags)
      → (is_used (set_clean f) ≡ is_used f)
        × (is_dirty (set_clean f) ≡ false)
        × (is_valid (set_clean f) ≡ is_valid f)
  pub sets_valid :
      (f : Flags)
      → (is_used (set_valid f) ≡ is_used f)
        × (is_dirty (set_valid f) ≡ is_dirty f)
        × (is_valid (set_valid f) ≡ true)
  pub sets_invalid :
      (f : Flags)
      → (is_used (set_invalid f) ≡ is_used f)
        × (is_dirty (set_invalid f) ≡ is_dirty f)
        × (is_valid (set_invalid f) ≡ false)
