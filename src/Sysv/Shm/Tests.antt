-- ===== src/Sysv/Shm/Tests.antt =====
-- Tests of shared memory: a table of one read-only region with the name "a".
use multikernel.Common.{
  ℕ, refl, Bool, true, false, ◌==◌, if◌then◌else◌, none, ◌∷◌, [], pos, ◌+◌, arith,
}
use multikernel.Sysv.Resource.{RegionOps}
use multikernel.Sysv.Shm.{Region, Shms, o_creat, o_excl}
use multikernel.Sysv.Shm.Requests.{do_shm_create}
use multikernel.Sysv.Shm.Refuse.{IsValid, Atomic, do_shm_create-Atomic}

-- A status word: used, busy, writable
record Word : Type 0 where
  used : Bool
  busy : Bool
  writable : Bool

abbrev unused : Word
unused = record { used = false; busy = false; writable = false }

abbrev words : RegionOps
words = record {
  Resource = Word;
  initializer = unused;
  is_used = λ w. w.used;
  is_busy = λ w. w.busy;
  is_writable = λ w. w.writable;
  is_mapped = λ w. false;
  alloc = λ ws n. none;
  release = λ w. record w { used = false };
  set_busy = λ w. record w { busy = true };
  set_notbusy = λ w. record w { busy = false };
  set_rdonly = λ w. record w { writable = false };
  set_rdwr = λ w. record w { writable = true };
  Remote = ℕ;
  nanvix_rmem_alloc = λ next. (next, next + 1);
  nanvix_rmem_free = λ next page. (true, next);
  initializer_unused = refl;
}

abbrev region : Word → ℕ → Region words
region w n = record {
  resource = w;
  name = 97 ∷ [];
  owner = pos 1;
  refcount = pos n;
  mode = 256;
  size = 0;
  page = 0;
}

abbrev one_region : Shms words
one_region = record {
  regions = λ i.
      if i == 0
      then region (record { used = true; busy = true; writable = false }) 1
      else region unused 0;
  remote = 1;
}

one_region-IsValid : IsValid words one_region
one_region-IsValid = record {
  counted = λ i lt. ground arith;
  kept = λ i lt used idle. ground arith;
}

do_shm_create-Atomic_example :
    Atomic words one_region
      (do_shm_create words one_region (pos 1) (97 ∷ []) (o_creat + o_excl) 256)
do_shm_create-Atomic_example =
    do_shm_create-Atomic words one_region (pos 1) (97 ∷ []) (o_creat + o_excl) 256
      one_region-IsValid
