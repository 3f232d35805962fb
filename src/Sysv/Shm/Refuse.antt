-- ===== src/Sysv/Shm/Refuse.antt =====
-- A request on shared memory that is refused changes nothing, although the code takes a reference
-- before it looks further.
use multikernel.Common.{
  ℕ, ◌+◌, ◌<◌, ◌≡◌, ◌≢◌, refl, ap, fun_ext, ◌∙◌, inl, inr, true, false, Option, none, some, ℤ, pos,
  negsuc, is_neg, ◌==ℤ◌, ==ℤ_iff, ◌+ℤ◌, ◌-ℤ◌, ltb, ◌==◌, ==_iff, ==_refl, Bool-cases, Option-cases,
  search-cases, arith, Result, ok, err, Status, Errno, eexist, eagain, eacces,
}
use multikernel.NameServer.{Name}
use multikernel.Sysv.Flags.{has_flag}
use multikernel.Sysv.Resource.{RegionOps}
use multikernel.Sysv.Shm.{
  shm_set_size, shm_alloc, s_irusr, s_iwusr, Shms, acquired, is_region, shm_max, shm_is_remove,
  set_region, shm_get, shm_put, put_one, o_trunc, o_rdwr, o_wronly, o_excl, o_creat, o_accmode,
  has_other, nanvix_shm_name_is_invalid,
}
use multikernel.Sysv.Shm.Requests.{
  paged, create_new, create_found, when_valid, Opened, refuse, truncated, open_trunc, open_found,
  do_shm_ftruncate, do_shm_open, do_shm_create,
}

add_sub : (z : ℤ) → z +ℤ pos 1 -ℤ pos 1 ≡ z
add_sub (pos n) = ground arith
add_sub (negsuc n) = ground arith

succ_pos : (z : ℤ) → is_neg z ≡ false → (z +ℤ pos 1 ==ℤ pos 0) ≡ false
succ_pos (pos n) h = ground arith
succ_pos (negsuc n) h = ground arith

module _ (ops : RegionOps) where
  open ops use {is_used, is_busy, is_writable, is_mapped}

  -- References are counted from zero, and a used region that is to be removed has one.
  pub record IsValid (s : Shms ops) : Type 0 where
    pub counted : (i : ℕ) → i < shm_max → is_neg (s.regions i).refcount ≡ false
    pub kept :
        (i : ℕ)
        → i < shm_max
        → is_used (s.regions i).resource ≡ true
        → is_busy (s.regions i).resource ≡ false
        → (s.regions i).refcount ≢ pos 0

  put_back :
      (s : Shms ops) (i : ℕ)
      → set_region ops (acquired ops s i) i (record ((acquired ops s i).regions i) {
        refcount = ((acquired ops s i).regions i).refcount -ℤ pos 1;
      })
        ≡ s
  put_back s i =
      ap (λ f. record s { regions = f })
        (fun_ext (λ j. elim (Bool-cases (i == j)) [
          | inl hit ↦
              rw (hit, ==_refl i)
                (ap (λ z. record (s.regions i) { refcount = z }) (add_sub (s.regions i).refcount)
                  ∙ ap s.regions ((==_iff i j).0 hit))
          | inr miss ↦ rw miss refl
        ]))

  -- No last reference has gone.
  put_one-kept :
      (s : Shms ops) (i : ℕ)
      → IsValid s
      → i < shm_max
      → is_used (s.regions i).resource ≡ true
      → put_one ops s i ≡ some (ok tt, s)
  unfolding put_one shm_is_remove
  put_one-kept s i v lt used =
      ground (arith, v.kept i lt used, ==ℤ_iff (s.regions i).refcount (pos 0))

  put_step :
      (s : Shms ops) (i : ℕ)
      → is_neg (s.regions i).refcount ≡ false
      → shm_put ops (acquired ops s i) i
        ≡ put_one ops
            (set_region ops (acquired ops s i) i (record ((acquired ops s i).regions i) {
              refcount = ((acquired ops s i).regions i).refcount -ℤ pos 1;
            }))
            i
  unfolding shm_put
  put_step s i h = rw (==_refl i, succ_pos (s.regions i).refcount h) refl

  -- The reference that `shm_get` has taken goes back without the removal of the region.
  get-put :
      (s : Shms ops) (i : ℕ)
      → IsValid s
      → i < shm_max
      → is_used (s.regions i).resource ≡ true
      → shm_put ops (acquired ops s i) i ≡ some (ok tt, s)
  get-put s i v lt used =
      put_step s i (v.counted i lt)
      ∙ ap (λ t. put_one ops t i) (put_back s i)
      ∙ put_one-kept s i v lt used

  -- A failure leaves the state `s`.
  abbrev pub Atomic {ℓ} : {A : Type ℓ} → Shms ops → Option (Result A × Shms ops) → Type 0
  Atomic s none = Unit {0}
  Atomic s (some (ok a, s')) = Unit {0}
  Atomic s (some (err e, s')) = s' ≡ s

  paged-Atomic : (s : Shms ops) (o : Option (Shms ops)) (i : ℕ) → Atomic s (paged ops o i)
  paged-Atomic s none i = tt
  paged-Atomic s (some s') i = tt

  do_shm_ftruncate-Atomic :
      (s : Shms ops) (i : ℕ) → Atomic s (do_shm_ftruncate ops s (pos i) (pos 0))
  unfolding do_shm_ftruncate
  do_shm_ftruncate-Atomic s i = elim (Bool-cases (ltb i shm_max)) [
    | inr bad ↦ rw bad refl
    | inl lt ↦ elim (Bool-cases (is_used (s.regions i).resource)) [
      | inr bad ↦ rw (lt, bad) refl
      | inl used ↦ elim (Bool-cases (is_writable (s.regions i).resource)) [
        | inr bad ↦ rw (lt, used, bad) refl
        | inl wr ↦ elim (Bool-cases (is_mapped (s.regions i).resource)) [
          | inl bad ↦ rw (lt, used, wr, bad) refl
          | inr free ↦ rw (lt, used, wr, free) (paged-Atomic s (shm_set_size ops s i 0) i)
        ]
      ]
    ]
  ]

  module _ (s : Shms ops) (v : IsValid s) where
    module _ (i : ℕ) (lt : i < shm_max) (used : is_used (s.regions i).resource ≡ true) where
      refuse-Atomic : (e : Errno) → Atomic s (refuse ops (acquired ops s i) i e)
      refuse-Atomic e = rw (get-put s i v lt used) refl

      truncated-Atomic :
          (o : Option (Result ℕ × Shms ops))
          → Atomic (acquired ops s i) o
          → Atomic s (truncated ops (acquired ops s i) i o)
      truncated-Atomic none h = tt
      truncated-Atomic (some (ok page, s')) h = tt
      truncated-Atomic (some (err e, s')) h = rw h (refuse-Atomic eagain)

      open_trunc-Atomic : (oflags : ℕ) → Atomic s (open_trunc ops (acquired ops s i) i oflags)
      unfolding open_trunc
      open_trunc-Atomic oflags = elim (Bool-cases (has_flag oflags o_trunc)) [
        | inr keep ↦ rw keep tt
        | inl cut ↦ elim (Bool-cases (has_flag oflags (o_rdwr + o_wronly))) [
          | inr bad ↦ rw (cut, bad) (refuse-Atomic eacces)
          | inl wr ↦
              rw (cut, wr) (truncated-Atomic _ (do_shm_ftruncate-Atomic (acquired ops s i) i))
        ]
      ]

    open_found-Atomic :
        (name : Name) (oflags : ℕ) → Atomic s (open_found ops s oflags (shm_get ops s name))
    unfolding open_found shm_get
    open_found-Atomic name oflags =
        elim (search-cases (λ j. is_region ops name (s.regions j)) shm_max) [
          | inl (e, absent) ↦ rw e refl
          | inr (i, e, f) ↦ rw e (elim (Bool-cases (shm_is_remove ops (acquired ops s i) i)) [
            | inl gone ↦ rw gone (refuse-Atomic i f.within (ground (arith, f.passes)) eagain)
            | inr stays ↦ rw stays (open_trunc-Atomic i f.within (ground (arith, f.passes)) oflags)
          ])
        ]

    create_new-Atomic :
        (proc : ℤ) (name : Name) (mode : ℕ) (o : Option (ℕ × Shms ops))
        → Atomic s (create_new ops s proc name mode o)
    unfolding create_new
    create_new-Atomic proc name mode none = refl
    create_new-Atomic proc name mode (some (i, s')) =
        elim (Option-cases (shm_set_size ops s' i 0)) [ inl e ↦ rw e tt | inr (s'', e) ↦ rw e tt ]

    create_found-Atomic :
        (proc : ℤ) (name : Name) (oflags mode : ℕ)
        → Atomic s (create_found ops s proc name oflags mode (shm_get ops s name))
    unfolding create_found shm_get
    create_found-Atomic proc name oflags mode =
        elim (search-cases (λ j. is_region ops name (s.regions j)) shm_max) [
          | inl (e, absent) ↦ rw e (create_new-Atomic proc name mode (shm_alloc ops s))
          | inr (i, e, f) ↦ rw e (elim (Bool-cases (has_flag oflags o_excl)) [
            | inl excl ↦ rw excl (refuse-Atomic i f.within (ground (arith, f.passes)) eexist)
            | inr shared ↦
                rw shared (open_trunc-Atomic i f.within (ground (arith, f.passes)) oflags)
          ])
        ]

    when_valid-Atomic :
        (r : Status) (next : Opened ops) → Atomic s next → Atomic s (when_valid ops r s next)
    when_valid-Atomic (ok u) next h = h
    when_valid-Atomic (err e) next h = refl

  -- From a valid state, a request to open a region that fails, at whatever point, leaves every
  -- region, its references included, and the remote memory as they were.
  pub do_shm_open-Atomic :
      (s : Shms ops) (name : Name) (oflags : ℕ)
      → IsValid s
      → Atomic s (do_shm_open ops s name oflags)
  unfolding do_shm_open
  do_shm_open-Atomic s name oflags v =
      when_valid-Atomic s v (nanvix_shm_name_is_invalid name) _
        (elim (Bool-cases (has_other oflags (o_trunc + o_accmode))) [
          | inl bad ↦ rw bad refl
          | inr good ↦ rw good (open_found-Atomic s v name oflags)
        ])

  -- From a valid state, a request to create a region that fails, at whatever point, leaves every
  -- region, its references included, and the remote memory as they were.
  pub do_shm_create-Atomic :
      (s : Shms ops) (proc : ℤ) (name : Name) (oflags mode : ℕ)
      → IsValid s
      → Atomic s (do_shm_create ops s proc name oflags mode)
  unfolding do_shm_create
  do_shm_create-Atomic s proc name oflags mode v =
      when_valid-Atomic s v (nanvix_shm_name_is_invalid name) _
        (elim (Bool-cases (has_other oflags (o_creat + o_excl + o_trunc + o_accmode))) [
          | inl bad ↦ rw bad refl
          | inr good ↦ elim (Bool-cases (has_other mode (s_irusr + s_iwusr))) [
            | inl bad ↦ rw (good, bad) refl
            | inr fine ↦ elim (Bool-cases (has_flag oflags o_creat)) [
              | inr bad ↦ rw (good, fine, bad) refl
              | inl create ↦ rw (good, fine, create) (create_found-Atomic s v proc name oflags mode)
            ]
          ]
        ])
