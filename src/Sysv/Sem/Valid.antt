-- ===== src/Sysv/Sem/Valid.antt =====
-- The invariant of the table of semaphores, and what getting and closing a semaphore do to the
-- references of each key.
use multikernel.Common.{
  fun_ext, ℕ, ◌<◌, ◌≤◌, ◌≡◌, refl, sym, ap, ◌∙◌, ◌≢◌, ◌⊎◌, inl, inr, Bool, true, false, ◌&&◌, not,
  some, ℤ, pos, negsuc, pos_part, ◌==ℤ◌, ==ℤ_iff, ◌+ℤ◌, ◌-ℤ◌, ltb, ◌==◌, ==_refl, Bool-cases,
  Option-cases, update, find_entry, First, NoneBelow, search-cases, arith, Result, ok, err, Errno,
  einval, enoent, enotsup, eexist, enospc,
}
use multikernel.Sysv.Resource.{ResourceOps}
use multikernel.Sysv.Flags.{has_flag, ipc_creat, ipc_excl, ipc_private}
use multikernel.Sysv.Sem.{
  Sem, Sems, sem_max, has_key, reference, sem_create, sem_found, do_sem_get, do_sem_close,
  dereferenced, do_sem_init,
}

module _ (ops : ResourceOps) where
  open ops use {
    Resource, initializer, is_used, alloc, release, alloc_used, alloc_unused, alloc_within,
    release_unused, initializer_unused,
  }

  abbrev pub used : Sem ops → Bool
  used e = is_used e.resource

  -- A used entry is referenced, and an unused one is not.
  abbrev pub IsEntry : Sem ops → Type 0
  IsEntry e =
      ((used e ≡ true) × (1 ≤ pos_part e.refcount)) ⊎ ((used e ≡ false) × (e.refcount ≡ pos 0))

  pub record IsValid (s : Sems ops) : Type 0 where
    pub entries : (i : ℕ) → i < sem_max → IsEntry (s.semaphores i)
    pub distinct :
        (i j : ℕ)
        → i < sem_max
        → j < sem_max
        → used (s.semaphores i) ≡ true
        → used (s.semaphores j) ≡ true
        → (s.semaphores i).key ≡ (s.semaphores j).key
        → i ≡ j

  write-IsValid :
      (s : Sems ops) (i : ℕ) (e : Sem ops)
      → IsValid s
      → IsEntry e
      → ((j : ℕ)
          → j < sem_max
          → j ≢ i
          → used e ≡ true
          → used (s.semaphores j) ≡ true
          → e.key ≢ (s.semaphores j).key)
      → IsValid (record s { semaphores = update s.semaphores i e })
  write-IsValid s i e v good other = record {
    entries = λ j hj. elim (Bool-cases (i == j)) [
      | inl hit ↦ rw hit good
      | inr miss ↦ rw miss (v.entries j hj)
    ];
    distinct = λ a b ha hb. elim (Bool-cases (i == a)) [
      | inl ea ↦ elim (Bool-cases (i == b)) [
        | inl eb ↦ ground arith
        | inr nb ↦ ground (arith, other b)
      ]
      | inr na ↦ elim (Bool-cases (i == b)) [
        | inl eb ↦ ground (arith, other a)
        | inr nb ↦ ground (arith, v.distinct a b)
      ]
    ];
  }

  -- The ways of `do_sem_get`: refused; one more reference to the semaphore of the key; a new one.
  abbrev pub GetCase : Sems ops → ℤ → ℕ → Result ℕ × Sems ops → Type 0
  GetCase s key semflg (r, s') =
      ((e : Errno) × (r ≡ err e) × (s' ≡ s))
      ⊎ ((i : ℕ) × First (λ j. has_key ops key (s.semaphores j)) sem_max i
          × (r ≡ ok i)
          × (s' ≡ reference ops s i))
      ⊎ ((i : ℕ) × (x : Resource) × (has_flag semflg ipc_creat ≡ true)
          × NoneBelow (λ j. has_key ops key (s.semaphores j)) sem_max
          × (alloc (λ j. (s.semaphores j).resource) sem_max ≡ some (i, x))
          × (r ≡ ok i)
          × (s'
              ≡ reference ops
                  (record s {
                    semaphores =
                        update s.semaphores i
                          (record (s.semaphores i) { resource = x; key = key; val = pos 0 });
                  })
                  i))

  sem_found-cases :
      (s : Sems ops) (key : ℤ) (semflg : ℕ)
      → GetCase s key semflg
          (sem_found ops s key semflg (find_entry (has_key ops key) s.semaphores sem_max))
  unfolding sem_found sem_create
  sem_found-cases s key semflg =
      elim (search-cases (λ j. has_key ops key (s.semaphores j)) sem_max) [
        | inr (i, e, f) ↦
            rw e (elim (Bool-cases (has_flag semflg ipc_creat && has_flag semflg ipc_excl)) [
              | inl excl ↦ rw excl (inl (eexist, refl, refl))
              | inr shared ↦ rw shared (inr (inl (i, f, refl, refl)))
            ])
        | inl (e, absent) ↦ rw e (elim (Bool-cases (has_flag semflg ipc_creat)) [
          | inr find ↦ rw find (inl (enoent, refl, refl))
          | inl create ↦
              rw create (elim (Option-cases (alloc (λ j. (s.semaphores j).resource) sem_max)) [
                | inl full ↦ rw full (inl (enospc, refl, refl))
                | inr ((i, x), got) ↦ rw got (inr (inr (i, x, refl, absent, refl, refl, refl)))
              ])
        ])
      ]

  pub do_sem_get-cases :
      (s : Sems ops) (key : ℤ) (semflg : ℕ) → GetCase s key semflg (do_sem_get ops s key semflg)
  unfolding do_sem_get
  do_sem_get-cases s key semflg = elim (Bool-cases (key ==ℤ pos ipc_private)) [
    | inl private ↦ rw private (inl (enotsup, refl, refl))
    | inr public ↦ elim (Bool-cases (not (has_flag semflg ipc_creat) && has_flag semflg ipc_excl)) [
      | inl bad ↦ rw (public, bad) (inl (einval, refl, refl))
      | inr good ↦ rw (public, good) (sem_found-cases s key semflg)
    ]
  ]

  -- The entry that `sem_create` leaves, before and after its first reference
  abbrev created : Sem ops → ℤ → Resource → Sem ops
  created e key x = record e { resource = x; key = key; val = pos 0 }

  abbrev referenced : Sem ops → Sem ops
  referenced e = record e { refcount = e.refcount +ℤ pos 1 }

  create-once :
      (s : Sems ops) (i : ℕ) (e : Sem ops)
      → reference ops (record s { semaphores = update s.semaphores i e }) i
        ≡ record s { semaphores = update s.semaphores i (referenced e) }
  create-once s i e =
      ap (λ f. record s { semaphores = f })
        (fun_ext (λ j. elim (Bool-cases (i == j)) [
          | inl hit ↦ rw (hit, ==_refl i) refl
          | inr miss ↦ rw miss refl
        ]))

  -- Getting a semaphore keeps the invariant.
  pub do_sem_get-IsValid :
      (s : Sems ops) (key : ℤ) (semflg : ℕ) → IsValid s → IsValid (do_sem_get ops s key semflg).1
  do_sem_get-IsValid s key semflg v = elim (do_sem_get-cases s key semflg) [
    | inl (_, _, e) ↦ rw e v
    | inr (inl (i, f, _, e)) ↦ rw e (
        write-IsValid s i (referenced (s.semaphores i)) v
          (ground (arith, f.passes, v.entries i f.within))
          (λ j hj ne _ hu same. ne (ground (arith, f.passes, v.distinct j i hj f.within hu))))
    | inr (inr (i, x, _, absent, got, _, e)) ↦
        rw (e, create-once s i (created (s.semaphores i) key x))
          (write-IsValid s i (referenced (created (s.semaphores i) key x)) v
            (ground (
              arith,
              alloc_used _ _ _ _ got,
              alloc_unused _ _ _ _ got,
              v.entries i (alloc_within _ _ _ _ got),
            ))
            (λ j hj ne _ hu same. ground (arith, ==ℤ_iff (s.semaphores j).key key, absent j hj)))
  ]

  dereferenced-IsEntry : (e : Sem ops) → used e ≡ true → IsEntry e → IsEntry (dereferenced ops e)
  unfolding dereferenced
  dereferenced-IsEntry e live ie = elim (Bool-cases (e.refcount -ℤ pos 1 ==ℤ pos 0)) [
    | inl last ↦ rw last (
        inr
          (release_unused e.resource, ground (arith, last, ==ℤ_iff (e.refcount -ℤ pos 1) (pos 0))))
    | inr more ↦ rw more (inl (live, ground (arith, more, ==ℤ_iff (e.refcount -ℤ pos 1) (pos 0))))
  ]

  dereferenced-key : (e : Sem ops) → (dereferenced ops e).key ≡ e.key
  unfolding dereferenced
  dereferenced-key e = ground arith

  -- Closing a semaphore keeps the invariant.
  pub do_sem_close-IsValid :
      (s : Sems ops) (semid : ℤ) → IsValid s → IsValid (do_sem_close ops s semid).1
  unfolding do_sem_close
  do_sem_close-IsValid s (negsuc n) v = v
  do_sem_close-IsValid s (pos i) v = elim (Bool-cases (ltb i sem_max)) [
    | inr bad ↦ rw bad v
    | inl lt ↦ elim (Bool-cases (is_used (s.semaphores i).resource)) [
      | inr bad ↦ rw (lt, bad) v
      | inl live ↦
          rw (lt, live)
            (write-IsValid s i (dereferenced ops (s.semaphores i)) v
              (dereferenced-IsEntry (s.semaphores i) live (v.entries i (ground arith)))
              (λ j hj ne hd hu same. ne (
                v.distinct j i hj (ground arith) hu live
                  (sym same ∙ dereferenced-key (s.semaphores i)))))
    ]
  ]

  pub do_sem_init-IsValid : IsValid (do_sem_init ops)
  unfolding do_sem_init
  do_sem_init-IsValid = record {
    entries = λ i lt. inr (initializer_unused, refl);
    distinct = λ i j hi hj live. absurd (ground (arith, live, initializer_unused));
  }
