-- ===== src/Sysv/Sem/Operate.antt =====
-- Operations on a semaphore: the values stay at zero or above, and who sleeps and is woken.
use multikernel.Common.{
  ℕ, ◌-◌, ◌+◌, ◌*◌, ◌^◌, ◌≡◌, refl, inl, inr, true, false, ◌&&◌, ℤ, pos, negsuc, is_neg, leb_ℤ,
  ◌==ℤ◌, ==_refl, ◌+ℤ◌, ◌-ℤ◌, ltb, Bool-cases, search-cases, arith,
}
use multikernel.Sysv.Resource.{ResourceOps}
use multikernel.Sysv.Flags.{has_flag, ipc_nowait, sem_undo}
use multikernel.Sysv.Sem.{
  Sems, Sembuf, sem_max, as_int, set_val, wake, can_wake, do_sleep, do_wakeup, do_sem_operate,
  must_wait, is_positive, do_sem_init, do_sem_get,
}
use multikernel.Sysv.Sem.Valid.{do_sem_get-cases}

-- INT_MAX, and the bounds of a `short`
abbrev pub int_max : ℕ
int_max = 2 ^ 31 - 1

abbrev pub short_max : ℕ
short_max = 2 ^ 15 - 1

abbrev pub IsShort : ℤ → Type 0
IsShort z = (leb_ℤ (negsuc short_max) z ≡ true) × (leb_ℤ z (pos short_max) ≡ true)

-- An `int` that is not negative and in range is itself.
pub as_int_below : (z : ℤ) → is_neg z ≡ false → leb_ℤ z (pos int_max) ≡ true → as_int z ≡ z
as_int_below (pos n) h le = ground (arith, le)
as_int_below (negsuc n) h le = absurd (cc)

module _ (ops : ResourceOps) where
  open ops use {is_used}

  -- No semaphore is below zero.
  abbrev pub NonNegative : Sems ops → Type 0
  NonNegative s = (i : ℕ) → is_neg (s.semaphores i).val ≡ false

  -- No semaphore is near the largest value: there is room for two operations.
  abbrev pub HasRoom : Sems ops → Type 0
  HasRoom s = (i : ℕ) → leb_ℤ (s.semaphores i).val (pos (int_max - 2 * (short_max + 1))) ≡ true

  -- The values of the sleeping processes are operations.
  abbrev pub ShortSleepers : Sems ops → Type 0
  ShortSleepers s = (k : ℕ) → IsShort (s.sleeping k).val

  set_val-NonNegative :
      (s : Sems ops) (i : ℕ) (v : ℤ)
      → NonNegative s
      → is_neg v ≡ false
      → NonNegative (set_val ops s i v)
  set_val-NonNegative s i v h hv j = ground (arith, h j)

  -- A value that a sleeping process may lower
  lowered :
      (val sleeper semid : ℤ) (i : ℕ)
      → is_neg val ≡ false
      → leb_ℤ val (pos (int_max - (short_max + 1))) ≡ true
      → IsShort sleeper
      → semid ==ℤ pos i && leb_ℤ sleeper val ≡ true
      → is_neg (as_int (val -ℤ sleeper)) ≡ false
  lowered val sleeper semid i h room short passes =
      let fine : is_neg (val -ℤ sleeper) ≡ false = ground (arith, h, passes) in
      rw (as_int_below (val -ℤ sleeper) fine (ground (arith, h, room, short))) fine

  raised :
      (val op : ℤ)
      → is_neg val ≡ false
      → leb_ℤ val (pos (int_max - 2 * (short_max + 1))) ≡ true
      → IsShort op
      → is_positive op ≡ true
      → (is_neg (as_int (val +ℤ op)) ≡ false)
        × (leb_ℤ (as_int (val +ℤ op)) (pos (int_max - (short_max + 1))) ≡ true)
  raised val op h room short up =
      let fine : is_neg (val +ℤ op) ≡ false = ground (arith, h, up) in
      rw (as_int_below (val +ℤ op) fine (ground (arith, h, room, short, up)))
        (fine, ground (arith, h, room, short, up))

  -- A value that an operation lowers or leaves
  done :
      (val op : ℤ)
      → is_neg val ≡ false
      → leb_ℤ val (pos (int_max - 2 * (short_max + 1))) ≡ true
      → is_positive op ≡ false
      → must_wait val op ≡ false
      → is_neg (as_int (val +ℤ op)) ≡ false
  done val (negsuc n) h room down go_on = go_on
  done val (pos n) h room down go_on =
      let fine : is_neg (val +ℤ pos n) ≡ false = ground (arith, h, down) in
      rw (as_int_below (val +ℤ pos n) fine (ground (arith, h, room, down))) fine

  do_wakeup-NonNegative :
      (m : ℕ) (s : Sems ops) (i : ℕ)
      → NonNegative s
      → leb_ℤ (s.semaphores i).val (pos (int_max - (short_max + 1))) ≡ true
      → ShortSleepers s
      → NonNegative (do_wakeup ops m s i).1
  unfolding do_wakeup wake
  do_wakeup-NonNegative m s i h room short j =
      elim (search-cases (λ k. can_wake ops s i (s.sleeping k)) m) [
        | inl (e, _) ↦ rw e (h j)
        | inr (k, e, f) ↦ rw e (
            set_val-NonNegative s i (as_int ((s.semaphores i).val -ℤ (s.sleeping k).val)) h
              (lowered (s.semaphores i).val (s.sleeping k).val (s.sleeping k).semid i (h i) room
                (short k) f.passes)
              j)
      ]

  -- Where no semaphore is within 65536 of the largest `int`, no operation takes one below zero, nor
  -- does the wake-up that follows it.
  pub do_sem_operate-NonNegative :
      (m : ℕ) (s : Sems ops) (conn semid : ℤ) (sops : Sembuf)
      → NonNegative s
      → HasRoom s
      → ShortSleepers s
      → IsShort sops.sem_op
      → NonNegative (do_sem_operate ops m s conn semid sops).1
  unfolding do_sem_operate do_sleep
  do_sem_operate-NonNegative m s conn (negsuc n) sops h room short op = h
  do_sem_operate-NonNegative m s conn (pos i) sops h room short op =
      elim (Bool-cases (is_neg conn)) [
        | inl bad ↦ rw bad h
        | inr fine ↦ elim (Bool-cases (ltb i sem_max)) [
          | inr bad ↦ rw (fine, bad) h
          | inl lt ↦ elim (Bool-cases (is_used (s.semaphores i).resource)) [
            | inr bad ↦ rw (fine, lt, bad) h
            | inl live ↦ elim (Bool-cases (has_flag sops.sem_flg sem_undo)) [
              | inl undo ↦ rw (fine, lt, live, undo) h
              | inr plain ↦ elim (Bool-cases (is_positive sops.sem_op)) [
                | inl up ↦
                    rw (fine, lt, live, plain, up)
                      (do_wakeup-NonNegative m
                        (set_val ops s i (as_int ((s.semaphores i).val +ℤ sops.sem_op))) i
                        (set_val-NonNegative s i (as_int ((s.semaphores i).val +ℤ sops.sem_op)) h
                          (raised (s.semaphores i).val sops.sem_op (h i) (room i) op up).0)
                        (rw (==_refl i)
                          (raised (s.semaphores i).val sops.sem_op (h i) (room i) op up).1)
                        short)
                | inr down ↦ elim (Bool-cases (must_wait (s.semaphores i).val sops.sem_op)) [
                  | inl wait ↦
                      rw (fine, lt, live, plain, down, wait)
                        (elim (Bool-cases (has_flag sops.sem_flg ipc_nowait)) [
                          | inl now ↦ rw now h
                          | inr later ↦ rw later h
                        ])
                  | inr go_on ↦
                      rw (fine, lt, live, plain, down, go_on)
                        (set_val-NonNegative s i (as_int ((s.semaphores i).val +ℤ sops.sem_op)) h
                          (done (s.semaphores i).val sops.sem_op (h i) (room i) down go_on))
                ]
              ]
            ]
          ]
        ]
      ]

  pub do_sem_init-NonNegative : NonNegative (do_sem_init ops)
  unfolding do_sem_init
  do_sem_init-NonNegative i = refl

  pub do_sem_get-NonNegative :
      (s : Sems ops) (key : ℤ) (semflg : ℕ)
      → NonNegative s
      → NonNegative (do_sem_get ops s key semflg).1
  do_sem_get-NonNegative s key semflg h j = elim (do_sem_get-cases ops s key semflg) [
    | inl (_, _, e) ↦ rw e (h j)
    | inr (inl (i, f, _, e)) ↦ rw e (ground (arith, h j, h i))
    | inr (inr (i, x, _, absent, got, _, e)) ↦ rw e (ground (arith, h j, h i))
  ]
