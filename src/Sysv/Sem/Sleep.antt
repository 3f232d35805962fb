-- ===== src/Sysv/Sem/Sleep.antt =====
-- Sleeping on a semaphore and being woken.
use multikernel.Common.{
  ℕ, ◌-◌, ◌+◌, ◌-ℤ◌, ◌<◌, ◌≡◌, refl, inl, inr, true, false, ℤ, pos, negsuc, is_neg, ◌==ℤ◌, ==ℤ_iff,
  leb_ℤ, ◌⊎◌, search-cases, ==_refl, arith,
}
use multikernel.Sysv.Resource.{ResourceOps}
use multikernel.Sysv.Sem.Operate.{int_max, short_max, IsShort, ShortSleepers, as_int_below}
use multikernel.Sysv.Sem.{Sems, as_int, can_wake, wake, do_sleep, do_wakeup}

module _ (ops : ResourceOps) where
  -- A process that goes to sleep leaves no free entry to any other: it takes all of them.
  pub do_sleep-fills :
      (proc_max : ℕ) (s : Sems ops) (conn : ℤ) (i : ℕ) (val : ℤ) (k : ℕ)
      → k < proc_max
      → ((do_sleep ops proc_max s conn (pos i) val).sleeping k).semid ==ℤ negsuc 0 ≡ false
  unfolding do_sleep
  do_sleep-fills m s conn i val k lt = ground arith

  greater :
      (val sleeper : ℤ)
      → is_neg val ≡ false
      → leb_ℤ val (pos (int_max - (short_max + 1))) ≡ true
      → IsShort sleeper
      → is_neg sleeper ≡ true
      → leb_ℤ (as_int (val -ℤ sleeper)) val ≡ false
  greater val sleeper h room short neg =
      rw
        (as_int_below (val -ℤ sleeper) (ground (arith, h, neg))
          (ground (arith, h, room, short, neg)))
        (ground (arith, h, neg))

  -- Where all that sleep on a semaphore wait to lower it, either none is woken and nothing changes,
  -- or waking one makes the value greater, up to the largest `int`.
  pub do_wakeup-raises :
      (proc_max : ℕ) (s : Sems ops) (i : ℕ)
      → ((k : ℕ) → k < proc_max → (s.sleeping k).semid ≡ pos i → is_neg (s.sleeping k).val ≡ true)
      → ShortSleepers ops s
      → is_neg (s.semaphores i).val ≡ false
      → leb_ℤ (s.semaphores i).val (pos (int_max - (short_max + 1))) ≡ true
      → (do_wakeup ops proc_max s i ≡ (pos 0, s))
        ⊎ (leb_ℤ ((do_wakeup ops proc_max s i).1.semaphores i).val (s.semaphores i).val ≡ false)
  unfolding do_wakeup wake
  do_wakeup-raises m s i lower short h room =
      elim (search-cases (λ k. can_wake ops s i (s.sleeping k)) m) [
        | inl (e, _) ↦ inl (rw e refl)
        | inr (k, e, f) ↦ inr (
            rw (e, ==_refl i)
              (greater (s.semaphores i).val (s.sleeping k).val h room (short k) (
                lower k f.within (ground (arith, f.passes, ==ℤ_iff (s.sleeping k).semid (pos i))))))
      ]
