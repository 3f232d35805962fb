-- ===== src/Sysv/Server/Wait.antt =====
-- Which processes wait for a semaphore, as the server tells them apart.
use multikernel.Common.{
  ℕ, ◌≡◌, refl, sym, ◌∙◌, ◌&&◌, not, Option, none, some, [], ℤ, pos, negsuc, is_neg, ◌==ℤ◌, ==ℤ_iff,
  ◌+ℤ◌, ltb, if◌then◌else◌, update-all, if-all, find_entry, false, Result, ok, err, Status,
}
use multikernel.Connection.{connect}
use multikernel.Sysv.Flags.{has_flag, ipc_nowait, sem_undo}
use multikernel.Sysv.Resource.{ResourceOps, RegionOps}
use multikernel.Sysv.Sem.{
  Sems, Sleeper, Sembuf, sem_max, is_positive, must_wait, set_val, as_int, do_sleep, wake,
  do_wakeup, awoken, can_wake, do_sem_operate,
}
use multikernel.Sysv.Server.{
  Server, Request, Operated, blocked, answered, failed, connection_of, sem_operated,
  do_sysv_sem_operate,
}

module _ (ops : ResourceOps) where
  open ops use {is_used}

  -- Every entry of `sleeping` has connection 0.
  abbrev pub ZeroSleepers : Sems ops → Type 0
  ZeroSleepers s = (k : ℕ) → (s.sleeping k).conn ≡ pos 0

  -- An operation's result is connection 0 or an error.
  abbrev Zero : Result ℤ × Sems ops → Type 0
  Zero (ok c, s) = (c ≡ pos 0) × ZeroSleepers s
  Zero (err e, s) = ZeroSleepers s

  abbrev ZeroWoken : ℤ × Sems ops → Type 0
  ZeroWoken (c, s) = (c ≡ pos 0) × ZeroSleepers s

  wake-Zero : (s : Sems ops) (i : ℕ) (o : Option ℕ) → ZeroSleepers s → ZeroWoken (wake ops s i o)
  unfolding wake
  wake-Zero s i none h = (refl, h)
  wake-Zero s i (some k) h =
      (h k, λ j. update-all (λ x. x.conn ≡ pos 0) s.sleeping k _ j (λ _. h k) (λ _. h j))

  awoken-Zero : (r : ℤ × Sems ops) → ZeroWoken r → Zero (awoken ops r)
  awoken-Zero (c, s) (e, h) = (rw e refl, h)

  do_sleep-Zero :
      (proc_max : ℕ) (s : Sems ops) (conn semid val : ℤ)
      → conn ≡ pos 0
      → ZeroSleepers s
      → ZeroSleepers (do_sleep ops proc_max s conn semid val)
  unfolding do_sleep
  do_sleep-Zero proc_max s conn semid val e h k =
      if-all {A = Sleeper} (λ x. x.conn ≡ pos 0)
        (ltb k proc_max && (s.sleeping k).semid ==ℤ negsuc 0) _ _ (λ _. e) (λ _. h k)

  do_sem_operate-Zero :
      (proc_max : ℕ) (s : Sems ops) (conn semid : ℤ) (sops : Sembuf)
      → (is_neg conn ≡ false → conn ≡ pos 0)
      → ZeroSleepers s
      → Zero (do_sem_operate ops proc_max s conn semid sops)
  unfolding do_sem_operate do_wakeup
  do_sem_operate-Zero proc_max s conn (negsuc n) sops zero_or h = h
  do_sem_operate-Zero proc_max s conn (pos i) sops zero_or h =
      if-all Zero (is_neg conn) _ _ (λ _. h)
        (λ live.
          if-all Zero (not (ltb i sem_max)) _ _ (λ _. h)
            (λ _.
              if-all Zero (not (is_used (s.semaphores i).resource)) _ _ (λ _. h)
                (λ _.
                  if-all Zero (has_flag sops.sem_flg sem_undo) _ _ (λ _. h)
                    (λ _.
                      if-all Zero (is_positive sops.sem_op) _ _
                        (λ _.
                          awoken-Zero (wake ops (raised i) i (woken i))
                            (wake-Zero (raised i) i (woken i) h))
                        (λ _. waits i (zero_or live))))))
    where
      raised : ℕ → Sems ops
      raised i = set_val ops s i (as_int ((s.semaphores i).val +ℤ sops.sem_op))

      woken : ℕ → Option ℕ
      woken i = find_entry (can_wake ops (raised i) i) s.sleeping proc_max

      waits :
          (i : ℕ)
          → conn ≡ pos 0
          → Zero (
              if must_wait (s.semaphores i).val sops.sem_op
              then (if has_flag sops.sem_flg ipc_nowait
                  then (ok (pos 0), s)
                  else (ok conn, do_sleep ops proc_max s conn (pos i) sops.sem_op))
              else (ok (pos 0), raised i))
      waits i e =
          if-all Zero (must_wait (s.semaphores i).val sops.sem_op) _ _
            (λ _.
              if-all Zero (has_flag sops.sem_flg ipc_nowait) _ _ (λ _. (refl, h))
                (λ _. (e, do_sleep-Zero proc_max s conn (pos i) sops.sem_op e h)))
            (λ _. (refl, h))

  module _ (rops : RegionOps) (proc_max : ℕ) where
    -- What the server does of an operation on a semaphore: no process but process 0 is made to wait,
    -- none is woken, and the entries of `sleeping` keep connection 0.
    abbrev pub NoneWaits : ℤ → Operated ops rops → Type 0
    NoneWaits pid (blocked s) = (pid ≡ pos 0) × ZeroSleepers s.sems
    NoneWaits pid (answered a out s) = (out ≡ []) × ZeroSleepers s.sems
    NoneWaits pid failed = ⊥

    sem_operated-NoneWaits :
        (s : Server ops rops) (q : Request) (r : Result ℤ × Sems ops)
        → Zero r
        → NoneWaits q.source (sem_operated ops rops proc_max s q r)
    sem_operated-NoneWaits s q (err e, t) h = (refl, h)
    sem_operated-NoneWaits s q (ok c, t) (e, h) =
        if-all (NoneWaits q.source) (c ==ℤ q.source) _ _
          (λ same. (sym ((==ℤ_iff c q.source).0 same) ∙ e, h))
          (λ _.
            if-all (NoneWaits q.source) (c ==ℤ pos 0) _ _ (λ _. (refl, h))
              (λ other. absurd (clash e other)))
      where
        clash : {c : ℤ} → c ≡ pos 0 → (c ==ℤ pos 0) ≡ false → ⊥
        clash e = rw e (λ f. absurd (cc))

    -- Where the entries of `sleeping` have connection 0, as they have at the start, an operation on a
    -- semaphore makes no process but process 0 wait, whatever the value of the semaphore, and wakes
    -- none; and the entries keep connection 0.
    pub do_sysv_sem_operate-NoneWaits :
        (s : Server ops rops) (q : Request)
        → ZeroSleepers s.sems
        → NoneWaits q.source (do_sysv_sem_operate ops rops proc_max s q)
    unfolding do_sysv_sem_operate
    do_sysv_sem_operate-NoneWaits s q h =
        let c = connect proc_max s.conns q.source q.port in
        sem_operated-NoneWaits (record s { conns = c.1 }) q _
          (do_sem_operate-Zero proc_max s.sems (connection_of ops rops proc_max c.0) q.id q.sembuf
            (is_zero c.0) h)
      where
        is_zero :
            (r : Status)
            → is_neg (connection_of ops rops proc_max r) ≡ false
            → connection_of ops rops proc_max r ≡ pos 0
        is_zero (ok u) e = refl
        is_zero (err x) e = absurd (cc)
