-- ===== src/Sysv/Server/Region.antt =====
-- src/sys/pm/sysv/main.c: the requests on shared memory regions.
use multikernel.Common.{ℕ, Option, none, some, List, [], ◌∷◌, ℤ, Result, ok, err, Status}
use multikernel.Connection.{Connection, Table, connect, disconnect, get_connections}
use multikernel.Sysv.Resource.{ResourceOps, RegionOps}
use multikernel.Sysv.Shm.{Shms}
use multikernel.Sysv.Shm.Requests.{
  do_shm_open, do_shm_create, do_shm_close, do_shm_unlink, do_shm_ftruncate,
}
use multikernel.Sysv.Server.{Server, Request, Answer, Sent, inval, Outcome, plain, of_status}

module _ (ops : ResourceOps) (rops : RegionOps) (proc_max : ℕ) where
  abbrev pub set_shms : Server ops rops → Shms rops → Server ops rops
  set_shms s t = record s { shms = t }

  -- `uassert(connect(...) == 0)`, and the same of `disconnect`
  abbrev pub asserted : Server ops rops → Answer → Status × Table → Outcome ops rops
  asserted s a (ok u, t) = some (a, [], record s { conns = t })
  asserted s a (err e, t) = none

  -- After opening or creating a region
  pub opened : Server ops rops → Request → Option (Result (ℕ × ℕ) × Shms rops) → Outcome ops rops
  opened s q none = none
  opened s q (some (err e, t)) = some (plain (err e), [], set_shms s t)
  opened s q (some (ok (i, page), t)) =
      asserted (set_shms s t) (record { status = ok 0; ipcid = some i; page = some page })
        (connect proc_max s.conns q.source q.port)

  pub do_shm_open_request : Server ops rops → Request → Outcome ops rops
  unfolding opened
  do_shm_open_request s q = opened s q (do_shm_open rops s.shms q.name q.flags)

  pub do_shm_create_request : Server ops rops → Request → Outcome ops rops
  unfolding opened
  do_shm_create_request s q = opened s q (do_shm_create rops s.shms q.source q.name q.flags q.mode)

  pub closed : Server ops rops → Request → Option (Status × Shms rops) → Outcome ops rops
  closed s q none = none
  closed s q (some (err e, t)) = some (plain (err e), [], set_shms s t)
  closed s q (some (ok u, t)) =
      asserted (set_shms s t) (plain (ok 0)) (disconnect proc_max s.conns q.source q.port)

  pub do_shm_close_request : Server ops rops → Request → Outcome ops rops
  unfolding closed
  do_shm_close_request s q = closed s q (do_shm_close rops s.shms q.id)

  abbrev pub unlinked : Server ops rops → Option (Status × Shms rops) → Outcome ops rops
  unlinked s none = none
  unlinked s (some (r, t)) = some (plain (of_status r), [], set_shms s t)

  pub do_shm_unlink_request : Server ops rops → Request → Outcome ops rops
  do_shm_unlink_request s q = unlinked s (do_shm_unlink rops s.shms q.source q.name)

  abbrev pub truncated : Server ops rops → Option (Result ℕ × Shms rops) → Outcome ops rops
  truncated s none = none
  truncated s (some (err e, t)) = some (plain (err e), [], set_shms s t)
  truncated s (some (ok page, t)) =
      some (record { status = ok 0; ipcid = none; page = some page }, [], set_shms s t)

  pub do_shm_ftruncate_request : Server ops rops → Request → Outcome ops rops
  do_shm_ftruncate_request s q = truncated s (do_shm_ftruncate rops s.shms q.id q.size)

  -- The signals of the broadcast
  pub broadcast : List Connection → ℤ → ℕ → List Sent
  broadcast [] shmid page = []
  broadcast (c ∷ cs) shmid page = inval c.remote shmid page ∷ broadcast cs shmid page

  abbrev pub signals : Result (List Connection) → ℤ → ℕ → List Sent
  signals (err e) shmid page = []
  signals (ok cs) shmid page = broadcast cs shmid page

  -- The array `remotes`, of NANVIX_PROC_MAX entries, is taken to hold all connections.
  pub do_shm_inval : Server ops rops → Request → Answer × List Sent × Server ops rops
  unfolding broadcast
  do_shm_inval s q =
      (plain (ok 0), signals (get_connections proc_max s.conns (some tt)) q.id q.page, s)
