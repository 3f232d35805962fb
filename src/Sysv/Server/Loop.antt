-- ===== src/Sysv/Server/Loop.antt =====
-- src/sys/pm/sysv/main.c: the loop of the System V server, and its start.
use multikernel.Common.{
  ℕ, Option, none, some, List, [], ◌∷◌, ◌++◌, ◌==◌, if◌then◌else◌, ok, err, Status,
}
use multikernel.Connection.{connections_setup}
use multikernel.Sysv.Resource.{ResourceOps, RegionOps}
use multikernel.Sysv.Sem.{do_sem_init}
use multikernel.Sysv.Msg.{Mqueue, do_msg_init}
use multikernel.Sysv.Server.{
  Server, Request, Answer, Sent, reply, Outcome, Operated, blocked, answered, failed,
  do_sysv_msg_get, do_sysv_msg_close, do_sysv_msg_send, do_sysv_msg_receive, do_sysv_sem_get,
  do_sysv_sem_close, do_sysv_sem_operate,
}
use multikernel.Sysv.Server.Region.{
  do_shm_open_request, do_shm_create_request, do_shm_close_request, do_shm_unlink_request,
  do_shm_ftruncate_request, do_shm_inval,
}

-- The opcodes
abbrev pub sysv_exit : ℕ
sysv_exit = 3

abbrev pub sysv_msg_get : ℕ
sysv_msg_get = 4

abbrev pub sysv_msg_close : ℕ
sysv_msg_close = 5

abbrev pub sysv_msg_send : ℕ
sysv_msg_send = 6

abbrev pub sysv_msg_receive : ℕ
sysv_msg_receive = 7

abbrev pub sysv_sem_get : ℕ
sysv_sem_get = 8

abbrev pub sysv_sem_close : ℕ
sysv_sem_close = 9

abbrev pub sysv_sem_operate : ℕ
sysv_sem_operate = 10

abbrev pub sysv_shm_open : ℕ
sysv_shm_open = 11

abbrev pub sysv_shm_create : ℕ
sysv_shm_create = 12

abbrev pub sysv_shm_unlink : ℕ
sysv_shm_unlink = 13

abbrev pub sysv_shm_close : ℕ
sysv_shm_close = 14

abbrev pub sysv_shm_ftruncate : ℕ
sysv_shm_ftruncate = 15

abbrev pub sysv_shm_inval : ℕ
sysv_shm_inval = 16

module _ (ops : ResourceOps) (rops : RegionOps) (proc_max : ℕ) where
  -- What a round sends, and the state after it
  abbrev pub Round : Type 0
  Round = Option (List Sent × Server ops rops)

  abbrev pub replied : Request → Outcome ops rops → Round
  replied q none = none
  replied q (some (a, out, s)) = some (out ++ reply q.source q.port a ∷ [], s)

  abbrev pub simply : Answer × Server ops rops → Outcome ops rops
  simply (a, s) = some (a, [], s)

  -- A process that is blocked gets no answer.
  abbrev pub operated : Request → Operated ops rops → Round
  operated q (blocked s) = some ([], s)
  operated q (answered a out s) = replied q (some (a, out, s))
  operated q failed = none

  -- The requests on regions; another opcode has no answer.
  pub handle_region : Server ops rops → Request → Round
  handle_region s q =
      if q.opcode == sysv_shm_create
      then replied q (do_shm_create_request ops rops proc_max s q)
      else if q.opcode == sysv_shm_open
      then replied q (do_shm_open_request ops rops proc_max s q)
      else if q.opcode == sysv_shm_unlink
      then replied q (do_shm_unlink_request ops rops proc_max s q)
      else if q.opcode == sysv_shm_close
      then replied q (do_shm_close_request ops rops proc_max s q)
      else if q.opcode == sysv_shm_ftruncate
      then replied q (do_shm_ftruncate_request ops rops proc_max s q)
      else if q.opcode == sysv_shm_inval
      then replied q (some (do_shm_inval ops rops proc_max s q))
      else some ([], s)

  -- The `switch` of a round, and the reply
  pub handle : Server ops rops → Request → Round
  unfolding handle_region
  handle s q =
      if q.opcode == sysv_msg_get
      then replied q (simply (do_sysv_msg_get ops rops proc_max s q))
      else if q.opcode == sysv_msg_close
      then replied q (simply (do_sysv_msg_close ops rops proc_max s q))
      else if q.opcode == sysv_msg_send
      then replied q (do_sysv_msg_send ops rops proc_max s q)
      else if q.opcode == sysv_msg_receive
      then replied q (do_sysv_msg_receive ops rops proc_max s q)
      else if q.opcode == sysv_sem_get
      then replied q (simply (do_sysv_sem_get ops rops proc_max s q))
      else if q.opcode == sysv_sem_close
      then replied q (simply (do_sysv_sem_close ops rops proc_max s q))
      else if q.opcode == sysv_sem_operate
      then operated q (do_sysv_sem_operate ops rops proc_max s q)
      else handle_region s q

  -- The loop, on the messages that the mailbox gives, up to a SYSV_EXIT. `none` is the server's stop
  -- by a failed assertion or a null pointer.
  pub do_sysv_server_loop : Server ops rops → List Request → Round
  unfolding handle
  do_sysv_server_loop s [] = some ([], s)
  do_sysv_server_loop s (q ∷ qs) =
      if q.opcode == sysv_exit then some ([], s) else elim (handle s q) [
        | none ↦ none
        | some (out, s') ↦ elim (do_sysv_server_loop s' qs) [
          | none ↦ none
          | some (out', s'') ↦ some (out ++ out', s'')
        ]
      ]

  -- `linked` is what `nanvix_name_link` returns, and `mqueues` the static table of queues. The
  -- regions are not set up here.
  pub do_sysv_server_startup :
      (ℕ → Mqueue ops) → Status → Server ops rops → Status × Server ops rops
  do_sysv_server_startup mqueues (err e) s = (err e, s)
  do_sysv_server_startup mqueues (ok u) s = (
    ok tt,
    record s { conns = connections_setup; msgs = do_msg_init ops mqueues; sems = do_sem_init ops },
  )
