-- ===== src/Sysv/Server.antt =====
-- src/sys/pm/sysv/main.c: the System V server, from the messages of its clients to its answers.
-- Here: what the server keeps and sends, and the handlers for message queues and semaphores.
mod Tests
pub mod Region
pub mod Loop
pub mod Wait
use multikernel.Common.{
  ℕ, Bool, Option, none, some, List, [], ◌∷◌, ℤ, pos, ◌+◌, ◌==ℤ◌, pos_part, if◌then◌else◌, update,
  Result, ok, err, Status,
}
use multikernel.Connection.{Table, connect, disconnect, connection_get_port}
use multikernel.NameServer.{Name}
use multikernel.Vfs.Disk.{Data, copy_to}
use multikernel.Sysv.Resource.{ResourceOps, RegionOps}
use multikernel.Sysv.Sem.{Sems, Sembuf, do_sem_get, do_sem_close, do_sem_operate}
use multikernel.Sysv.Msg.{
  Msgs, Slot, msgnull, place, do_msg_get, do_msg_close, do_msg_send, do_msg_receive,
}
use multikernel.Sysv.Shm.{Shms}

-- `struct sysv_message` as a request: the header, and the fields of the payloads, of which an opcode
-- reads its own. `id` is a `shmid`, `msgid` or `semid`, and `contents` is what the client writes to
-- its portal.
pub record Request : Type 0 where
  pub opcode : ℕ
  pub source : ℤ
  pub port : ℤ
  pub key : ℤ
  pub flags : ℕ
  pub id : ℤ
  pub msgsz : ℕ
  pub msgtyp : ℤ
  pub sembuf : Sembuf
  pub name : Name
  pub mode : ℕ
  pub size : ℤ
  pub page : ℕ
  pub contents : Data

-- The answer: the status that a handler returns, and the fields that it sets
pub record Answer : Type 0 where
  pub status : Result ℕ
  pub ipcid : Option ℕ
  pub page : Option ℕ

-- What the server sends: an answer, the bytes of a message, the wake-up of a process that waits for a
-- semaphore, and the signal that a page of a region is not valid any more
pub data Sent : Type 0 where
  reply : ℤ → ℤ → Answer → Sent
  portal : ℤ → Data → ℕ → Sent
  wake : ℤ → ℤ → Sent
  inval : ℤ → ℤ → ℕ → Sent

abbrev pub plain : Result ℕ → Answer
plain r = record { status = r; ipcid = none; page = none }

abbrev pub of_status : Status → Result ℕ
of_status (ok u) = ok 0
of_status (err e) = err e

abbrev pub with_id : Result ℕ → Answer
with_id (ok i) = record { status = ok i; ipcid = some i; page = none }
with_id (err e) = plain (err e)

module _ (ops : ResourceOps) (rops : RegionOps) where
  -- `connections`, and the tables of the three services
  pub record Server : Type 0 where
    pub conns : Table
    pub sems : Sems ops
    pub msgs : Msgs ops
    pub shms : Shms rops

  -- A handler's answer, what it sends before it, and the state. `none` is the server's stop by a
  -- failed assertion or a null pointer.
  abbrev pub Outcome : Type 0
  Outcome = Option (Answer × List Sent × Server)

  -- What a message is written over: its place in a buffer; `msgnull` is not read again.
  abbrev pub received_into : Msgs ops → Slot → Data → ℕ → Msgs ops
  received_into m msgnull bytes n = m
  received_into m (place b x) bytes n =
      let buf = m.buffers b in
      record m { buffers = update m.buffers b (record buf { bytes = copy_to buf.bytes bytes n x }) }

  -- The bytes of a message
  abbrev pub bytes_of : Msgs ops → Option Slot → Data
  bytes_of m none = λ k. 0
  bytes_of m (some msgnull) = λ k. 0
  bytes_of m (some (place b x)) = λ k. (m.buffers b).bytes (x + k)

  -- `connection == pid` blocks the process.
  pub data Operated : Type 0 where
    blocked : Server → Operated
    answered : Answer → List Sent → Server → Operated
    -- A failed assertion
    failed : Operated

  module _ (proc_max : ℕ) where
    abbrev pub connected : Server → Request → Server
    connected s q = record s { conns = (connect proc_max s.conns q.source q.port).1 }

    abbrev pub disconnected : Server → Request → Server
    disconnected s q = record s { conns = (disconnect proc_max s.conns q.source q.port).1 }

    -- A failure undoes the connection.
    abbrev pub msg_got : Server → Request → Result ℕ × Msgs ops → Answer × Server
    msg_got s q (ok i, m) = (with_id (ok i), record s { msgs = m })
    msg_got s q (err e, m) = (plain (err e), disconnected (record s { msgs = m }) q)

    pub do_sysv_msg_get : Server → Request → Answer × Server
    do_sysv_msg_get s q = msg_got (connected s q) q (do_msg_get ops s.msgs q.key q.flags)

    abbrev pub msg_closed : Server → Request → Status × Msgs ops → Answer × Server
    msg_closed s q (ok u, m) = (plain (ok 0), disconnected (record s { msgs = m }) q)
    msg_closed s q (err e, m) = (plain (err e), record s { msgs = m })

    pub do_sysv_msg_close : Server → Request → Answer × Server
    do_sysv_msg_close s q = msg_closed s q (do_msg_close ops s.msgs q.id)

    -- The client writes its message whether the call has succeeded or not.
    pub do_sysv_msg_send : Server → Request → Outcome
    do_sysv_msg_send s q = elim (do_msg_send ops s.msgs q.id q.msgsz q.flags) [
      | none ↦ none
      | some (r, slot, m) ↦
          some
            (plain (of_status r), [], record s { msgs = received_into m slot q.contents q.msgsz })
    ]

    abbrev pub msg_received : Server → Request → Status × Option Slot × Msgs ops → Outcome
    msg_received s q (err e, slot, m) = some (plain (err e), [], record s { msgs = m })
    msg_received s q (ok u, slot, m) =
        some (plain (ok 0), portal q.source (bytes_of m slot) q.msgsz ∷ [], record s { msgs = m })

    -- The acknowledgement before the message is not modelled.
    pub do_sysv_msg_receive : Server → Request → Outcome
    do_sysv_msg_receive s q = elim (do_msg_receive ops s.msgs q.id q.msgsz q.msgtyp q.flags) [
      | none ↦ none
      | some r ↦ msg_received s q r
    ]

    abbrev pub sem_got : Server → Request → Result ℕ × Sems ops → Answer × Server
    sem_got s q (ok i, t) = (with_id (ok i), record s { sems = t })
    sem_got s q (err e, t) = (plain (err e), disconnected (record s { sems = t }) q)

    pub do_sysv_sem_get : Server → Request → Answer × Server
    do_sysv_sem_get s q = sem_got (connected s q) q (do_sem_get ops s.sems q.key q.flags)

    abbrev pub sem_closed : Server → Request → Status × Sems ops → Answer × Server
    sem_closed s q (ok u, t) = (plain (ok 0), disconnected (record s { sems = t }) q)
    sem_closed s q (err e, t) = (plain (err e), record s { sems = t })

    pub do_sysv_sem_close : Server → Request → Answer × Server
    do_sysv_sem_close s q = sem_closed s q (do_sem_close ops s.sems q.id)

    -- What `connect` returns is 0 or a negative number, and not an index.
    abbrev pub connection_of : Status → ℤ
    connection_of (ok u) = pos 0
    connection_of (err e) = ℤ.negsuc 0

    -- The message to the process that wakes up; `kmailbox_open` refuses a negative port.
    abbrev pub woken : Server → ℤ → Result ℤ → Operated
    woken s c (ok p) = answered (plain (ok 0)) (wake c p ∷ []) s
    woken s c (err e) = failed

    abbrev pub sem_operated : Server → Request → Result ℤ × Sems ops → Operated
    sem_operated s q (err e, t) = answered (plain (err e)) [] (record s { sems = t })
    sem_operated s q (ok c, t) =
        if c ==ℤ q.source
        then blocked (record s { sems = t })
        else if c ==ℤ pos 0
        then answered (plain (ok 0)) [] (record s { sems = t })
        else woken (record s { sems = t }) c (connection_get_port proc_max s.conns c)

    pub do_sysv_sem_operate : Server → Request → Operated
    do_sysv_sem_operate s q =
        let c = connect proc_max s.conns q.source q.port in
        sem_operated (record s { conns = c.1 }) q
          (do_sem_operate ops proc_max s.sems (connection_of c.0) q.id q.sembuf)
