-- ===== src/Sysv/Msg.antt =====
-- src/sys/pm/sysv/msg/msg.c: the table of message queues. A null `msgp` is left out: the server
-- passes the address of a variable. A null buffer is not: following it is `none`.
pub mod Init
pub mod Transfer
pub mod Valid
use multikernel.Common.{
  ℕ, zero, suc, Bool, true, false, ◌&&◌, not, Option, none, some, ℤ, pos, negsuc, pos_part, ◌==ℤ◌,
  ◌+ℤ◌, ◌-ℤ◌, ltb, ◌==◌, if◌then◌else◌, update, find_entry, Result, ok, err, Status, Errno, einval,
  enoent, enotsup, eexist, enomem, eagain,
}
use multikernel.Sysv.Resource.{ResourceOps}
use multikernel.Sysv.Flags.{has_flag, ipc_creat, ipc_excl, ipc_nowait, ipc_private}
use multikernel.Sysv.Msgbuf.{
  Msgbuf, msg_max, msg_size_max, msgbuf_alloc, msgbuf_put, msgbuf_get, msgbuf_init,
}

-- msgid_is_valid
abbrev pub msgid_is_valid : ℤ → Bool
msgid_is_valid (pos i) = ltb i msg_max
msgid_is_valid (negsuc n) = false

-- What `*msgp` points to: `msgnull`, or an offset in the data of a buffer.
pub data Slot : Type 0 where
  msgnull : Slot
  place : ℕ → ℕ → Slot

module _ (ops : ResourceOps) where
  open ops use {Resource, initializer, is_used, alloc, release}

  -- `struct msg`, without the owner and the mode, which no code reads or writes
  pub record Mqueue : Type 0 where
    pub resource : Resource
    pub key : ℤ
    pub refcount : ℤ
    pub buf : Option ℕ

  -- `mqueues` and `buffers`
  pub record Msgs : Type 0 where
    pub mqueues : ℕ → Mqueue
    pub buffers : ℕ → Msgbuf

  abbrev pub has_key : ℤ → Mqueue → Bool
  has_key key q = is_used q.resource && q.key ==ℤ key

  -- `mqueues[msgid].refcount++`
  abbrev pub reference : Msgs → ℕ → Msgs
  reference s i = record s {
    mqueues =
        update s.mqueues i (record (s.mqueues i) { refcount = (s.mqueues i).refcount +ℤ pos 1 });
  }

  pub msg_create : Msgs → ℤ → Option (ℕ × Resource) → Result ℕ × Msgs
  msg_create s key none = (err enomem, s)
  msg_create s key (some (i, r)) = (
    ok i,
    reference
        (record s {
          mqueues = update s.mqueues i (record (s.mqueues i) { resource = r; key = key });
        })
        i,
  )

  pub msg_found : Msgs → ℤ → ℕ → Option ℕ → Result ℕ × Msgs
  msg_found s key msgflg (some i) =
      if has_flag msgflg ipc_creat && has_flag msgflg ipc_excl
      then (err eexist, s)
      else (ok i, reference s i)
  msg_found s key msgflg none =
      if not (has_flag msgflg ipc_creat)
      then (err enoent, s)
      else msg_create s key (alloc (λ i. (s.mqueues i).resource) msg_max)

  pub do_msg_get : Msgs → ℤ → ℕ → Result ℕ × Msgs
  unfolding msg_found msg_create
  do_msg_get s key msgflg =
      if key ==ℤ pos ipc_private
      then (err enotsup, s)
      else if not (has_flag msgflg ipc_creat) && has_flag msgflg ipc_excl
      then (err einval, s)
      else msg_found s key msgflg (find_entry (has_key key) s.mqueues msg_max)

  -- `mqueues[msgid].refcount--`, and the release of the last
  pub dereferenced : Mqueue → Mqueue
  dereferenced q =
      if q.refcount -ℤ pos 1 ==ℤ pos 0
      then record q { refcount = q.refcount -ℤ pos 1; resource = release q.resource }
      else record q { refcount = q.refcount -ℤ pos 1 }

  pub do_msg_close : Msgs → ℤ → Status × Msgs
  unfolding dereferenced
  do_msg_close s (negsuc n) = (err einval, s)
  do_msg_close s (pos i) =
      if not (ltb i msg_max)
      then (err einval, s)
      else if not (is_used (s.mqueues i).resource)
      then (err einval, s)
      else (ok tt, record s { mqueues = update s.mqueues i (dereferenced (s.mqueues i)) })

  abbrev pub sent : Msgs → ℕ → Result ℕ × Msgbuf → Option (Status × Slot × Msgs)
  sent s b (ok x, buf) = some (ok tt, place b x, record s { buffers = update s.buffers b buf })
  sent s b (err e, buf) = some (err eagain, msgnull, record s { buffers = update s.buffers b buf })

  pub msg_put : Msgs → Option ℕ → Option (Status × Slot × Msgs)
  msg_put s none = none
  msg_put s (some b) = sent s b (msgbuf_put (s.buffers b))

  pub do_msg_send : Msgs → ℤ → ℕ → ℕ → Option (Status × Slot × Msgs)
  unfolding msg_put
  do_msg_send s msgid msgsz msgflg =
      if not (has_flag msgflg ipc_nowait)
      then some (err enotsup, msgnull, s)
      else if not (msgid_is_valid msgid)
      then some (err einval, msgnull, s)
      else if not (is_used (s.mqueues (pos_part msgid)).resource)
      then some (err einval, msgnull, s)
      else if not (msgsz == msg_size_max)
      then some (err einval, msgnull, s)
      else msg_put s (s.mqueues (pos_part msgid)).buf

  -- A refused receive leaves `*msgp` as it was, which is `none`.
  abbrev pub received : Msgs → ℕ → Result ℕ × Msgbuf → Option (Status × Option Slot × Msgs)
  received s b (ok x, buf) =
      some (ok tt, some (place b x), record s { buffers = update s.buffers b buf })
  received s b (err e, buf) = some (err e, none, record s { buffers = update s.buffers b buf })

  pub msg_take : Msgs → Option ℕ → Option (Status × Option Slot × Msgs)
  msg_take s none = none
  msg_take s (some b) = received s b (msgbuf_get (s.buffers b))

  -- The type of the message is read by no code.
  pub do_msg_receive : Msgs → ℤ → ℕ → ℤ → ℕ → Option (Status × Option Slot × Msgs)
  unfolding msg_take
  do_msg_receive s msgid msgsz msgtyp msgflg =
      if not (has_flag msgflg ipc_nowait)
      then some (err enotsup, none, s)
      else if not (msgid_is_valid msgid)
      then some (err einval, none, s)
      else if not (is_used (s.mqueues (pos_part msgid)).resource)
      then some (err einval, none, s)
      else if not (msgsz == msg_size_max)
      then some (err einval, none, s)
      else msg_take s (s.mqueues (pos_part msgid)).buf

  -- One round of `do_msg_init`, with what `msgbuf_alloc` has returned
  abbrev pub init_queue : Msgs → ℕ → Option ℕ × (ℕ → Msgbuf) → Msgs
  init_queue s i (b, bufs) = record {
    mqueues =
        update s.mqueues i
          (record (s.mqueues i) { refcount = pos 0; buf = b; resource = initializer });
    buffers = bufs;
  }

  -- Its loop from queue `i` on, with `k` rounds left
  pub init_queues : ℕ → ℕ → Msgs → Msgs
  init_queues zero i s = s
  init_queues (suc k) i s = init_queues k (suc i) (init_queue s i (msgbuf_alloc s.buffers))

  pub do_msg_init : (ℕ → Mqueue) → Msgs
  unfolding init_queues
  do_msg_init mqueues = init_queues msg_max 0 (record { mqueues = mqueues; buffers = msgbuf_init })
