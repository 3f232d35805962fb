-- ===== src/Sysv/Msgbuf.antt =====
-- src/sys/pm/sysv/msg/buffer.c: the ring buffer of a message queue. `msgbuf_put` and `msgbuf_get`
-- hand out the place of a message in the buffer's data, as an offset; the server moves the bytes.
pub mod Fifo
use multikernel.Common.{
  ℕ, ◌+◌, ◌-◌, ◌*◌, ◌%◌, ◌==◌, if◌then◌else◌, Option, none, some, update, find_entry, Result, ok,
  err, enospc, enomsg,
}

-- NANVIX_MSG_MAX, NANVIX_MSG_LENGTH_MAX, NANVIX_MSG_SIZE_MAX and MSGBUF_SIZE
abbrev pub msg_max : ℕ
msg_max = 16

abbrev pub msg_length_max : ℕ
msg_length_max = 16

abbrev pub msg_size_max : ℕ
msg_size_max = 256

abbrev pub msgbuf_size : ℕ
msgbuf_size = msg_length_max * msg_size_max

-- `struct msgbuf`; `data` is by offset.
pub record Msgbuf : Type 0 where
  pub len : ℕ
  pub size : ℕ
  pub head : ℕ
  pub tail : ℕ
  pub bytes : ℕ → ℕ

-- The buffer that `msgbuf_alloc` finds, as it leaves it. `len` stays as it is.
abbrev pub fresh : Msgbuf → Msgbuf
fresh b = record b { head = 0; tail = 0; size = msg_size_max; bytes = λ k. 0 }

abbrev pub alloc_at : (ℕ → Msgbuf) → Option ℕ → Option ℕ × (ℕ → Msgbuf)
alloc_at buffers none = (none, buffers)
alloc_at buffers (some i) = (some i, update buffers i (fresh (buffers i)))

-- The result is the index of the buffer; `none` is a null pointer.
unfoldable pub msgbuf_alloc : (ℕ → Msgbuf) → Option ℕ × (ℕ → Msgbuf)
msgbuf_alloc buffers = alloc_at buffers (find_entry (λ b. b.size == 0) buffers msg_max)

pub msgbuf_free : Msgbuf → Msgbuf
msgbuf_free b = record b { size = 0 }

pub msgbuf_put : Msgbuf → Result ℕ × Msgbuf
msgbuf_put b =
    if b.len == msg_length_max
    then (err enospc, b)
    else (ok b.tail, record b { len = b.len + 1; tail = (b.tail + b.size) % msgbuf_size })

pub msgbuf_get : Msgbuf → Result ℕ × Msgbuf
msgbuf_get b =
    if b.len == 0
    then (err enomsg, b)
    else (ok b.head, record b { len = b.len - 1; head = (b.head + b.size) % msgbuf_size })

-- What `msgbuf_init` leaves; the rest is static data, which starts as zeros.
unfoldable pub msgbuf_init : ℕ → Msgbuf
msgbuf_init i = record { len = 0; size = 0; head = 0; tail = 0; bytes = λ k. 0 }
