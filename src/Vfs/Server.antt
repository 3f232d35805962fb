-- ===== src/Vfs/Server.antt =====
-- src/sys/fs/vfs/main.c: the file system server, from the messages of its clients to its answers.
mod Tests
pub mod Clients
pub mod Refused
pub mod Transfer
use multikernel.Common.{
  ℕ, zero, suc, Bool, true, false, ◌&&◌, ◌||◌, not, Channels, Option, none, some, List, [], ◌∷◌,
  ◌++◌, ℤ, pos, negsuc, leb, ltb, ◌==◌, if◌then◌else◌, Result, ok, err, Status, einval, enosys,
}
use multikernel.Connection.{Table, lookup, connect, disconnect, connections_setup}
use multikernel.Vfs.Disk.{Data, copy_from}
use multikernel.Vfs.Bcache.{block_size}
use multikernel.Vfs.Minix.Dirent.{Name}
use multikernel.Vfs.Files.{Vfs}
use multikernel.Vfs.Files.System.{Outside, Memory}
use multikernel.Vfs.Process.{
  vfs_open, vfs_close, vfs_read, vfs_write, vfs_seek, vfs_init, vfs_shutdown,
}
use multikernel.Sysv.Resource.{ResourceOps}

-- The opcodes of a request, of include/nanvix/servers/vfs.h
abbrev pub vfs_exit : ℕ
vfs_exit = 0

abbrev pub vfs_creat : ℕ
vfs_creat = 3

abbrev pub vfs_open_request : ℕ
vfs_open_request = 4

abbrev pub vfs_unlink : ℕ
vfs_unlink = 5

abbrev pub vfs_close_request : ℕ
vfs_close_request = 6

abbrev pub vfs_link : ℕ
vfs_link = 7

abbrev pub vfs_truncate : ℕ
vfs_truncate = 8

abbrev pub vfs_stat : ℕ
vfs_stat = 9

abbrev pub vfs_read_request : ℕ
vfs_read_request = 10

abbrev pub vfs_write_request : ℕ
vfs_write_request = 11

abbrev pub vfs_seek_request : ℕ
vfs_seek_request = 12

-- `struct vfs_message` as a request: the header's fields that the server reads, and those of the
-- operations, of which an opcode reads its own. `contents` is what the client writes to the portal,
-- and `channels` what the kernel answers on the client's mailbox and on `portal_port`, which goes to
-- the kernel alone.
pub record Request : Type 0 where
  pub opcode : ℕ
  pub source : ℤ
  pub port : ℤ
  pub filename : Name
  pub oflag : ℕ
  pub fd : ℤ
  pub offset : ℤ
  pub whence : ℤ
  pub n : ℕ
  pub contents : Data
  pub channels : Channels

-- What the server sends: the answer of an operation, with its number where it succeeds, and the
-- bytes that it writes to the portal of a client
pub data Sent : Type 0 where
  reply : ℤ → ℤ → Result ℕ → Sent
  portal : ℤ → Data → ℕ → Sent

module _ (ops : ResourceOps) where
  -- `connections`, the static `buffer`, and the file system
  pub record Server : Type 0 where
    pub conns : Table
    pub buffer : Data
    pub vfs : Vfs ops

  abbrev pub set_vfs : Server → Vfs ops → Server
  set_vfs s v = record s { vfs = v }

  module _ (proc_max : ℕ) where
    module _ (size : ℕ) (big : Bool) where
      -- What `connect` returns is 0, and not an index.
      abbrev pub as_connection : Status → Result ℕ
      as_connection (ok u) = ok 0
      as_connection (err e) = err e

      -- After `vfs_open`: a failure disconnects the client.
      pub open_done : Server → Request → Option (Result ℕ × Vfs ops) → Option (Result ℕ × Server)
      open_done s q none = none
      open_done s q (some (ok fd, v)) = some (ok fd, set_vfs s v)
      open_done s q (some (err e, v)) =
          some
            (err e, record s { conns = (disconnect proc_max s.conns q.source q.port).1; vfs = v })

      pub do_vfs_server_open : Data → Server → Request → Option (Result ℕ × Server)
      unfolding open_done
      do_vfs_server_open before s q =
          let c = connect proc_max s.conns q.source q.port in
          open_done (record s { conns = c.1 }) q
            (vfs_open ops proc_max size big before s.vfs (as_connection c.0) q.filename q.oflag)

      abbrev pub connection : Server → Request → Result ℕ
      connection s q = lookup proc_max s.conns q.source q.port

      -- After `vfs_close`: a success disconnects the client.
      pub close_done : Server → Request → Option (Status × Vfs ops) → Option (Result ℕ × Server)
      close_done s q none = none
      close_done s q (some (err e, v)) = some (err e, set_vfs s v)
      close_done s q (some (ok u, v)) =
          some (ok 0, record s { conns = (disconnect proc_max s.conns q.source q.port).1; vfs = v })

      pub do_vfs_server_close : Server → Request → Option (Result ℕ × Server)
      unfolding close_done
      do_vfs_server_close s q =
          close_done s q (vfs_close ops proc_max size big s.vfs (connection s q) q.fd)

      abbrev pub number_done : Server → Option (Result ℕ × Vfs ops) → Option (Result ℕ × Server)
      number_done s none = none
      number_done s (some (r, v)) = some (r, set_vfs s v)

      pub do_vfs_server_seek : Server → Request → Option (Result ℕ × Server)
      do_vfs_server_seek s q =
          number_done s
            (vfs_seek ops proc_max size big s.vfs (connection s q) q.fd q.offset q.whence)

      -- `(n == 0) || (n > NANVIX_FS_BLOCK_SIZE)`
      abbrev pub is_bad_size : ℕ → Bool
      is_bad_size n = n == 0 || ltb block_size n

      -- `kportal_read` fills the buffer. `none` is a failed assertion on a call of the kernel as well.
      pub do_vfs_server_write : Server → Request → Option (Result ℕ × Server)
      do_vfs_server_write s q =
          let buffer' = copy_from q.contents s.buffer q.n 0 in
          if is_bad_size q.n
          then some (err einval, s)
          else if not q.channels.inportal
          then none
          else number_done (record s { buffer = buffer' })
              (vfs_write ops proc_max size big s.vfs (connection s q) q.fd buffer' q.n)

      abbrev pub read_done :
          Server → Option (Result ℕ × Data × Vfs ops) → Option (Result ℕ × Server)
      read_done s none = none
      read_done s (some (r, buf, v)) = some (r, record s { buffer = buf; vfs = v })

      abbrev pub after_sending :
          Sent → Option (Result ℕ × Server) → Option (Result ℕ × Server × List Sent)
      after_sending m none = none
      after_sending m (some (r, s)) = some (r, s, m ∷ [])

      -- The buffer is written to the client's portal before the file is read. The acknowledgement
      -- before it is not modelled.
      pub do_vfs_server_read : Server → Request → Option (Result ℕ × Server × List Sent)
      do_vfs_server_read s q =
          if is_bad_size q.n
          then some (err einval, s, [])
          else if not (q.channels.outbox && q.channels.outportal)
          then none
          else after_sending (portal q.source s.buffer q.n) (
              read_done s (vfs_read ops proc_max size big s.vfs (connection s q) q.fd s.buffer q.n))

      -- The end of a round that replies, which asserts that the client's mailbox takes the reply
      abbrev pub replied : Request → List Sent → Result ℕ → List Sent
      replied q out r = out ++ reply q.source q.port r ∷ []

      abbrev pub answer : Request → Option (Result ℕ × Server) → Option (Server × List Sent)
      answer q none = none
      answer q (some (r, s)) = if q.channels.outbox then some (s, replied q [] r) else none

      abbrev pub answer_read :
          Request → Option (Result ℕ × Server × List Sent) → Option (Server × List Sent)
      answer_read q none = none
      answer_read q (some (r, s, out)) =
          if q.channels.outbox then some (s, replied q out r) else none

      -- Whether the server has an opcode of an operation that it does not implement
      abbrev pub is_unsupported : ℕ → Bool
      is_unsupported op =
          op == vfs_creat
          || op == vfs_unlink
          || op == vfs_link
          || op == vfs_truncate
          || op == vfs_stat

      -- The `switch` of a round of the loop, and the reply
      pub handle : Data → Server → Request → Option (Server × List Sent)
      unfolding do_vfs_server_open do_vfs_server_close do_vfs_server_seek do_vfs_server_write
          do_vfs_server_read
      handle before s q =
          if is_unsupported q.opcode
          then answer q (some (err enosys, s))
          else if q.opcode == vfs_open_request
          then answer q (do_vfs_server_open before s q)
          else if q.opcode == vfs_close_request
          then answer q (do_vfs_server_close s q)
          else if q.opcode == vfs_read_request
          then answer_read q (do_vfs_server_read s q)
          else if q.opcode == vfs_write_request
          then answer q (do_vfs_server_write s q)
          else if q.opcode == vfs_seek_request
          then answer q (do_vfs_server_seek s q)
          else some (s, [])

      abbrev pub after {ℓ} :
          {A : Type ℓ} → Option A → (A → Option (Server × List Sent)) → Option (Server × List Sent)
      after none next = none
      after (some a) next = next a

      abbrev pub sent_before : List Sent → Server × List Sent → Option (Server × List Sent)
      sent_before out (s, out') = some (s, out ++ out')

      -- The loop, on the messages that the mailbox gives, up to a VFS_EXIT. `none` is the server's
      -- stop by a failed assertion, a panic or a null pointer.
      pub do_vfs_server_loop : Data → Server → List Request → Option (Server × List Sent)
      unfolding handle
      do_vfs_server_loop before s [] = some (s, [])
      do_vfs_server_loop before s (q ∷ qs) =
          if q.opcode == vfs_exit
          then some (s, [])
          else after (handle before s q)
              (λ r. after (do_vfs_server_loop before r.0 qs) (sent_before r.1))

      abbrev pub up : Server → Option (Vfs ops) → Option (Status × Server)
      up s none = none
      up s (some v) = some (ok tt, record s { conns = connections_setup; vfs = v })

      -- `linked` is what `nanvix_name_link` returns.
      pub do_vfs_server_startup : Outside → Memory → Status → Server → Option (Status × Server)
      do_vfs_server_startup out mem (err e) s = some (err e, s)
      do_vfs_server_startup out mem (ok u) s = up s (vfs_init ops proc_max size big out mem s.vfs)

      abbrev pub down : Server → List Sent → Option (Vfs ops) → Option (Status × Server × List Sent)
      down s out none = none
      down s out (some v) = some (ok tt, set_vfs s v, out)

      pub do_vfs_server_shutdown : Server → List Sent → Option (Status × Server × List Sent)
      do_vfs_server_shutdown s out = down s out (vfs_shutdown ops proc_max size big s.vfs)

      abbrev pub serve :
          Data → List Request → Option (Status × Server) → Option (Status × Server × List Sent)
      serve before qs none = none
      serve before qs (some (err e, s)) = some (err e, s, [])
      serve before qs (some (ok u, s)) = elim (do_vfs_server_loop before s qs) [
        | none ↦ none
        | some (s', out) ↦ do_vfs_server_shutdown s' out
      ]

      pub do_vfs_server_server :
          Outside → Memory → Status → Server → List Request → Option (Status × Server × List Sent)
      unfolding do_vfs_server_startup do_vfs_server_loop do_vfs_server_shutdown
      do_vfs_server_server out mem linked s qs =
          serve out.before qs (do_vfs_server_startup out mem linked s)
