-- ===== src/Connection.antt =====
-- src/sys/common/connection.c: the table of the clients that are connected to a server.
-- `connections[NANVIX_CONNECTIONS_MAX]` is an array; each function takes it and returns what it
-- leaves. NANVIX_CONNECTIONS_MAX is 4 * NANVIX_PROC_MAX, and NANVIX_PROC_MAX is the platform's.
mod Tests
pub mod Valid
pub mod Refine
use multikernel.Common.{
  ℕ, suc, ◌*◌, ◌≡◌, Bool, ◌&&◌, not, Option, none, some, List, [], ◌∷◌, ℤ, pos, negsuc, is_neg,
  ◌==ℤ◌, ◌+ℤ◌, ◌-ℤ◌, leb, ltb, ◌==◌, if◌then◌else◌, update, find_entry, Result, ok, err, Status,
  Errno, einval, enoent, eagain,
}

-- `struct connection`
pub record Connection : Type 0 where
  pub remote : ℤ
  pub port : ℤ
  pub count : ℤ

abbrev pub Table : Type 0
Table = ℕ → Connection

-- NANVIX_CONNECTIONS_MAX
abbrev pub connections_max : ℕ → ℕ
connections_max proc_max = proc_max * 4

-- `(connections[i].remote == remote) && (connections[i].port == port)`
abbrev pub is_client : ℤ → ℤ → Connection → Bool
is_client remote port c = c.remote ==ℤ remote && c.port ==ℤ port

-- `connections[i].remote < 0`
abbrev pub is_empty : Connection → Bool
is_empty c = is_neg c.remote

abbrev pub index_or : Option ℕ → Errno → Result ℕ
index_or none e = err e
index_or (some i) e = ok i

-- `connections[i].count++`
abbrev pub acquire : Table → ℕ → Table
acquire t i = update t i (record (t i) { count = (t i).count +ℤ pos 1 })

-- `if (connections[i].count-- == 1) connections[i].remote = -1;`
abbrev pub dropped : Connection → Connection
dropped c =
    if c.count ==ℤ pos 1
    then record c { remote = negsuc 0; count = c.count -ℤ pos 1 }
    else record c { count = c.count -ℤ pos 1 }

-- The entry that `connect` writes in an empty slot, before it counts the connection.
abbrev pub fresh : ℤ → ℤ → Connection
fresh remote port = record { remote = remote; port = port; count = pos 0 }

module _ (proc_max : ℕ) where
  unfoldable pub lookup : Table → ℤ → ℤ → Result ℕ
  lookup t remote port =
      if is_neg remote
      then err einval
      else if is_neg port
      then err einval
      else index_or (find_entry (is_client remote port) t (connections_max proc_max)) enoent

  -- The search for an empty slot, and what follows it.
  pub place : Table → ℤ → ℤ → Option ℕ → Status × Table
  place t remote port none = (err eagain, t)
  place t remote port (some i) = (ok tt, acquire (update t i (fresh remote port)) i)

  pub join : Table → ℤ → ℤ → Result ℕ → Status × Table
  join t remote port (ok i) = (ok tt, acquire t i)
  join t remote port (err e) =
      place t remote port (find_entry is_empty t (connections_max proc_max))

  pub connect : Table → ℤ → ℤ → Status × Table
  unfolding join place
  connect t remote port =
      if is_neg remote
      then (err einval, t)
      else if is_neg port
      then (err einval, t)
      else join t remote port (lookup t remote port)

  pub leave : Table → Result ℕ → Status × Table
  leave t (ok i) = (ok tt, update t i (dropped (t i)))
  leave t (err e) = (err enoent, t)

  pub disconnect : Table → ℤ → ℤ → Status × Table
  unfolding leave
  disconnect t remote port =
      if is_neg remote
      then (err einval, t)
      else if is_neg port
      then (err einval, t)
      else leave t (lookup t remote port)

-- The live entries from index `i` on, in order: what the loop of `get_connections` copies to `buf`.
pub live_from : Table → ℕ → ℕ → List Connection
live_from t ℕ.zero i = []
live_from t (suc k) i =
    let rest = live_from t k (suc i) in if is_empty (t i) then rest else t i ∷ rest

-- The result is `buf`; its length is the number that C returns. `none` stands for a null `buf`.
pub get_connections : ℕ → Table → Option (Unit {0}) → Result (List Connection)
unfolding live_from
get_connections proc_max t none = err einval
get_connections proc_max t (some buf) = ok (live_from t (connections_max proc_max) 0)

pub connection_get_port : ℕ → Table → ℤ → Result ℤ
connection_get_port proc_max t (negsuc n) = err einval
connection_get_port proc_max t (pos i) =
    if leb (connections_max proc_max) i then err einval else ok (t i).port

-- What `connections_setup` leaves in each entry.
pub connections_setup : Table
connections_setup i = record { remote = negsuc 0; port = negsuc 0; count = pos 0 }
