-- ===== src/Sysv/Flags.antt =====
-- The flags of include/posix/sys/ipc.h, and the test of a flag.
use Prim.Native.Nat.{bit_and}
use multikernel.Common.{ℕ, ◌==◌, Bool, not}

abbrev pub ipc_creat : ℕ
ipc_creat = 1

abbrev pub ipc_excl : ℕ
ipc_excl = 2

abbrev pub ipc_nowait : ℕ
ipc_nowait = 4

abbrev pub ipc_private : ℕ
ipc_private = 8

-- SEM_UNDO, of include/nanvix/servers/sysv/sem.h
abbrev pub sem_undo : ℕ
sem_undo = 256

-- `flags & flag`
unfoldable pub has_flag : ℕ → ℕ → Bool
has_flag flags flag = not (bit_and flags flag == 0)
