-- ===== src/Vfs/Mode.antt =====
-- posix/sys/stat.h: the type of a file in its mode.
use multikernel.Common.{ℕ, ◌/◌, ◌%◌, Bool, ◌==◌}

-- S_IFIFO, S_IFDIR, S_IFBLK and S_IFREG, without the lower bits, which are 0
abbrev pub s_ififo : ℕ
s_ififo = 1

abbrev pub s_ifdir : ℕ
s_ifdir = 4

abbrev pub s_ifblk : ℕ
s_ifblk = 6

abbrev pub s_ifreg : ℕ
s_ifreg = 8

-- `((m) & S_IFMT)`, of 16 bits
abbrev pub file_type : ℕ → ℕ
file_type mode = mode / 4096 % 16

abbrev pub s_isfifo : ℕ → Bool
s_isfifo mode = file_type mode == s_ififo

abbrev pub s_isdir : ℕ → Bool
s_isdir mode = file_type mode == s_ifdir

abbrev pub s_isblk : ℕ → Bool
s_isblk mode = file_type mode == s_ifblk

abbrev pub s_isreg : ℕ → Bool
s_isreg mode = file_type mode == s_ifreg
