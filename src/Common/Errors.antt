-- ===== src/Common/Errors.antt =====
-- The error codes that the servers return, negated, in C's `int` results.

pub data Errno : Type 0 where
  einval enoent eagain enomem efault enosys enametoolong enotsup eexist enospc enomsg : Errno
  eacces efbig ebusy enfile eperm eio ebadf emfile espipe : Errno

-- A C result: `ok` for a value that is not negative, `err` for a negated error code.
pub data Result {ℓ} (A : Type ℓ) : Type ℓ where
  ok : A → Result A
  err : Errno → Result A

-- `return (0)`
abbrev pub Status : Type 0
Status = Result (Unit {0})
