-- ===== src/Errno.antt =====
-- The error numbers of include/pml/errno.h that the modelled calls set, and the result of a call:
-- its value, or a failure (-1 or NULL) with `errno`.
pub data Errno : Type 0 where
  eperm enoent esrch ebadf enomem eacces einval emfile enospc espipe epipe enosys euclean efault :
      Errno
  enotsup : Errno

pub data Result {ℓ} (A : Type ℓ) : Type ℓ where
  ok : A → Result A
  err : Errno → Result A

-- the result of a call that returns 0 or fails
abbrev pub Done : Type 0
Done = Result (Unit {0})

abbrev pub done : Done
done = ok tt
