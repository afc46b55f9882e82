-- ===== src/Fd/Dup.antt =====
-- `dupfd` and `sys_fcntl` of kernel/fd.c, which take no lock.
pub mod Keep
use pml.Common.{
  ℕ, ◌+◌, ◌-◌, ◌/◌, ◌%◌, ◌^◌, Bool, not, none, some, List, ltb, bit_and, bit_or, if◌then◌else◌, set,
  take,
}
use pml.Common.Int.{ℤ}
use pml.Errno.{Result, Done, ok, err, ebadf, enomem, emfile, einval, enosys}
use pml.Fd.{FdTable, System, file, is_null, first, widen, file_fd}

-- `x |= x >> k`
abbrev smear : ℕ → ℕ → ℕ
smear x k = bit_or x (x / 2 ^ k)

unfoldable pub next64_p2 : ℕ → ℕ
next64_p2 x =
    let x0 = (x + (2 ^ 64 - 1)) % 2 ^ 64 in
    let x6 = smear (smear (smear (smear (smear (smear x0 1) 2) 4) 8) 16) 32 in (x6 + 1) % 2 ^ 64

-- The table with the entry `k` in the slot `n`, and one more reference counted.
unfoldable pub attach : (k n : ℕ) → FdTable × System → FdTable × System
attach k n (t, s) = (
  record t { table = set t.table n (some k) },
  record s {
    system_fd_table =
        set s.system_fd_table k (record (file s k) { count = ((file s k).count + 1) % 2 ^ 64 });
  },
)

-- `memory` says whether `realloc` succeeds. A new size below the old one shortens the table, where the
-- code then clears memory without end; a slot past the end is not written. A negative `fd2` has no
-- model: the code takes it for a large `size_t`.
unfoldable pub dupfd :
    (memory : Bool) → (fd : ℤ) → (fd2 : ℕ) → FdTable × System → Done × (FdTable × System)
dupfd memory fd fd2 (t, s) = elim (file_fd fd t) [
  | none ↦ (err ebadf, (t, s))
  | some k ↦
      let (n, found) = first is_null none t.table (t.size - fd2) fd2 in
      let p2 = next64_p2 (fd2 + 1) in
      let new_size = if ltb t.max_size p2 then t.max_size else p2 in
      let wide = record t {
        table = widen (take new_size t.table) t.size new_size;
        size = new_size;
      } in
      if found
      then (ok tt, attach k n (t, s))
      else if ltb t.size t.max_size
      then (if memory then (ok tt, attach k fd2 (wide, s)) else (err enomem, (t, s)))
      else (err emfile, (t, s))
]

-- the commands, with their argument
pub data Cmd : Type 0 where
  f_dupfd f_setfd f_setfl : ℕ → Cmd
  f_getfd f_getfl f_setlk f_setlkw f_getlk unknown : Cmd

-- `(flags & O_ACCMODE) | (arg & ~O_ACCMODE)`
abbrev pub new_flags : (flags arg : ℕ) → ℕ
new_flags flags arg = bit_or (bit_and flags 3) (bit_and arg (2 ^ 32 - 4))

pub set_flags : (k arg : ℕ) → System → System
set_flags k arg s = record s {
  system_fd_table =
      set s.system_fd_table k (record (file s k) { flags = new_flags (file s k).flags arg });
}

pub fcntl : (memory : Bool) → ℤ → Cmd → FdTable × System → Result ℕ × (FdTable × System)
fcntl memory fd cmd (t, s) = elim (file_fd fd t) [
  | none ↦ (err ebadf, (t, s))
  | some k ↦ elim cmd [
    | f_dupfd fd2 ↦
        let (r, u) = dupfd memory fd fd2 (t, s) in elim r [ ok _ ↦ (ok 0, u) | err x ↦ (err x, u) ]
    | f_getfd ↦ (ok (file s k).flags, (t, s))
    | f_getfl ↦ (ok (file s k).flags, (t, s))
    | f_setfd arg ↦ (ok 0, (t, set_flags k arg s))
    | f_setfl arg ↦ (ok 0, (t, set_flags k arg s))
    | f_setlk ↦ (err enosys, (t, s))
    | f_setlkw ↦ (err enosys, (t, s))
    | f_getlk ↦ (err enosys, (t, s))
    | unknown ↦ (err einval, (t, s))
  ]
]
