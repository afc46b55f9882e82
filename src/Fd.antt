-- ===== src/Fd.antt =====
-- The file descriptor tables of kernel/fd.c: the table of the system, whose entries count their
-- references, and the table of a process, whose entries are pointers into it (here their indices).
-- Each function holds the lock from its first access of the tables to its last one.
pub mod Scan
pub mod Alloc
pub mod Free
pub mod Slots
pub mod Count
pub mod Dup
mod Tests
use pml.Common.{
  ℕ, zero, suc, ◌+◌, ◌-◌, ◌*◌, ◌%◌, ◌^◌, Bool, true, false, not, Option, none, some, List, [], ◌++◌,
  ltb, leb, ◌==◌, bit_and, if◌then◌else◌, get_or, set, take, replicate, length,
}
use pml.Common.Int.{ℤ, pos, negsuc}

-- `SYSTEM_FD_TABLE_SIZE`
abbrev pub system_fd_table_size : ℕ
system_fd_table_size = 65536

-- `struct fd`
pub record File : Type 0 where
  pub vnode : Option ℕ
  pub path : Option ℕ
  pub offset : ℕ
  pub flags : ℕ
  pub count : ℕ

-- an entry after `memset`
abbrev pub blank : File
blank = record { vnode = none; path = none; offset = 0; flags = 0; count = 0 }

-- The static variables.
pub record System : Type 0 where
  pub system_fd_table : List File
  pub fd_table_start : ℕ

-- `struct fd_table`
pub record FdTable : Type 0 where
  pub table : List (Option ℕ)
  pub curr : ℕ
  pub size : ℕ
  pub max_size : ℕ

abbrev pub file : System → ℕ → File
file s i = get_or s.system_fd_table i blank

abbrev pub slot : FdTable → ℕ → Option ℕ
slot t i = get_or t.table i none

abbrev pub is_null : Option ℕ → Bool
is_null none = true
is_null (some _) = false

-- A loop over `next` that stops at the first index that passes the test: where it stops after at
-- most so many rounds, and whether the test stopped it.
pub first {ℓ} : {A : Type ℓ} → (A → Bool) → A → List A → (rounds next : ℕ) → ℕ × Bool
first test d xs zero next = (next, false)
first test d xs (suc r) next =
    let rest = first test d xs r (next + 1) in
    if test (get_or xs next d) then (next, true) else rest

-- the file descriptor, -1 from a failed `realloc`, or -1 with EMFILE
pub data Got : Type 0 where
  fd : ℕ → Got
  no_memory too_many : Got

-- `realloc` to a larger size and `memset` of what is new
pub widen : List (Option ℕ) → (old new : ℕ) → List (Option ℕ)
widen table old new = table ++ replicate (new - old) none

-- `memory` says whether `realloc` succeeds.
pub alloc_procfd : (memory : Bool) → FdTable → Got × FdTable
alloc_procfd memory t =
    let (n, found) = first is_null none t.table (t.size - t.curr) t.curr in
    let new_size =
      if ltb (t.size * 2 % 2 ^ 64) t.max_size then t.size * 2 % 2 ^ 64 else t.max_size in
    let wide = record t { table = widen t.table t.size new_size; size = new_size } in
    if found
    then (fd n, record t { curr = n + 1 })
    else if ltb t.size t.max_size
    then (if not memory
        then (no_memory, record t { curr = n })
        else if leb new_size n
        then (too_many, record wide { curr = n })
        else (fd n, record wide { curr = n + 1 }))
    else (too_many, record t { curr = n })

abbrev pub unused : File → Bool
unused f = f.count == 0

-- The index of an entry, or -1.
pub alloc_fd : System → Option ℕ × System
alloc_fd s =
    let (n, found) =
      first unused blank s.system_fd_table (system_fd_table_size - s.fd_table_start)
        s.fd_table_start in
    if found
    then (
      some n,
      record s {
        system_fd_table =
            set s.system_fd_table n (record (file s n) { count = ((file s n).count + 1) % 2 ^ 64 });
        fd_table_start = n + 1;
      },
    )
    else (none, record s { fd_table_start = n })

-- The vnode that loses a reference, if any, and the table.
pub free_fd : ℕ → System → Option ℕ × System
free_fd i s =
    let c = ((file s i).count + (2 ^ 64 - 1)) % 2 ^ 64 in
    if c == 0
    then (
      (file s i).vnode,
      record s {
        system_fd_table = set s.system_fd_table i blank;
        fd_table_start = if ltb i s.fd_table_start then i else s.fd_table_start;
      },
    )
    else (
      none,
      record s { system_fd_table = set s.system_fd_table i (record (file s i) { count = c }) },
    )

-- What follows the removal of the slot is, line for line, what `free_fd` does.
pub free_altprocfd : ℕ → FdTable × System → Option ℕ × (FdTable × System)
free_altprocfd i (t, s) = elim (slot t i) [
  | none ↦ (none, (t, s))
  | some sysfd ↦
      let (dropped, s') = free_fd sysfd s in
      (dropped, (record t { table = set t.table i none }, s'))
]

-- `flags & (O_ACCMODE | O_NONBLOCK)`
abbrev pub kept_flags : ℕ → ℕ
kept_flags flags = bit_and flags 131

pub fill_fd : (i sysfd vp flags : ℕ) → FdTable × System → FdTable × System
fill_fd i sysfd vp flags (t, s) = (
  record t { table = set t.table i (some sysfd) },
  record s {
    system_fd_table =
        set s.system_fd_table sysfd
          (record (file s sysfd) { vnode = some vp; flags = kept_flags flags });
  },
)

-- The index in the system's table, or NULL with EBADF.
pub file_fd : ℤ → FdTable → Option ℕ
file_fd (negsuc _) t = none
file_fd (pos i) t = if leb t.size i then none else slot t i
