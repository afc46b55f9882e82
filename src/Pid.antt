-- ===== src/Pid.antt =====
-- The process ID allocator of kernel/pid.c. Its three static variables are the state; the lock is
-- held from the first access to the last one of each function, so a function is one step.
mod Scan
pub mod Grow
pub mod Rounds
pub mod Alloc
pub mod Free
pub mod Trace
mod Tests
use pml.Common.{
  ℕ, zero, suc, ◌+◌, ◌-◌, ◌*◌, Bool, true, false, List, [], ◌++◌, ltb, if◌then◌else◌, length,
  replicate,
}
use pml.Common.Int.{ℤ, pos, negsuc}
use pml.Bitmap.{set_bit, clear_bit, test_bit}

-- `PID_BITMAP_INCREMENT` and `PID_BITMAP_SIZE_LIMIT`, in bytes
abbrev pub increment : ℕ
increment = 1024

abbrev pub size_limit : ℕ
size_limit = 32768

pub record Allocator : Type 0 where
  pub pid_bitmap : List ℕ
  pub next_pid : ℕ
  pub pid_bitmap_size : ℕ

-- The ID, -1 from a failed `realloc`, or -1 with ENOMEM. `out_of_fuel` is not an outcome of the
-- code: it is what the model says when its rounds run out, which they never do.
pub data Outcome : Type 0 where
  pid : ℕ → Outcome
  no_memory exhausted out_of_fuel : Outcome

-- `calloc` and the two assignments of `init_pid_allocator`, which panics when `calloc` fails.
pub init : Allocator
init = record {
  pid_bitmap = set_bit (replicate increment 0) 0;
  next_pid = 1;
  pid_bitmap_size = increment;
}

-- The `for` loop: where `next_pid` stops, and whether an unset bit stopped it. The first argument
-- counts the rounds left.
pub scan : ℕ → List ℕ → (next limit : ℕ) → ℕ × Bool
scan zero bitmap next limit = (next, false)
scan (suc f) bitmap next limit =
    let rest = scan f bitmap (next + 1) limit in
    if ltb next limit then (if test_bit bitmap next then rest else (next, true)) else (next, false)

-- `realloc` to `size` bytes and `memset` of the last `more` of them. The bytes between the old
-- block and those, if any, are what the allocator left there (`junk`).
pub grow : (junk : ℕ) → List ℕ → (size more : ℕ) → List ℕ
grow junk bitmap size more =
    bitmap ++ (replicate (size - more - length bitmap) junk ++ replicate more 0)

-- How a round of the `while` loop ends: it returns, or goes on with what is left of the budget.
pub data Round : Type 0 where
  stop : Outcome → Allocator → Round
  retry : ℕ → Allocator → Round

-- A round of the `while` loop and its test. `budget` is the number of `realloc` calls that succeed.
pub round : (junk budget : ℕ) → Allocator → Round
round junk b a =
    let limit = a.pid_bitmap_size * 8 in
    let (n, found) = scan (limit - a.next_pid) a.pid_bitmap a.next_pid limit in
    let size = a.pid_bitmap_size + increment in
    if ltb a.pid_bitmap_size size_limit
    then (if found
        then stop (pid n) (record a { pid_bitmap = set_bit a.pid_bitmap n; next_pid = n + 1 })
        else elim b [
          | zero ↦ stop no_memory (record a { next_pid = n; pid_bitmap_size = size })
          | suc b' ↦ retry b' (record {
            pid_bitmap = grow junk a.pid_bitmap size increment;
            next_pid = n;
            pid_bitmap_size = size;
          })
        ])
    else stop exhausted a

pub search : (fuel junk budget : ℕ) → Allocator → Outcome × Allocator
search zero junk b a = (out_of_fuel, a)
search (suc f) junk b a = elim (round junk b a) [
  | stop o a' ↦ (o, a')
  | retry b' a' ↦ search f junk b' a'
]

-- The size grows by `increment` in each round, so 33 rounds reach the limit from any size.
abbrev pub rounds : ℕ
rounds = 33

pub alloc_pid : (junk budget : ℕ) → Allocator → Outcome × Allocator
alloc_pid junk b a = search rounds junk b a

pub free_pid : ℤ → Allocator → Allocator
free_pid (negsuc _) a = a
free_pid (pos p) a = record a {
  pid_bitmap = clear_bit a.pid_bitmap p;
  next_pid = if ltb p a.next_pid then p else a.next_pid;
}
