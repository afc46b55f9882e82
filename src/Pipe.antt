-- ===== src/Pipe.antt =====
-- The pipes of drivers/fs/pipe.c: `struct pipe` and the reading and writing of it. The lock is held
-- from the first access of the buffer to the last one, and released while a writer waits; a call
-- that would call `sched_yield` gives `wait` and is made again later.
pub mod Queue
pub mod Refine
pub mod Race
mod Tests
use pml.Common.{
  ℕ, ◌+◌, ◌-◌, ◌*◌, ◌%◌, ◌^◌, Bool, true, Option, none, some, List, [], ◌++◌, ltb, leb, ◌==◌,
  if◌then◌else◌, length, take, drop,
}

-- `PIPE_SIZE`: `PIPE_PAGES` pages of 4096 bytes
abbrev pub pipe_size : ℕ
pipe_size = 8 * 4096

pub record Pipe : Type 0 where
  pub buffer : List ℕ
  pub start : ℕ
  pub end : ℕ
  pub widowed : Bool

-- sum and difference of two `size_t`
abbrev pub add_size : ℕ → ℕ → ℕ
add_size a b = (a + b) % 2 ^ 64

abbrev pub sub_size : ℕ → ℕ → ℕ
sub_size a b = (a + (2 ^ 64 - b)) % 2 ^ 64

-- What a call returns: the bytes read, the number of bytes written, the errors EPIPE (with the
-- signal SIGPIPE) and ENOSPC, or nothing yet.
pub data Reply : Type 0 where
  got : List ℕ → Reply
  wrote : ℕ → Reply
  broken no_space wait : Reply

-- `memcpy` of `bytes` to `buffer + offset`. Past the end of the buffer the list gets longer, which
-- stands for a write outside the pipe's pages.
pub copy_to : List ℕ → ℕ → List ℕ → List ℕ
copy_to buffer offset bytes = take offset buffer ++ (bytes ++ drop (offset + length bytes) buffer)

pub pipe_read : (len : ℕ) → Pipe → Reply × Pipe
pipe_read len p =
    let real_len = sub_size p.end p.start in
    let bytes = take (if ltb real_len len then real_len else len) (drop p.start p.buffer) in
    if p.widowed
    then (got [], p)
    else if p.start == p.end
    then (wait, p)
    else (got bytes, if leb real_len len then record p { start = 0; end = 0 } else p)

-- The last lines of `pipe_write`, under the lock.
pub place : List ℕ → Pipe → Reply × Pipe
place bytes p = (
  wrote (length bytes),
  record p { buffer = copy_to p.buffer p.end bytes; end = add_size p.end (length bytes) },
)

-- The `memmove` to the front of the buffer, under the lock.
pub compact : Pipe → Pipe
compact p =
    let len = sub_size p.end p.start in
    record p {
      buffer = copy_to p.buffer 0 (take len (drop p.start p.buffer));
      start = 0;
      end = len;
    }

-- The test of the loop in which a writer of `len` bytes waits, without the lock.
pub must_wait : ℕ → Pipe → Bool
must_wait len p = ltb (add_size (sub_size pipe_size p.end) p.start) len

-- What a writer does after that loop.
pub resume : List ℕ → Pipe → Reply × Pipe
resume bytes p = place bytes (compact p)

pub pipe_write : List ℕ → Pipe → Reply × Pipe
pipe_write bytes p =
    let len = length bytes in
    if p.widowed
    then (broken, p)
    else if ltb pipe_size len
    then (no_space, p)
    else if ltb (sub_size pipe_size p.end) len
    then (if must_wait len p then (wait, p) else resume bytes p)
    else place bytes p

-- The end of one side: the other side's end finds the pipe widowed and frees it.
pub pipe_dealloc : Pipe → Option Pipe
pipe_dealloc p = if p.widowed then none else some (record p { widowed = true })
