-- ===== src/Pipe/Race.antt =====
-- Two writers that wait for room at the same time: the loop in which they wait runs without the
-- lock, and its test is not made again with the lock.
use pml.Common.{
  ℕ, ◌+◌, ◌<◌, ◌≤◌, ◌≡◌, ap, false, List, ◌++◌, arith, length, take, drop, length-append,
  length-take,
}
use pml.Pipe.{Pipe, pipe_size, copy_to, must_wait, resume, place, compact}
use pml.Pipe.Queue.{contents, IsValid, compact-IsValid}
use pml.Pipe.Refine.{view, Queue, resumed, must_wait-contents, real_len-contents}

copy_to_past :
    (b : List ℕ) (e : ℕ) (bytes : List ℕ)
    → e ≤ length b
    → e + length bytes ≤ length (copy_to b e bytes)
unfolding copy_to
copy_to_past b e bytes h = omega (
  arith,
  length-append (take e b) (bytes ++ drop (e + length bytes) b),
  length-append bytes (drop (e + length bytes) b),
  length-take e b h,
)

resume_past :
    {p : Pipe} (bytes : List ℕ)
    → IsValid p
    → length (contents p) + length bytes ≤ length (resume bytes p).1.buffer
unfolding resume place compact
resume_past {p} bytes v =
    let k : IsValid (compact p) = compact-IsValid v in
    let past =
      copy_to_past (compact p).buffer (compact p).end bytes (omega (arith, k.sized, k.inside)) in
    omega (arith, past, real_len-contents v)

-- When each of two writers alone has room for its bytes, both leave the loop; if there is no room
-- for both, the second one to take the lock writes past the end of the pipe's pages.
pub resume_overflow :
    (first second : List ℕ) {p : Pipe}
    → IsValid p
    → must_wait (length first) p ≡ false
    → must_wait (length second) p ≡ false
    → pipe_size < length (contents p) + length first + length second
    → pipe_size < length (resume second (resume first p).1).1.buffer
unfolding view
resume_overflow first second {p} v f g h =
    let fits : length (contents p) + length first ≤ pipe_size =
      ground (arith, f, must_wait-contents v (length first)) in
    let d = resumed v first fits in
    let e : contents (resume first p).1 ≡ contents p ++ first = ap Queue.bytes d.left in
    omega (arith, resume_past second d.valid, ap length e, length-append (contents p) first)
