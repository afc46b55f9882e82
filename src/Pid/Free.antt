-- ===== src/Pid/Free.antt =====
-- `free_pid`, and the allocator as it is set up.
use pml.Common.{
  ℕ, ◌*◌, ◌≤◌, ◌<◌, ◌≡◌, ◌∙◌, ◌≢◌, false, arith, ◌==◌, if◌then◌else◌, ==_ne, ==_refl, replicate,
  length-replicate,
}
use pml.Common.Int.{pos}
use pml.Bitmap.{set_bit, clear_bit, test_bit}
use pml.Bitmap.Laws.{
  set_bit-AllBytes, clear_bit-AllBytes, length-set_bit, length-clear_bit, test-set_bit,
  test-clear_bit,
}
use pml.Pid.{Allocator, pid, increment, size_limit, alloc_pid, free_pid, init}
use pml.Pid.Rounds.{used, IsValid}
use pml.Pid.Grow.{zeros-AllBytes, test-zeros}
use pml.Pid.Alloc.{alloc_pid-reuses}

-- `free_pid` of an ID within the bitmap marks it unused, changes no other ID, and keeps the
-- invariant.
pub free_pid-marked :
    (p : ℕ) {a : Allocator}
    → IsValid a
    → p < a.pid_bitmap_size * 8
    → IsValid (free_pid (pos p) a)
      × ((j : ℕ) → used (free_pid (pos p) a) j ≡ (if p == j then false else used a j))
unfolding free_pid
free_pid-marked p {a} v l = (
  record {
    bytes = clear_bit-AllBytes a.pid_bitmap p v.bytes;
    sized = length-clear_bit a.pid_bitmap p ∙ v.sized;
    next_in = ground (arith, v.next_in);
    below = λ i m q.
        let ne : p ≢ i = ground arith in marks i ∙ rw (==_ne p i ne) (v.below i m (ground arith));
  },
  marks,
)
  where
    marks :
        (j : ℕ)
        → test_bit (clear_bit a.pid_bitmap p) j
          ≡ (if p == j then false else test_bit a.pid_bitmap j)
    marks j = test-clear_bit a.pid_bitmap p j v.bytes (omega (arith, v.sized))

-- `init_pid_allocator` leaves a valid state in which ID 0 is in use and no other.
pub init-IsValid : IsValid init × ((j : ℕ) → used init j ≡ (0 == j))
unfolding init
init-IsValid = (
  record {
    bytes = set_bit-AllBytes (replicate increment 0) 0 (zeros-AllBytes increment);
    sized = length-set_bit (replicate increment 0) 0 ∙ length-replicate {A = ℕ} increment 0;
    next_in = omega arith;
    below = λ i m q. marks i ∙ ground arith;
  },
  marks,
)
  where
    marks : (j : ℕ) → test_bit (set_bit (replicate increment 0) 0) j ≡ (0 == j)
    marks j =
        test-set_bit (replicate increment 0) 0 j (zeros-AllBytes increment) (omega arith)
        ∙ ground (arith, test-zeros increment j)

-- A freed ID is handed out again: after `free_pid` the next `alloc_pid` returns an ID no larger,
-- until the bitmap has its full size.
pub alloc_pid-free_pid :
    (junk b p : ℕ) {a : Allocator}
    → IsValid a
    → a.pid_bitmap_size < size_limit
    → p < a.pid_bitmap_size * 8
    → (n : ℕ) × ((alloc_pid junk b (free_pid (pos p) a)).0 ≡ pid n) × (n ≤ p)
alloc_pid-free_pid junk b p {a} v s l =
    let f = free_pid-marked p v l in
    unfold free_pid in alloc_pid-reuses junk b p f.0 s l (f.1 p ∙ rw (==_refl p))
