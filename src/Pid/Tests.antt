-- ===== src/Pid/Tests.antt =====
-- The allocator at small states.
use pml.Common.{
  ℕ, ◌+◌, ◌≤◌, ◌≡◌, refl, ◌≢◌, false, ◌||◌, [], ◌∷◌, length, arith, ◌==◌, if◌then◌else◌,
}
use pml.Common.Int.{pos}
use pml.Bitmap.{set_bit, test_bit}
use pml.Pid.{Allocator, pid, exhausted, out_of_fuel, scan, round, search, alloc_pid, free_pid, init}
use pml.Pid.Rounds.{used, IsValid, Allocated}
use pml.Pid.Alloc.{
  alloc_pid-Allocated, alloc_pid_ends, alloc_pid-reuses, alloc_pid_no_memory, alloc_pid-at_limit,
}
use pml.Pid.Free.{free_pid-marked, alloc_pid-free_pid}
use pml.Pid.Trace.{start, got, gave, AllDifferent, holds, without, alloc_pid_unique}

-- IDs 0 to 8 and 10 are in use.
abbrev small : Allocator
small = record { pid_bitmap = 255 ∷ 5 ∷ []; next_pid = 0; pid_bitmap_size = 2 }

small-IsValid : IsValid small
small-IsValid = record {
  bytes = omega arith;
  sized = refl;
  next_in = omega arith;
  below = λ i p q. absurd (omega arith);
}

takes_nine : (alloc_pid 0 0 small).0 ≡ pid 9
unfolding alloc_pid search round scan test_bit
takes_nine = refl

abbrev after : Allocator
after = record { pid_bitmap = 255 ∷ 7 ∷ []; next_pid = 10; pid_bitmap_size = 2 }

alloc_pid-Allocated_example : Allocated small 9 after
unfolding alloc_pid search round scan test_bit set_bit
alloc_pid-Allocated_example = alloc_pid-Allocated 0 0 {a = small} small-IsValid refl

alloc_pid_ends_example : (alloc_pid 0 0 small).0 ≢ out_of_fuel
alloc_pid_ends_example = alloc_pid_ends 0 0 {a = small} small-IsValid

alloc_pid-reuses_example : (n : ℕ) × ((alloc_pid 0 0 small).0 ≡ pid n) × (n ≤ 13)
unfolding test_bit
alloc_pid-reuses_example =
    alloc_pid-reuses 0 0 13 {a = small} small-IsValid (omega arith) (omega arith) refl

-- Full size, and every ID but 0 unused.
abbrev largest : Allocator
largest = record { pid_bitmap = 1 ∷ []; next_pid = 1; pid_bitmap_size = 32768 }

alloc_pid-at_limit_example : alloc_pid 0 5 largest ≡ (exhausted, largest)
alloc_pid-at_limit_example = alloc_pid-at_limit 0 5 largest (omega arith)

free_pid-marked_example :
    IsValid (free_pid (pos 3) small)
    × ((j : ℕ) → used (free_pid (pos 3) small) j ≡ (if 3 == j then false else used small j))
free_pid-marked_example = free_pid-marked 3 {a = small} small-IsValid (omega arith)

alloc_pid-free_pid_example :
    (n : ℕ) × ((alloc_pid 0 0 (free_pid (pos 3) small)).0 ≡ pid n) × (n ≤ 3)
alloc_pid-free_pid_example =
    alloc_pid-free_pid 0 0 3 {a = small} small-IsValid (omega arith) (omega arith)

abbrev first : Allocator
first = (alloc_pid 0 0 init).1

-- Two IDs are handed out and the first is freed.
alloc_pid_unique_example :
    AllDifferent (without 1 (2 ∷ 1 ∷ []))
    × (holds 0 (without 1 (2 ∷ 1 ∷ [])) ≡ false)
    × ((j : ℕ)
        → used (free_pid (pos 1) (alloc_pid 0 0 first).1) j
          ≡ ((0 == j) || holds j (without 1 (2 ∷ 1 ∷ []))))
unfolding alloc_pid search round scan test_bit set_bit init
alloc_pid_unique_example =
    alloc_pid_unique {junk = 0}
      (gave 1 (got {a' = (alloc_pid 0 0 first).1} 0 (got {a' = first} 0 start refl) refl) refl)

abbrev full : Allocator
full = record { pid_bitmap = 255 ∷ []; next_pid = 0; pid_bitmap_size = 1 }

full-IsValid : IsValid full
full-IsValid = record {
  bytes = omega arith;
  sized = refl;
  next_in = omega arith;
  below = λ i p q. absurd (omega arith);
}

alloc_pid_no_memory_example : length full.pid_bitmap + 1024 ≡ 1025
unfolding alloc_pid search round scan test_bit
alloc_pid_no_memory_example =
    alloc_pid_no_memory 0 0 {a = full}
      {a' = record { pid_bitmap = 255 ∷ []; next_pid = 8; pid_bitmap_size = 1025 }} full-IsValid
      refl
