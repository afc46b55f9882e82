-- ===== src/Lock/Tests.antt =====
-- Two threads at a spinlock, and two at a semaphore.
use pml.Common.{ℕ, ◌+◌, ◌-◌, ◌%◌, ◌^◌, ◌<◌, ◌≡◌, ◌⊎◌, refl, arith}
use pml.Lock.{
  testing, spinning, inside, Spinlock, spinlock_call, spinlock_acquire, spinlock_release, calls,
  accesses, unlocked, Reach, start, later, Semaphore, semaphore_create, semaphore_signal,
  semaphore_call, semaphore_wait, call, wait, Run, created, next, Single, created_single,
  signal_single, call_single, wait_single,
}
use pml.Lock.Spin.{mutual_exclusion, no_deadlock}
use pml.Lock.Count.{count_balanced, count_exact}

abbrev two_called : Spinlock
two_called = spinlock_call 2 (spinlock_call 1 unlocked)

two_called-Reach : Reach two_called
unfolding spinlock_call
two_called-Reach = later (later start (calls 1 refl)) (calls 2 refl)

abbrev first_in : Spinlock
first_in = spinlock_acquire 2 (spinlock_acquire 1 two_called)

first_in-Reach : Reach first_in
first_in-Reach = later (later two_called-Reach (accesses 1)) (accesses 2)

first_in_inside : first_in.pc 1 ≡ inside
unfolding spinlock_call spinlock_acquire
first_in_inside = refl

mutual_exclusion_example : ◌≡◌ {A = ℕ} 1 1
mutual_exclusion_example = mutual_exclusion 1 1 first_in-Reach first_in_inside first_in_inside

no_deadlock_example :
    ((first_in.pc 2 ≡ testing)
      → ((j : ℕ) × (first_in.pc j ≡ inside)) ⊎ ((spinlock_acquire 2 first_in).pc 2 ≡ inside))
    × ((first_in.pc 2 ≡ spinning)
        → ((j : ℕ) × (first_in.pc j ≡ inside))
          ⊎ ((spinlock_acquire 2 (spinlock_acquire 2 first_in)).pc 2 ≡ inside))
no_deadlock_example = no_deadlock 2 first_in-Reach

-- the second thread gets in when the first has left
handed_over : (spinlock_acquire 2 (spinlock_acquire 2 (spinlock_release 1 first_in))).pc 2 ≡ inside
unfolding spinlock_call spinlock_acquire spinlock_release
handed_over = refl

-- Two threads see the count 1, and both subtract.
abbrev both_called : Semaphore
both_called = semaphore_call 2 (semaphore_call 1 (semaphore_create 1))

abbrev both_waited : Semaphore
both_waited = semaphore_wait 2 (semaphore_wait 1 (semaphore_wait 2 (semaphore_wait 1 both_called)))

both_waited-Run : Run 1 both_waited
unfolding semaphore_create semaphore_call
both_waited-Run =
    next
      (next (next (next (next (next created (call 1 refl)) (call 2 refl)) (wait 1)) (wait 2))
        (wait 1))
      (wait 2)

count_balanced_example :
    (both_waited.lock + both_waited.waits) % 2 ^ 32 ≡ (1 + both_waited.signals) % 2 ^ 32
count_balanced_example = count_balanced both_waited-Run

both_waited_wrapped : both_waited.lock ≡ 2 ^ 32 - 1
unfolding semaphore_create semaphore_call semaphore_wait
both_waited_wrapped = refl

-- one thread, from the count 1
abbrev one_waited : Semaphore
one_waited =
    semaphore_wait 1 (semaphore_wait 1 (semaphore_call 1 (semaphore_signal (semaphore_create 1))))

one_waited-Single : Single 1 one_waited
unfolding semaphore_create semaphore_signal
one_waited-Single =
    wait_single 1 (wait_single 1 (call_single 1 (signal_single created_single) (λ j. refl)))

one_waited_few : 1 + one_waited.signals < 2 ^ 32
unfolding semaphore_create semaphore_signal semaphore_call semaphore_wait
one_waited_few = omega arith

count_exact_example : one_waited.lock + one_waited.waits ≡ 1 + one_waited.signals
count_exact_example = count_exact one_waited one_waited-Single one_waited_few
