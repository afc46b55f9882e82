-- ===== src/Lock.antt =====
-- The locks of util/lock.c. A step is one atomic access of a thread, so any order of the threads'
-- accesses is a sequence of steps. Threads have numbers.
pub mod Spin
pub mod Count
mod Tests
use pml.Common.{ℕ, ◌+◌, ◌-◌, ◌%◌, ◌^◌, ◌≡◌, Bool, true, false, ◌==◌, if◌then◌else◌, update}

-- Where a thread is: out of the functions, before the exchange of `spinlock_acquire`, in its inner loop,
-- or behind it.
pub data Pc : Type 0 where
  outside : Pc
  testing : Pc
  spinning : Pc
  inside : Pc

pub record Spinlock : Type 0 where
  pub word : ℕ
  pub pc : ℕ → Pc

-- A call, and the next access of a thread: `__sync_lock_test_and_set`, or the read of the inner loop.
pub spinlock_call : ℕ → Spinlock → Spinlock
spinlock_call i s = record s { pc = update s.pc i testing }

abbrev pub acquire_from : Pc → ℕ → Spinlock → Spinlock
acquire_from testing i s = record {
  word = 1;
  pc = update s.pc i (if s.word == 0 then inside else spinning);
}
acquire_from spinning i s = record s {
  pc = update s.pc i (if s.word == 0 then testing else spinning);
}
acquire_from outside i s = s
acquire_from inside i s = s

pub spinlock_acquire : ℕ → Spinlock → Spinlock
spinlock_acquire i s = acquire_from (s.pc i) i s

pub spinlock_release : ℕ → Spinlock → Spinlock
spinlock_release i s = record { word = 0; pc = update s.pc i outside }

-- Only a thread that has acquired the lock releases it.
pub data Step (s : Spinlock) : Spinlock → Type 0 where
  calls : (i : ℕ) → s.pc i ≡ outside → Step s (spinlock_call i s)
  accesses : (i : ℕ) → Step s (spinlock_acquire i s)
  releases : (i : ℕ) → s.pc i ≡ inside → Step s (spinlock_release i s)

abbrev pub unlocked : Spinlock
unlocked = record { word = 0; pc = λ i. outside }

pub data Reach : Spinlock → Type 0 where
  start : Reach unlocked
  later : {s t : Spinlock} → Reach s → Step s t → Reach t

-- Where a thread is in `semaphore_wait`: out of it, in its loop, or before its subtraction.
pub data Wait : Type 0 where
  idle : Wait
  looking : Wait
  passed : Wait

-- The count is an int, as a number below 2 ^ 32; `signals` and `waits` count the calls that are done, and
-- are no part of the code. Nothing puts a thread on the list `blocked`.
pub record Semaphore : Type 0 where
  pub lock : ℕ
  pub threads : ℕ → Wait
  pub signals : ℕ
  pub waits : ℕ

pub semaphore_create : ℕ → Semaphore
semaphore_create init_count = record {
  lock = init_count % 2 ^ 32;
  threads = λ i. idle;
  signals = 0;
  waits = 0;
}

pub semaphore_signal : Semaphore → Semaphore
semaphore_signal s = record s { lock = (s.lock + 1) % 2 ^ 32; signals = s.signals + 1 }

-- A call of `semaphore_wait`, and its next access: the load, or the subtraction.
pub semaphore_call : ℕ → Semaphore → Semaphore
semaphore_call i s = record s { threads = update s.threads i looking }

abbrev pub wait_from : Wait → ℕ → Semaphore → Semaphore
wait_from looking i s = record s {
  threads = update s.threads i (if s.lock == 0 then looking else passed);
}
wait_from passed i s = record {
  lock = (s.lock + (2 ^ 32 - 1)) % 2 ^ 32;
  threads = update s.threads i idle;
  signals = s.signals;
  waits = s.waits + 1;
}
wait_from idle i s = s

pub semaphore_wait : ℕ → Semaphore → Semaphore
semaphore_wait i s = wait_from (s.threads i) i s

pub data Access (s : Semaphore) : Semaphore → Type 0 where
  signal : Access s (semaphore_signal s)
  call : (i : ℕ) → s.threads i ≡ idle → Access s (semaphore_call i s)
  wait : (i : ℕ) → Access s (semaphore_wait i s)

pub data Run (init_count : ℕ) : Semaphore → Type 0 where
  created : Run init_count (semaphore_create init_count)
  next : {s t : Semaphore} → Run init_count s → Access s t → Run init_count t

-- The same with one waiter at most: a call starts only when no thread is in `semaphore_wait`.
pub data Single (init_count : ℕ) : Semaphore → Type 0 where
  created_single : Single init_count (semaphore_create init_count)
  signal_single : {s : Semaphore} → Single init_count s → Single init_count (semaphore_signal s)
  call_single :
      {s : Semaphore} (i : ℕ)
      → Single init_count s
      → ((j : ℕ) → s.threads j ≡ idle)
      → Single init_count (semaphore_call i s)
  wait_single :
      {s : Semaphore} (i : ℕ) → Single init_count s → Single init_count (semaphore_wait i s)
