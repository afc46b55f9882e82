-- ===== src/Lock/Count.antt =====
-- What the count of a semaphore says.
use pml.Common.{
  ℕ, ◌+◌, ◌%◌, ◌^◌, ◌<◌, ◌≡◌, refl, sym, false, arith, ◌==◌, ==_refl, update, inl, inr, Bool-cases,
}
use mathlib.Core.Path.{subst}
use pml.Lock.{
  Wait, idle, looking, passed, Semaphore, semaphore_create, semaphore_signal, semaphore_call,
  semaphore_wait, wait_from, signal, call, wait, Run, created, next, Single, created_single,
  signal_single, call_single, wait_single,
}

-- the count is a number of 32 bits, and balances
record Balanced (init_count : ℕ) (s : Semaphore) : Type 0 where
  pub small : s.lock < 2 ^ 32
  pub sum : (s.lock + s.waits) % 2 ^ 32 ≡ (init_count + s.signals) % 2 ^ 32

waited-Balanced :
    {c : ℕ} (s : Semaphore) (i : ℕ) (p : Wait) → Balanced c s → Balanced c (wait_from p i s)
waited-Balanced s i idle b = b
waited-Balanced s i looking b = record { small = b.small; sum = b.sum }
waited-Balanced s i passed b = record { small = omega arith; sum = omega (arith, b.sum, b.small) }

Run-Balanced : {c : ℕ} {s : Semaphore} → Run c s → Balanced c s
unfolding semaphore_create semaphore_signal semaphore_call semaphore_wait
Run-Balanced created = record { small = omega arith; sum = omega arith }
Run-Balanced (next r signal) =
    let b = Run-Balanced r in record { small = omega arith; sum = omega (arith, b.sum, b.small) }
Run-Balanced (next r (call i e)) = let b = Run-Balanced r in record { small = b.small; sum = b.sum }
Run-Balanced (next {s} r (wait i)) = waited-Balanced s i (s.threads i) (Run-Balanced r)

-- After any accesses of any threads, the count and the finished waits add up to the first count and the
-- signals, modulo 2 ^ 32.
pub count_balanced :
    {c : ℕ} {s : Semaphore} → Run c s → (s.lock + s.waits) % 2 ^ 32 ≡ (c + s.signals) % 2 ^ 32
count_balanced r = (Run-Balanced r).sum

-- with one waiter: the count is exact, and positive when that thread has seen it so
record Exact (c : ℕ) (s : Semaphore) : Type 0 where
  pub sum : s.lock + s.waits ≡ c + s.signals
  pub waiter : ℕ
  pub quiet : (j : ℕ) → (waiter == j) ≡ false → s.threads j ≡ idle
  pub positive : s.threads waiter ≡ passed → 0 < s.lock

module _ {c : ℕ} (s : Semaphore) (x : Exact c s) where
  still_quiet : (p : Wait) (j : ℕ) → (x.waiter == j) ≡ false → update s.threads x.waiter p j ≡ idle
  still_quiet p j e = rw e (x.quiet j e)

  waited-Exact :
      c + s.signals < 2 ^ 32
      → (p : Wait) → s.threads x.waiter ≡ p
      → Exact c (wait_from p x.waiter s)
  waited-Exact few idle e = x
  waited-Exact few looking e = record {
    sum = x.sum;
    waiter = x.waiter;
    quiet = still_quiet _;
    positive = rw (==_refl x.waiter) (elim (Bool-cases (s.lock == 0)) [
      | inl z ↦ rw z (λ q. absurd (ground (arith, q)))
      | inr z ↦ λ q. ground arith
    ]);
  }
  waited-Exact few passed e =
      let l = x.positive e in
      record {
        sum = omega (arith, x.sum);
        waiter = x.waiter;
        quiet = still_quiet _;
        positive = rw (==_refl x.waiter) (λ q. absurd (ground (arith, q)));
      }

  wait-Exact : c + s.signals < 2 ^ 32 → (i : ℕ) → Exact c (semaphore_wait i s)
  unfolding semaphore_wait
  wait-Exact few i = elim (Bool-cases (x.waiter == i)) [
    | inl e ↦
        let q : x.waiter ≡ i = ground arith in
        subst (λ k. Exact c (wait_from (s.threads k) k s)) q
          (waited-Exact few (s.threads x.waiter) refl)
    | inr e ↦ subst (λ p. Exact c (wait_from p i s)) (sym (x.quiet i e)) x
  ]

kept :
    (c : ℕ) (p : Wait) (s : Semaphore) (i : ℕ)
    → c + (wait_from p i s).signals < 2 ^ 32
    → c + s.signals < 2 ^ 32
kept c idle s i l = l
kept c looking s i l = l
kept c passed s i l = l

Single-Exact : {c : ℕ} (s : Semaphore) → Single c s → c + s.signals < 2 ^ 32 → Exact c s
unfolding semaphore_create semaphore_signal semaphore_call semaphore_wait
Single-Exact _ created_single few = record {
  sum = omega arith;
  waiter = 0;
  quiet = λ j e. refl;
  positive = λ q. absurd (ground (arith, q));
}
Single-Exact _ (signal_single {s} r) few =
    let x = Single-Exact s r (omega arith) in
    record {
      sum = omega (arith, x.sum);
      waiter = x.waiter;
      quiet = x.quiet;
      positive = λ q. omega (arith, x.sum);
    }
Single-Exact _ (call_single {s} i r n) few =
    let x = Single-Exact s r few in
    record {
      sum = x.sum;
      waiter = i;
      quiet = λ j e. rw e (n j);
      positive = rw (==_refl i) (λ q. absurd (ground (arith, q)));
    }
Single-Exact _ (wait_single {s} i r) few =
    let l = kept _ (s.threads i) s i few in wait-Exact s (Single-Exact s r l) l i

-- With one waiter at a time, and fewer than 2 ^ 32 units in all, the count and the finished waits add up
-- to the first count and the signals, so no wait finishes without a unit.
pub count_exact :
    {c : ℕ} (s : Semaphore) → Single c s → c + s.signals < 2 ^ 32 → s.lock + s.waits ≡ c + s.signals
count_exact s r few = (Single-Exact s r few).sum
