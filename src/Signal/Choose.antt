-- ===== src/Signal/Choose.antt =====
-- Which thread of a process gets a signal.
use pml.Common.{
  ℕ, zero, suc, ◌<◌, ◌≡◌, Bool, true, false, none, some, List, [], ◌∷◌, arith, get_or, length,
  Option-cases, Bool-cases, inl, inr,
}
use pml.Signal.{Thread, no_thread, find_thread, choose_thread, blocks, not_pending}

-- the thread at an index
abbrev pub thread : List Thread → ℕ → Thread
thread ts i = get_or ts i no_thread

find_thread-some :
    (test : Thread → Bool) (ts : List Thread) (i : ℕ)
    → find_thread test ts ≡ some i
    → (test (thread ts i) ≡ true) × (i < length ts)
unfolding find_thread
find_thread-some test [] i e = absurd (ground arith)
find_thread-some test (t ∷ ts) i e = elim (Bool-cases (test t)) [
  | inl y ↦ let z : i ≡ 0 = ground (arith, y, e) in rw z (y, omega arith)
  | inr n ↦ elim (Option-cases (find_thread test ts)) [
    | inl f ↦ absurd (ground (arith, n, f, e))
    | inr (k, f) ↦
        let z : i ≡ suc k = ground (arith, n, f, e) in
        let r = find_thread-some test ts k f in rw z (r.0, omega (arith, r.1))
  ]
]

find_thread-none :
    (test : Thread → Bool) (ts : List Thread) (i : ℕ)
    → find_thread test ts ≡ none
    → i < length ts
    → test (thread ts i) ≡ false
unfolding find_thread
find_thread-none test [] i e l = absurd (omega arith)
find_thread-none test (t ∷ ts) i e l = elim (Bool-cases (test t)) [
  | inl y ↦ absurd (ground (arith, y, e))
  | inr n ↦ elim (Option-cases (find_thread test ts)) [
    | inr (k, f) ↦ absurd (ground (arith, n, f, e))
    | inl f ↦ here i n (λ k m. find_thread-none test ts k f m) l
  ]
]
  where
    here :
        (j : ℕ)
        → test t ≡ false
        → ((k : ℕ) → k < length ts → test (thread ts k) ≡ false)
        → j < suc (length ts)
        → test (thread (t ∷ ts) j) ≡ false
    here zero n r m = n
    here (suc k) n r m = r k (omega arith)

module _ (sig : ℕ) (ts : List Thread) (i : ℕ) (l : i < length ts) where
  -- When a thread of the process runs, `send_signal` chooses one that runs; when a running thread
  -- blocks the signal and has it not pending, it chooses one that does.
  pub choose_thread-running :
      ((thread ts i).running ≡ true → (thread ts (choose_thread sig ts)).running ≡ true)
      × (blocks sig (thread ts i) ≡ true → blocks sig (thread ts (choose_thread sig ts)) ≡ true)
  unfolding choose_thread
  choose_thread-running = elim (Option-cases (find_thread (blocks sig) ts)) [
    | inr (k, f) ↦
        let b = (find_thread-some (blocks sig) ts k f).0 in
        rw (f, choose_thread) (λ _. ground arith, λ _. b)
    | inl f ↦
        let nb = find_thread-none (blocks sig) ts i f l in
        elim (Option-cases (find_thread (not_pending sig) ts)) [
          | inr (k, g) ↦
              let b = (find_thread-some (not_pending sig) ts k g).0 in
              rw (f, g, choose_thread) (λ _. ground arith, λ b'. absurd (ground (arith, nb, b')))
          | inl g ↦ elim (Option-cases (find_thread (λ t. t.running) ts)) [
            | inr (k, e) ↦
                let b = (find_thread-some (λ t. t.running) ts k e).0 in
                rw (f, g, e, choose_thread) (λ _. b, λ b'. absurd (ground (arith, nb, b')))
            | inl e ↦
                let nr = find_thread-none (λ t. t.running) ts i e l in
                rw (f, g, e, choose_thread)
                  (λ r. absurd (ground (arith, nr, r)), λ b'. absurd (ground (arith, nb, b')))
          ]
        ]
  ]
