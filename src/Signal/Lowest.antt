-- ===== src/Signal/Lowest.antt =====
-- `poll_signal` as a whole: the loop over the signals, and what its answer means.
use pml.Common.{
  ℕ, zero, suc, ◌+◌, ◌^◌, ◌≤◌, ◌<◌, ◌≡◌, refl, sym, true, false, none, some, ◌==◌, arith,
  Bool-cases, inl, inr,
}
use native.Mathlib.Decide.{ℕ_discrete}
use mathlib.Core.Path.{subst}
use pml.Signal.{
  SigInfo, Thread, sigismember, Polled, take_signal, deliverable, poll_from, poll_signal, nsig,
}
use pml.Signal.Valid.{HasPlace, IsValid}
use pml.Signal.Poll.{Taken, take_signal-Taken}

-- no signal from `i` up to `n` can be delivered
abbrev pub Quiet : Thread → ℕ → ℕ → Type 0
Quiet t i n = (j : ℕ) → i ≤ j → j < n → deliverable t j ≡ false

-- What `poll_signal` answers: nothing, or the lowest signal that can be delivered.
pub data Delivered (t : Thread) (i n : ℕ) : Polled × Thread → Type 0 where
  idle : Quiet t i n → Delivered t i n ((0, none), t)
  gave :
      {k : ℕ} {info : SigInfo} {t' : Thread}
      → i ≤ k
      → k < n
      → HasPlace k
      → deliverable t k ≡ true
      → Quiet t i k
      → Taken k info t t'
      → Delivered t i n ((k, some info), t')

Quiet-cons : (t : Thread) (i n : ℕ) → deliverable t i ≡ false → Quiet t (i + 1) n → Quiet t i n
Quiet-cons t i n d q j l m = elim (ℕ_discrete i j) [
  | yes e ↦ subst (λ k. deliverable t k ≡ false) e d
  | no e ↦ q j (omega arith) m
]

wider :
    {t : Thread} {i n : ℕ} {r : Polled × Thread}
    → deliverable t i ≡ false
    → Delivered t (i + 1) n r
    → Delivered t i n r
wider {t} {i} {n} d (idle q) = idle (Quiet-cons t i n d q)
wider {t} {i} {n} d (gave {k} {info} {t'} a b h e q w) =
    gave (omega arith) b h e (Quiet-cons t i k d q) w

module _ (t : Thread) (v : IsValid t) (small : t.sig < 2 ^ 31) where
  ready_place : (i : ℕ) → 1 ≤ i → i ≤ 64 → sigismember t.sigready i ≡ true → HasPlace i
  ready_place i l m r = elim (ℕ_discrete i 64) [
    | yes e ↦
        let f = subst (λ k. sigismember t.sigready k ≡ true) e r in
        absurd (ground (arith, f, v.last))
    | no e ↦ omega arith
  ]

  taken_now :
      (i n : ℕ)
      → 1 ≤ i
      → i < n
      → n ≤ 65
      → deliverable t i ≡ true
      → Delivered t i n (take_signal i t)
  taken_now i n l m u d =
      let r : sigismember t.sigready i ≡ true = ground arith in
      let h = ready_place i l (omega arith) r in
      let (info, e, w) = take_signal-Taken i v h r small in
      subst (λ p. Delivered t i n p) (λ k. (sym e k, (take_signal i t).1))
        (gave (omega arith) m h d (λ j a b. absurd (omega arith)) w)

  poll_from-Delivered :
      (rounds i n : ℕ) → i + rounds ≡ n → 1 ≤ i → n ≤ 65 → Delivered t i n (poll_from rounds i t)
  unfolding poll_from
  poll_from-Delivered zero i n e l u = idle (λ j a b. absurd (omega arith))
  poll_from-Delivered (suc r) i n e l u = elim (Bool-cases (deliverable t i)) [
    | inl d ↦ rw d (taken_now i n l (omega arith) u d)
    | inr d ↦ rw d (wider d (poll_from-Delivered r (i + 1) n (omega arith) (omega arith) u))
  ]

  -- A thread that counts no signal has none ready.
  not_ready : t.sig ≡ 0 → (j : ℕ) → 1 ≤ j → j < 65 → sigismember t.sigready j ≡ false
  not_ready z j l m = elim (Bool-cases (sigismember t.sigready j)) [
    | inr r ↦ r
    | inl r ↦
        let h = ready_place j l (omega arith) r in
        let (info, e, w) = take_signal-Taken j v h r small in absurd (omega (arith, w.fewer, z))
  ]

  -- Of a well-formed thread that counts fewer than 2 ^ 31 signals, `poll_signal` takes the lowest
  -- signal that is ready and not blocked, with its oldest record, and leaves the others; it answers
  -- 0 and changes nothing when there is no such signal.
  pub poll_signal-Delivered : Delivered t 1 65 (poll_signal t)
  unfolding poll_signal
  poll_signal-Delivered = elim (Bool-cases (t.sig == 0)) [
    | inl z ↦ rw z (idle (λ j a b. let r = not_ready (ground arith) j a b in rw r refl))
    | inr z ↦ rw z (poll_from-Delivered nsig 1 65 refl (omega arith) (omega arith))
  ]
