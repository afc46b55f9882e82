-- ===== src/Lock/Spin.antt =====
-- The spinlock keeps threads out of the section that it guards.
use pml.Common.{
  ℕ, ◌≡◌, ◌≢◌, ◌⊎◌, refl, ap, sym, ◌∙◌, false, arith, ◌==◌, ==_refl, ==_ne, if◌then◌else◌, update,
  inl, inr, Bool-cases,
}
use mathlib.Core.Path.{subst}
use pml.Lock.{
  Pc, outside, testing, spinning, inside, Spinlock, spinlock_call, spinlock_acquire,
  spinlock_release, calls, accesses, releases, acquire_from, Reach, start, later,
}

-- The word is 0 when nobody is inside, and 1 when exactly one thread is.
pub data Inv (s : Spinlock) : Type 0 where
  open_ : s.word ≡ 0 → ((i : ℕ) → s.pc i ≢ inside) → Inv s
  held : (o : ℕ) → s.word ≡ 1 → s.pc o ≡ inside → ((i : ℕ) → s.pc i ≡ inside → i ≡ o) → Inv s

pub testing≢inside : testing ≢ inside
testing≢inside e = absurd (ground (arith, e))

outside≢inside : outside ≢ inside
outside≢inside e = absurd (ground (arith, e))

spinning≢inside : spinning ≢ inside
spinning≢inside e = absurd (ground (arith, e))

-- a thread that moves from elsewhere to elsewhere
Inv-moved :
    (s : Spinlock) (i w : ℕ) (p : Pc)
    → Inv s
    → w ≡ s.word
    → s.pc i ≢ inside
    → p ≢ inside
    → Inv (record { word = w; pc = update s.pc i p })
Inv-moved s i w p (open_ z n) k c d =
    open_ (k ∙ z) (λ j. elim (Bool-cases (i == j)) [ inl e ↦ rw e d | inr e ↦ rw e (n j) ])
Inv-moved s i w p (held o z h u) k c d =
    let e : (i == o) ≡ false = ==_ne i o (λ q. c (ap s.pc q ∙ h)) in
    held o (k ∙ z) (rw e h)
      (λ j. elim (Bool-cases (i == j)) [ inl f ↦ rw f (λ x. absurd (d x)) | inr f ↦ rw f (u j) ])

-- the exchange
module _ (s : Spinlock) (i : ℕ) (e : s.pc i ≡ testing) where
  pub exchange :
      spinlock_acquire i s
      ≡ record { word = 1; pc = update s.pc i (if s.word == 0 then inside else spinning) }
  unfolding spinlock_acquire
  exchange = ap (λ p. acquire_from p i s) e

  exchange-Inv : Inv s → Inv (spinlock_acquire i s)
  exchange-Inv (open_ z n) = subst Inv (sym exchange) (
      held i refl (rw (==_refl i, z) refl) (λ j. elim (Bool-cases (i == j)) [
        | inl f ↦ λ x. ground arith
        | inr f ↦ rw f (λ x. absurd (n j x))
      ]))
  exchange-Inv (held o z h u) = subst Inv (sym exchange) (
      rw z (
        Inv-moved s i 1 spinning (held o z h u) (sym z) (λ q. testing≢inside (sym e ∙ q))
          spinning≢inside))

-- the read of the inner loop
module _ (s : Spinlock) (i : ℕ) (e : s.pc i ≡ spinning) where
  pub read :
      spinlock_acquire i s
      ≡ record s { pc = update s.pc i (if s.word == 0 then testing else spinning) }
  unfolding spinlock_acquire
  read = ap (λ p. acquire_from p i s) e

  read-Inv : Inv s → Inv (spinlock_acquire i s)
  read-Inv v = subst Inv (sym read) (
      Inv-moved s i s.word (if s.word == 0 then testing else spinning) v refl
        (λ q. spinning≢inside (sym e ∙ q))
        (elim (Bool-cases (s.word == 0)) [
          | inl z ↦ rw z testing≢inside
          | inr z ↦ rw z spinning≢inside
        ]))

acquired-Inv : (s : Spinlock) (i : ℕ) → Inv s → Inv (spinlock_acquire i s)
unfolding spinlock_acquire
acquired-Inv s i v = go (s.pc i) refl v
  where
    go : (p : Pc) → s.pc i ≡ p → Inv s → Inv (spinlock_acquire i s)
    go testing e v = exchange-Inv s i e v
    go spinning e v = read-Inv s i e v
    go outside e v = subst Inv (sym (ap (λ p. acquire_from p i s) e)) v
    go inside e v = subst Inv (sym (ap (λ p. acquire_from p i s) e)) v

released-Inv : (s : Spinlock) (i : ℕ) → Inv s → s.pc i ≡ inside → Inv (spinlock_release i s)
unfolding spinlock_release
released-Inv s i (open_ z n) e = absurd (n i e)
released-Inv s i (held o z h u) e = open_ refl (λ j. elim (Bool-cases (i == j)) [
  | inl f ↦ rw f outside≢inside
  | inr f ↦ rw f (λ x. let a = u j x in let b = u i e in absurd (ground arith))
])

pub Reach-Inv : {s : Spinlock} → Reach s → Inv s
unfolding spinlock_call
Reach-Inv start = open_ refl (λ i. outside≢inside)
Reach-Inv (later {s} r (calls i e)) =
    Inv-moved s i s.word testing (Reach-Inv r) refl (λ q. outside≢inside (sym e ∙ q)) testing≢inside
Reach-Inv (later {s} r (accesses i)) = acquired-Inv s i (Reach-Inv r)
Reach-Inv (later {s} r (releases i e)) = released-Inv s i (Reach-Inv r) e

-- the read and the exchange of a thread that spins on an open lock
twice :
    (s : Spinlock) (i : ℕ)
    → s.pc i ≡ spinning
    → s.word ≡ 0
    → (spinlock_acquire i (spinlock_acquire i s)).pc i ≡ inside
twice s i e z =
    let t : Spinlock = spinlock_acquire i s in
    let f : t.pc i ≡ testing = ap (λ x. x.pc i) (read s i e) ∙ rw (==_refl i, z) refl in
    let w : t.word ≡ 0 = ap (λ x. x.word) (read s i e) ∙ z in
    ap (λ x. x.pc i) (exchange t i f) ∙ rw (==_refl i, w) refl

-- Two threads that are both past spinlock_acquire are one, after any accesses of any threads.
pub mutual_exclusion :
    {s : Spinlock} (i j : ℕ) → Reach s → s.pc i ≡ inside → s.pc j ≡ inside → i ≡ j
mutual_exclusion i j r a b = elim (Reach-Inv r) [
  | open_ z n ↦ absurd (n i a)
  | held o z h u ↦ u i a ∙ sym (u j b)
]

-- While a thread is in spinlock_acquire, after any accesses, either some thread is past it, or this
-- thread gets past it with its next two accesses, or with the next one from the exchange.
pub no_deadlock :
    {s : Spinlock} (i : ℕ)
    → Reach s
    → ((s.pc i ≡ testing) → ((j : ℕ) × (s.pc j ≡ inside)) ⊎ ((spinlock_acquire i s).pc i ≡ inside))
      × ((s.pc i ≡ spinning)
          → ((j : ℕ) × (s.pc j ≡ inside))
            ⊎ ((spinlock_acquire i (spinlock_acquire i s)).pc i ≡ inside))
no_deadlock {s} i r = elim (Reach-Inv r) [
  | held o z h u ↦ (λ e. inl (o, h), λ e. inl (o, h))
  | open_ z n ↦ (
    λ e. inr (ap (λ x. x.pc i) (exchange s i e) ∙ rw (==_refl i, z) refl),
    λ e. inr (twice s i e z),
  )
]
