-- ===== src/Signal/Valid.antt =====
-- What waits in a thread: of each signal below SIGRTMIN at most one, of each other one a queue.
use native.Mathlib.Decide.{ℕ_discrete}
use pml.Common.{
  ℕ, zero, suc, ◌+◌, ◌-◌, ◌≤◌, ◌≡◌, refl, ap, false, not, List, [], ◌∷◌, ◌==◌, ltb, arith,
  if◌then◌else◌, length, get_or, take,
}
use pml.Signal.{SigInfo, no_info, Thread, queue_of, sigismember, sigrtmin}

-- a signal number that has a place in the thread's arrays
abbrev pub HasPlace : ℕ → Type 0
HasPlace i = (1 ≤ i) × (i ≤ 63)

-- the signal information that waits for one signal, oldest first
unfoldable pub waiting : Thread → ℕ → List SigInfo
waiting t i =
    if ltb i sigrtmin
    then (if sigismember t.sigready i then get_or t.siginfo (i - 1) no_info ∷ [] else [])
    else take (queue_of t i).len (queue_of t i).queue

-- how many wait for the signals up to `n`
unfoldable pub total : (ℕ → List SigInfo) → ℕ → ℕ
total p zero = 0
total p (suc n) = length (p (suc n)) + total p n

pub record IsValid (t : Thread) : Type 0 where
  pub infos : length t.siginfo ≡ 32
  pub queues : length t.rtqueue ≡ 32
  pub filled :
      (i : ℕ) → HasPlace i → sigrtmin ≤ i → (queue_of t i).len ≤ length (queue_of t i).queue
  pub marked :
      (i : ℕ) → HasPlace i → sigrtmin ≤ i → sigismember t.sigready i ≡ not ((queue_of t i).len == 0)
  pub last : sigismember t.sigready 64 ≡ false
  pub counted : t.sig ≡ total (waiting t) 63

-- An abstract thread: what waits for each signal.
abbrev pub Pending : Type 0
Pending = ℕ → List SigInfo

abbrev pub assign : ℕ → List SigInfo → Pending → Pending
assign i xs p j = if i == j then xs else p j

pub total-same :
    (n : ℕ) (p q : Pending) → ((j : ℕ) → 1 ≤ j → j ≤ n → p j ≡ q j) → total p n ≡ total q n
unfolding total
total-same zero p q h = refl
total-same (suc n) p q h = omega (
  arith,
  ap length (h (suc n) (omega arith) (omega arith)),
  total-same n p q (λ j l m. h j l (omega arith)),
)

-- Changing one signal changes the total by as much.
pub total-assign :
    (n i : ℕ) (xs : List SigInfo) (p : Pending)
    → 1 ≤ i
    → i ≤ n
    → total (assign i xs p) n + length (p i) ≡ total p n + length xs
unfolding total
total-assign zero i xs p h k = absurd (omega arith)
total-assign (suc n) i xs p h k = elim (ℕ_discrete i (suc n)) [
  | yes e ↦
      let same = total-same n (assign i xs p) p (λ j l m. ground arith) in
      let here : assign i xs p (suc n) ≡ xs = ground arith in
      omega (arith, same, ap length here, ap (λ k. length (p k)) e)
  | no e ↦
      let here : assign i xs p (suc n) ≡ p (suc n) = ground arith in
      omega (arith, ap length here, total-assign n i xs p h (omega arith))
]

pub length-le-total : (n i : ℕ) (p : Pending) → 1 ≤ i → i ≤ n → length (p i) ≤ total p n
unfolding total
length-le-total zero i p h k = absurd (omega arith)
length-le-total (suc n) i p h k = elim (ℕ_discrete i (suc n)) [
  | yes e ↦ omega (arith, ap (λ j. length (p j)) e)
  | no e ↦ omega (arith, length-le-total n i p h (omega arith))
]
