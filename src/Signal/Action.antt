-- ===== src/Signal/Action.antt =====
-- The actions of a process: `sigaction` and `signal`.
use pml.Common.{
  ℕ, ◌-◌, ◌≤◌, ◌≡◌, ◌≢◌, ◌↔◌, refl, true, false, none, some, List, arith, get_or, length,
  get_or-set_self, get_or-set_ne,
}
use pml.Common.Int.{ℤ, pos}
use pml.Errno.{ok, err, einval}
use pml.Signal.{SigAction, default_action, sigaction, signal, refused, sigkill, sigstop, nsig}

-- a signal whose action may be changed
abbrev pub Catchable : ℕ → Type 0
Catchable sig = (1 ≤ sig) × (sig ≤ nsig) × (sig ≢ sigkill) × (sig ≢ sigstop)

Catchable-refused : (sig : ℕ) → Catchable sig → refused (pos sig) ≡ false
Catchable-refused sig c = ground (arith, c.0, c.1, c.2, c.3)

-- `sigaction` returns the action that a signal had; called again it returns the one that was set.
-- The actions of other signals stay.
pub sigaction-sigaction :
    (sig j : ℕ) (a : SigAction) (handlers : List SigAction)
    → Catchable sig
    → length handlers ≡ nsig
    → let handlers' = (sigaction (pos sig) (some a) handlers).1 in
      ((sigaction (pos sig) (some a) handlers).0 ≡ ok (get_or handlers (sig - 1) default_action))
      × (sigaction (pos sig) none handlers' ≡ (ok a, handlers'))
      × (sig - 1 ≢ j → get_or handlers' j default_action ≡ get_or handlers j default_action)
unfolding sigaction
sigaction-sigaction sig j a handlers c l =
    let r = Catchable-refused sig c in
    (
      rw r refl,
      rw r (
          ground (
            arith,
            get_or-set_self handlers (sig - 1) a default_action (omega (arith, c.0, c.1, l)),
          )),
      λ n. rw r (get_or-set_ne handlers (sig - 1) j a default_action n),
    )

-- `signal` and `sigaction` fail with EINVAL and change nothing for a number that is no signal, for
-- SIGKILL and for SIGSTOP, and for no other number.
pub sigaction-refused :
    (sig : ℤ) (a : SigAction) (handler : ℕ) (handlers : List SigAction)
    → ((sigaction sig (some a) handlers ≡ (err einval, handlers)) ↔ (refused sig ≡ true))
      × ((signal sig handler handlers ≡ (err einval, handlers)) ↔ (refused sig ≡ true))
unfolding sigaction signal
sigaction-refused sig a handler handlers =
    ((λ e. ground arith, λ e. ground arith), (λ e. ground arith, λ e. ground arith))
