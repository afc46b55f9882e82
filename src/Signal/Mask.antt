-- ===== src/Signal/Mask.antt =====
-- The mask of blocked signals: `sigprocmask`, and the start and the end of a handler.
use pml.Common.{
  ℕ, ◌^◌, ◌<◌, ◌≡◌, ◌≢◌, refl, ◌∙◌, not, ◌&&◌, ◌||◌, none, some, bit_and, bit_or, ◌==◌, arith,
  ==_ne,
}
use pml.Signal.{
  Thread, sigismember, sigprocmask, block, unblock, setmask, poll_signal_handler,
  update_signal_mask, sa_nodefer, poll_signal,
}
use pml.Signal.Set.{IsSig, member-add, member-del, member-or, member-without}

module _ (s : ℕ) (t : Thread) (j : ℕ) (small : s < 2 ^ 64) where
  -- After `sigprocmask` a signal is blocked if it was or is in the set (SIG_BLOCK), if it was and is
  -- not in the set (SIG_UNBLOCK), or if it is in the set (SIG_SETMASK).
  pub sigprocmask-member :
      (sigismember (sigprocmask block (some s) t).1.1.sigblocked j
        ≡ (sigismember t.sigblocked j || sigismember s j))
      × (sigismember (sigprocmask unblock (some s) t).1.1.sigblocked j
          ≡ (sigismember t.sigblocked j && not (sigismember s j)))
      × (sigismember (sigprocmask setmask (some s) t).1.1.sigblocked j ≡ sigismember s j)
  unfolding sigprocmask
  sigprocmask-member = (member-or t.sigblocked s j, member-without t.sigblocked s j small, refl)

module _ (t : Thread) (j : ℕ) (h : IsSig t.hsig) (k : IsSig j) where
  -- While a handler runs, a signal is blocked if it was, if it is in the handler's mask, or if it is
  -- the handler's own signal without SA_NODEFER; the mask that `update_signal_mask` gets back then
  -- blocks what was blocked before.
  pub poll_signal_handler-member :
      let ((_, _, saved), t') = poll_signal_handler t in
      (sigismember t'.sigblocked j ≡ (
        sigismember t.sigblocked j
        || (sigismember t.hmask j || (bit_and t.hflags sa_nodefer == 0 && t.hsig == j))))
      × (sigismember (update_signal_mask saved t').sigblocked j ≡ sigismember t.sigblocked j)
  unfolding poll_signal_handler update_signal_mask
  poll_signal_handler-member = (
    ground (
      arith,
      member-add (bit_or t.sigblocked t.hmask) t.hsig j h k,
      member-or t.sigblocked t.hmask j,
    ),
    refl,
  )

-- The start of a handler sets the count of queued signals to 0: a signal that is still ready stays
-- so, unless its number is that count, but the next poll answers 0.
pub poll_signal-poll_signal_handler :
    (t : Thread) (k : ℕ)
    → IsSig k
    → IsSig t.sig
    → t.sig ≢ k
    → (sigismember (poll_signal_handler t).1.sigready k ≡ sigismember t.sigready k)
      × (poll_signal (poll_signal_handler t).1 ≡ ((0, none), (poll_signal_handler t).1))
unfolding poll_signal_handler poll_signal
poll_signal-poll_signal_handler t k h l n =
    (member-del t.sigready t.sig k l h ∙ rw (==_ne t.sig k n) refl, refl)
