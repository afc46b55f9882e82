-- ===== src/Signal/Send.antt =====
-- `send_signal_thread` for a signal below SIGRTMIN: what waits in the thread afterwards.
use pml.Common.{
  ℕ, zero, suc, ◌+◌, ◌-◌, ◌≤◌, ◌<◌, ◌≡◌, ◌≢◌, refl, ◌∙◌, ap, true, false, List, [], ◌∷◌, ◌++◌, ◌==◌,
  ltb, arith, if◌then◌else◌, length, set, take, length-set, get_or-set_self, get_or-set_ne, ==_ne,
  length-take, length-append,
}
use native.Mathlib.Decide.{ℕ_discrete}
use mathlib.Core.Path.{subst}
use pml.Signal.{SigInfo, no_info, Thread, queue_of, sigismember, sigaddset, sigrtmin, mark_signal}
use pml.Signal.Set.{IsSig, member-add}
use pml.Signal.Valid.{HasPlace, waiting, total, IsValid, Pending, assign, total-same, total-assign}

-- What a signal adds to those of its number: nothing to one that waits, below SIGRTMIN.
abbrev pub or_first : List SigInfo → SigInfo → List SigInfo
or_first [] info = info ∷ []
or_first (x ∷ xs) info = x ∷ xs

abbrev pub push : ℕ → SigInfo → List SigInfo → List SigInfo
push sig info xs = if ltb sig sigrtmin then or_first xs info else xs ++ (info ∷ [])

pub record Sent (sig : ℕ) (info : SigInfo) (t t' : Thread) : Type 0 where
  pub valid : IsValid t'
  pub waits :
      (j : ℕ) → HasPlace j → waiting t' j ≡ assign sig (push sig info (waiting t sig)) (waiting t) j
  pub mask_kept : t'.sigblocked ≡ t.sigblocked
  pub grown : t'.sig ≤ t.sig + 1

-- `realloc` to one more record and a write to it append a record.
pub resize-set :
    (k : ℕ) (xs ys : List SigInfo) (v : SigInfo)
    → k ≤ length xs
    → 1 ≤ length ys
    → take (suc k) (set (take (suc k) (xs ++ ys)) k v) ≡ take k xs ++ (v ∷ [])
resize-set zero [] [] v h l = absurd (omega arith)
resize-set zero [] (y ∷ ys) v h l = refl
resize-set zero (x ∷ xs) ys v h l = refl
resize-set (suc k) [] ys v h l = absurd (omega arith)
resize-set (suc k) (x ∷ xs) ys v h l = ap (λ r. x ∷ r) (resize-set k xs ys v (omega arith) l)

pub length-resize :
    (k : ℕ) (xs ys : List SigInfo) (v : SigInfo)
    → k ≤ length xs
    → 1 ≤ length ys
    → length (set (take (suc k) (xs ++ ys)) k v) ≡ suc k
length-resize k xs ys v h l =
    length-set (take (suc k) (xs ++ ys)) k v
    ∙ length-take (suc k) (xs ++ ys) (omega (arith, length-append xs ys))

-- the new total, where only one signal changes
module _ (t : Thread) (sig : ℕ) (xs : List SigInfo) (w : Pending) (v : IsValid t) (h : HasPlace sig)
    (waits : (j : ℕ) → HasPlace j → w j ≡ assign sig xs (waiting t) j) where
  pub total-waits : total w 63 + length (waiting t sig) ≡ t.sig + length xs
  total-waits = omega (
    arith,
    total-same 63 w (assign sig xs (waiting t)) (λ j l m. waits j (l, m)),
    total-assign 63 sig xs (waiting t) h.0 h.1,
    v.counted,
  )

module _ (sig : ℕ) (info : SigInfo) (t : Thread) (v : IsValid t) (h : HasPlace sig) where
  pub is_sig : (j : ℕ) → HasPlace j → IsSig j
  is_sig j k = omega (arith, k.0, k.1)

  -- the branch of a signal that waits already
  pub again : sigismember t.sigready sig ≡ true → sig < sigrtmin → Sent sig info t t
  again r l = record {
    valid = v;
    waits = λ j k. elim (ℕ_discrete sig j) [
      | yes e ↦
          subst (λ i. waiting t i ≡ assign sig (push sig info (waiting t sig)) (waiting t) i) e one
      | no e ↦ rw (==_ne sig j e) refl
    ];
    mask_kept = refl;
    grown = omega arith;
  }
    where
      one : waiting t sig ≡ assign sig (push sig info (waiting t sig)) (waiting t) sig
      one = unfold waiting in ground (arith, r, l)

  -- the branch of a signal below SIGRTMIN that does not wait yet
  unfoldable pub sent : Thread
  sent = record t {
    sigpending = (mark_signal sig t).sigpending;
    sigready = sigaddset t.sigready sig;
    siginfo = set t.siginfo (sig - 1) info;
    sig = t.sig + 1;
  }

  pub ready_after :
      (j : ℕ)
      → IsSig j
      → sigismember (sigaddset t.sigready sig) j
        ≡ (if sig == j then true else sigismember t.sigready j)
  ready_after j k = member-add t.sigready sig j (is_sig sig h) k

  pub ready_other :
      (j : ℕ)
      → IsSig j
      → sig ≢ j
      → sigismember (sigaddset t.sigready sig) j ≡ sigismember t.sigready j
  ready_other j k n = ready_after j k ∙ rw (==_ne sig j n) refl

  sent_waits :
      sigismember t.sigready sig ≡ false
      → sig < sigrtmin
      → (j : ℕ) → HasPlace j
      → waiting sent j ≡ assign sig (push sig info (waiting t sig)) (waiting t) j
  unfolding sent waiting
  sent_waits r l j k = elim (ℕ_discrete sig j) [
    | yes e ↦
        subst (λ i. waiting sent i ≡ assign sig (push sig info (waiting t sig)) (waiting t) i) e
          (ground (
            arith,
            r,
            l,
            ready_after sig (is_sig sig h),
            get_or-set_self t.siginfo (sig - 1) info no_info (omega (arith, v.infos, h.0, l)),
          ))
    | no e ↦
        rw (==_ne sig j e, ready_other j (is_sig j k) e)
          (ap
            (λ x.
              if ltb j sigrtmin
              then (if sigismember t.sigready j then x ∷ [] else [])
              else take (queue_of t j).len (queue_of t j).queue)
            (get_or-set_ne t.siginfo (sig - 1) (j - 1) info no_info (omega (arith, h.0, k.0, e))))
  ]

  pub once : sigismember t.sigready sig ≡ false → sig < sigrtmin → Sent sig info t sent
  unfolding sent
  once r l =
      let w = sent_waits r l in
      let none_yet : waiting t sig ≡ [] = unfold waiting in ground (arith, r, l) in
      let pushed : push sig info (waiting t sig) ≡ info ∷ [] = rw none_yet (ground (arith, l)) in
      record {
        valid = record {
          infos = length-set t.siginfo (sig - 1) info ∙ v.infos;
          queues = v.queues;
          filled = v.filled;
          marked = λ j k m. ready_other j (is_sig j k) (omega arith) ∙ v.marked j k m;
          last = ready_other 64 (omega arith) (omega arith) ∙ v.last;
          counted = omega (
            arith,
            total-waits t sig (push sig info (waiting t sig)) (waiting sent) v h w,
            ap length none_yet,
            ap length pushed,
          );
        };
        waits = w;
        mask_kept = refl;
        grown = omega arith;
      }
