-- ===== src/Signal/Poll.antt =====
-- `poll_signal`: it takes the lowest signal that is ready and not blocked, and its oldest record.
use pml.Common.{
  ℕ, suc, ◌+◌, ◌-◌, ◌%◌, ◌^◌, ◌≤◌, ◌<◌, ◌≡◌, ◌≢◌, refl, ◌∙◌, sym, ap, true, false, not, some, List,
  [], ◌∷◌, ◌==◌, ltb, arith, if◌then◌else◌, length, get_or, set, take, drop, length-set,
  get_or-set_self, get_or-set_ne, ==_refl, ==_ne, length-take, length-append, take-append, lt→ltb,
}
use native.Mathlib.Decide.{ℕ_discrete, dec_lt}
use mathlib.Core.Path.{subst}
use pml.Signal.{
  SigInfo, no_info, RtQueue, no_queue, Thread, queue_of, sigismember, sigdelset, sigrtmin,
  shift_queue, take_signal,
}
use pml.Signal.Set.{IsSig, member-del}
use pml.Signal.Valid.{HasPlace, waiting, IsValid, assign, length-le-total}
use pml.Signal.Send.{total-waits}

-- The thread after the oldest record of a signal is taken from it.
pub record Taken (i : ℕ) (info : SigInfo) (t t' : Thread) : Type 0 where
  pub valid : IsValid t'
  pub rest : List SigInfo
  pub oldest : waiting t i ≡ info ∷ rest
  pub waits : (j : ℕ) → HasPlace j → waiting t' j ≡ assign i rest (waiting t) j
  pub mask_kept : t'.sigblocked ≡ t.sigblocked
  pub fewer : t'.sig + 1 ≡ t.sig

-- Moving a queue down by one record keeps all but the oldest.
shift-tail :
    (n : ℕ) (q : List SigInfo) (d : SigInfo)
    → suc n ≤ length q
    → (take (suc n) q ≡ get_or q 0 d ∷ take n (shift_queue q n)) × (n ≤ length (shift_queue q n))
unfolding shift_queue
shift-tail n [] d h = absurd (omega arith)
shift-tail n (x ∷ xs) d h =
    let l = length-take n xs (omega arith) in
    (
      ap (λ r. x ∷ r) (sym (take-append n (take n xs) (drop n (x ∷ xs)) l)),
      omega (arith, l, length-append (take n xs) (drop n (x ∷ xs))),
    )

module _ (i : ℕ) (t : Thread) (v : IsValid t) (h : HasPlace i)
    (r : sigismember t.sigready i ≡ true) where
  is_sig : (j : ℕ) → HasPlace j → IsSig j
  is_sig j k = omega (arith, k.0, k.1)

  ready_other :
      (j : ℕ) → IsSig j → i ≢ j → sigismember (sigdelset t.sigready i) j ≡ sigismember t.sigready j
  ready_other j k n = member-del t.sigready i j (is_sig i h) k ∙ rw (==_ne i j n) refl

  ready_self : sigismember (sigdelset t.sigready i) i ≡ false
  ready_self = member-del t.sigready i i (is_sig i h) (is_sig i h) ∙ rw (==_refl i) refl

  -- below SIGRTMIN
  cleared : Thread
  cleared = record t { sigready = sigdelset t.sigready i; sig = t.sig - 1 }

  cleared_waits :
      i < sigrtmin → (j : ℕ) → HasPlace j → waiting cleared j ≡ assign i [] (waiting t) j
  unfolding cleared waiting
  cleared_waits l j k = elim (ℕ_discrete i j) [
    | yes e ↦
        subst (λ m. waiting cleared m ≡ assign i [] (waiting t) m) e (ground (arith, l, ready_self))
    | no e ↦ rw (==_ne i j e, ready_other j (is_sig j k) e) refl
  ]

  take_low : i < sigrtmin → Taken i (get_or t.siginfo (i - 1) no_info) t cleared
  unfolding cleared
  take_low l =
      let w = cleared_waits l in
      let one : waiting t i ≡ get_or t.siginfo (i - 1) no_info ∷ [] =
        unfold waiting in ground (arith, r, l) in
      let tot = total-waits t i [] (waiting cleared) v h w in
      record {
        valid = record {
          infos = v.infos;
          queues = v.queues;
          filled = v.filled;
          marked = λ j k m. ready_other j (is_sig j k) (omega arith) ∙ v.marked j k m;
          last = ready_other 64 (omega arith) (omega (arith, h.1)) ∙ v.last;
          counted = omega (arith, tot, ap length one);
        };
        rest = [];
        oldest = one;
        waits = w;
        mask_kept = refl;
        fewer = omega (arith, tot, ap length one);
      }

  -- a real-time signal
  shorter : RtQueue
  shorter = record {
    queue = shift_queue (queue_of t i).queue ((queue_of t i).len - 1);
    len = (queue_of t i).len - 1;
  }

  popped : Thread
  popped = record t {
    sigready = if (queue_of t i).len - 1 == 0 then sigdelset t.sigready i else t.sigready;
    rtqueue = set t.rtqueue (i - sigrtmin) shorter;
    sig = t.sig - 1;
  }

  module _ (high : sigrtmin ≤ i) where
    len_pos : suc ((queue_of t i).len - 1) ≡ (queue_of t i).len
    len_pos = ground (arith, r, v.marked i h high)

    len-le-sig : (queue_of t i).len ≤ t.sig
    len-le-sig =
        let e : waiting t i ≡ take (queue_of t i).len (queue_of t i).queue =
          unfold waiting in ground (arith, high) in
        omega (
          arith,
          length-le-total 63 i (waiting t) h.0 h.1,
          v.counted,
          ap length e,
          length-take (queue_of t i).len (queue_of t i).queue (v.filled i h high),
        )

    kept_queue :
        (take (queue_of t i).len (queue_of t i).queue
          ≡ get_or (queue_of t i).queue 0 no_info
            ∷ take
                ((queue_of t i).len - 1)
                (shift_queue (queue_of t i).queue ((queue_of t i).len - 1)))
        × ((queue_of t i).len - 1
            ≤ length (shift_queue (queue_of t i).queue ((queue_of t i).len - 1)))
    kept_queue =
        subst
          (λ k.
            (take k (queue_of t i).queue
              ≡ get_or (queue_of t i).queue 0 no_info
                ∷ take ((queue_of t i).len - 1)
                    (shift_queue (queue_of t i).queue ((queue_of t i).len - 1)))
            × ((queue_of t i).len - 1
                ≤ length (shift_queue (queue_of t i).queue ((queue_of t i).len - 1))))
          len_pos
          (shift-tail ((queue_of t i).len - 1) (queue_of t i).queue no_info
            (omega (arith, len_pos, v.filled i h high)))

    ready_popped :
        (j : ℕ) → IsSig j → i ≢ j → sigismember popped.sigready j ≡ sigismember t.sigready j
    unfolding popped
    ready_popped j k n = ground (arith, ready_other j k n)

    queue_after :
        (j : ℕ)
        → HasPlace j
        → sigrtmin ≤ j
        → queue_of popped j ≡ (if i == j then shorter else queue_of t j)
    unfolding popped
    queue_after j k m = elim (ℕ_discrete i j) [
      | yes e ↦
          subst (λ m. queue_of popped m ≡ (if i == m then shorter else queue_of t m)) e
            (get_or-set_self t.rtqueue (i - sigrtmin) shorter no_queue
                (omega (arith, v.queues, h.1, high))
              ∙ rw (==_refl i) refl)
      | no e ↦
          get_or-set_ne t.rtqueue (i - sigrtmin) (j - sigrtmin) shorter no_queue
            (λ q. e (omega (arith, q, high, m)))
          ∙ rw (==_ne i j e) refl
    ]

    popped_waits :
        (j : ℕ)
        → HasPlace j
        → waiting popped j ≡ assign i (take shorter.len shorter.queue) (waiting t) j
    unfolding waiting
    popped_waits j k = elim (dec_lt j sigrtmin) [
      | yes l ↦
          let n : i ≢ j = omega arith in
          let s = ready_popped j (is_sig j k) n in
          rw (==_ne i j n, lt→ltb j sigrtmin l, s) (unfold popped in refl)
      | no g ↦ elim (ℕ_discrete i j) [
        | yes e ↦
            subst (λ m. waiting popped m ≡ assign i (take shorter.len shorter.queue) (waiting t) m)
              e (ground (arith, high, queue_after i h high))
        | no e ↦ ground (arith, g, e, queue_after j k)
      ]
    ]

    marked_after :
        (j : ℕ)
        → HasPlace j
        → sigrtmin ≤ j
        → sigismember popped.sigready j ≡ not ((queue_of popped j).len == 0)
    marked_after j k m = elim (ℕ_discrete i j) [
      | yes e ↦
          subst (λ m. sigismember popped.sigready m ≡ not ((queue_of popped m).len == 0)) e
            (rw (queue_after i h high, ==_refl i)
              (unfold popped shorter in ground (arith, ready_self, r)))
      | no e ↦
          ready_popped j (is_sig j k) e ∙ v.marked j k m ∙ rw (queue_after j k m, ==_ne i j e) refl
    ]

    take_high : Taken i (get_or (queue_of t i).queue 0 no_info) t popped
    unfolding popped
    take_high =
        let w = popped_waits in
        let tot = total-waits t i (take shorter.len shorter.queue) (waiting popped) v h w in
        let one : waiting t i
            ≡ get_or (queue_of t i).queue 0 no_info ∷ take shorter.len shorter.queue =
          unfold waiting shorter in ground (arith, high, kept_queue.0) in
        let less : popped.sig + 1 ≡ t.sig = unfold popped in omega (arith, tot, ap length one) in
        record {
          valid = record {
            infos = v.infos;
            queues = unfold popped in length-set t.rtqueue (i - sigrtmin) shorter ∙ v.queues;
            filled = λ j k m.
                unfold shorter in ground (arith, queue_after j k m, v.filled j k m, kept_queue.1);
            marked = marked_after;
            last = ready_popped 64 (omega arith) (omega (arith, h.1)) ∙ v.last;
            counted = omega (arith, tot, ap length one, less);
          };
          rest = take shorter.len shorter.queue;
          oldest = one;
          waits = w;
          mask_kept = unfold popped in refl;
          fewer = less;
        }

-- `take_signal` gives the oldest record of a signal that is ready.
pub take_signal-Taken :
    (i : ℕ) {t : Thread}
    → IsValid t
    → HasPlace i
    → sigismember t.sigready i ≡ true
    → t.sig < 2 ^ 31
    → (info : SigInfo) × ((take_signal i t).0 ≡ (i, some info)) × Taken i info t (take_signal i t).1
unfolding take_signal
take_signal-Taken i {t} v h r small = elim (dec_lt i sigrtmin) [
  | yes l ↦ (
    get_or t.siginfo (i - 1) no_info,
    rw (lt→ltb i sigrtmin l) refl,
    (let low = take_low i t v h r l in
        let wrap : (t.sig + (2 ^ 32 - 1)) % 2 ^ 32 ≡ t.sig - 1 =
          unfold cleared in omega (arith, low.fewer) in
        rw (lt→ltb i sigrtmin l, wrap) (unfold cleared in low)),
  )
  | no g ↦
      let n : ltb i sigrtmin ≡ false = ground arith in
      let high : sigrtmin ≤ i = omega arith in
      let k : ((queue_of t i).len + (2 ^ 64 - 1)) % 2 ^ 64 ≡ (queue_of t i).len - 1 =
        omega (arith, len_pos i t v h r high, len-le-sig i t v h r high) in
      (
        get_or (queue_of t i).queue 0 no_info,
        rw n refl,
        (let top = take_high i t v h r high in
            let wrap : (t.sig + (2 ^ 32 - 1)) % 2 ^ 32 ≡ t.sig - 1 =
              unfold popped in omega (arith, top.fewer) in
            rw (n, k, wrap) (unfold popped shorter in top)),
      )
]
