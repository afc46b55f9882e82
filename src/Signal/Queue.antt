-- ===== src/Signal/Queue.antt =====
-- `send_signal_thread` for a real-time signal, and for all signals together.
use pml.Common.{
  ℕ, suc, ◌+◌, ◌-◌, ◌%◌, ◌^◌, ◌≤◌, ◌<◌, ◌≡◌, ◌≢◌, refl, ◌∙◌, ap, true, false, [], ◌∷◌, ◌++◌, ◌==◌,
  ltb, arith, if◌then◌else◌, length, set, take, replicate, Bool-cases, inl, inr, lt→ltb, length-set,
  get_or-set_self, get_or-set_ne, ==_refl, ==_ne, length-take, length-append,
}
use native.Mathlib.Decide.{ℕ_discrete, dec_lt}
use mathlib.Core.Path.{subst}
use pml.Signal.{
  SigInfo, no_info, RtQueue, no_queue, Thread, queue_of, sigismember, sigaddset, sigrtmin, resize,
  mark_signal, queue_signal, send_signal_thread,
}
use pml.Signal.Valid.{HasPlace, waiting, IsValid, assign, length-le-total}
use pml.Signal.Send.{
  push, Sent, resize-set, length-resize, total-waits, is_sig, again, sent, ready_after, ready_other,
  once,
}

module _ (sig : ℕ) (info : SigInfo) (t : Thread) (v : IsValid t) (h : HasPlace sig)
    (high : sigrtmin ≤ sig) (room : t.sig + 1 < 2 ^ 31) where
  len_small : (queue_of t sig).len ≤ t.sig
  len_small =
      let l = length-le-total 63 sig (waiting t) h.0 h.1 in
      let e : waiting t sig ≡ take (queue_of t sig).len (queue_of t sig).queue =
        unfold waiting in ground (arith, high) in
      omega (
        arith,
        l,
        v.counted,
        ap length e,
        length-take (queue_of t sig).len (queue_of t sig).queue (v.filled sig h high),
      )

  next_len : ((queue_of t sig).len + 1) % 2 ^ 64 ≡ suc (queue_of t sig).len
  next_len = omega (arith, len_small)

  longer : RtQueue
  longer = record {
    queue =
        set (resize (queue_of t sig).queue (suc (queue_of t sig).len)) (queue_of t sig).len info;
    len = suc (queue_of t sig).len;
  }

  queued : Thread
  queued = record t {
    sigpending = (mark_signal sig t).sigpending;
    sigready = sigaddset t.sigready sig;
    rtqueue = set t.rtqueue (sig - sigrtmin) longer;
    sig = t.sig + 1;
  }

  queue_signal-queued : queue_signal true sig info (mark_signal sig t) ≡ queued
  unfolding queue_signal queued longer mark_signal
  queue_signal-queued =
      let pred : suc (queue_of t sig).len - 1 ≡ (queue_of t sig).len = omega arith in
      let wrap : (t.sig + 1) % 2 ^ 32 ≡ t.sig + 1 = omega arith in rw (next_len, pred, wrap) refl

  queue_after :
      (j : ℕ)
      → HasPlace j
      → sigrtmin ≤ j
      → queue_of queued j ≡ (if sig == j then longer else queue_of t j)
  unfolding queued
  queue_after j k m = elim (ℕ_discrete sig j) [
    | yes e ↦
        subst (λ i. queue_of queued i ≡ (if sig == i then longer else queue_of t i)) e
          (get_or-set_self t.rtqueue (sig - sigrtmin) longer no_queue
              (omega (arith, v.queues, h.1, high))
            ∙ rw (==_refl sig) refl)
    | no e ↦
        get_or-set_ne t.rtqueue (sig - sigrtmin) (j - sigrtmin) longer no_queue
          (λ q. e (omega (arith, q, high, m)))
        ∙ rw (==_ne sig j e) refl
  ]

  longer-push :
      take longer.len longer.queue ≡ take (queue_of t sig).len (queue_of t sig).queue ++ (info ∷ [])
  unfolding longer resize
  longer-push =
      resize-set (queue_of t sig).len (queue_of t sig).queue
        (replicate (suc (queue_of t sig).len) no_info) info (v.filled sig h high) (omega arith)

  longer_filled : length longer.queue ≡ longer.len
  unfolding longer resize
  longer_filled =
      length-resize (queue_of t sig).len (queue_of t sig).queue
        (replicate (suc (queue_of t sig).len) no_info) info (v.filled sig h high) (omega arith)

  queued_waits :
      (j : ℕ)
      → HasPlace j
      → waiting queued j ≡ assign sig (push sig info (waiting t sig)) (waiting t) j
  unfolding waiting
  queued_waits j k = elim (dec_lt j sigrtmin) [
    | yes l ↦
        let n : sig ≢ j = omega arith in
        rw (==_ne sig j n) (
          unfold queued in
          ground (arith, l, ready_other sig info t v h j (is_sig sig info t v h j k) n))
    | no g ↦ elim (ℕ_discrete sig j) [
      | yes e ↦
          subst (λ i. waiting queued i ≡ assign sig (push sig info (waiting t sig)) (waiting t) i) e
            (ground (arith, high, queue_after sig h high, longer-push))
      | no e ↦ ground (arith, g, e, queue_after j k)
    ]
  ]

  append : Sent sig info t queued
  unfolding queued
  append =
      let w = queued_waits in
      record {
        valid = record {
          infos = v.infos;
          queues = length-set t.rtqueue (sig - sigrtmin) longer ∙ v.queues;
          filled = λ j k m. ground (arith, queue_after j k m, v.filled j k m, longer_filled);
          marked = λ j k m.
              ready_after sig info t v h j (is_sig sig info t v h j k)
              ∙ unfold longer in ground (arith, queue_after j k m, v.marked j k m);
          last = ready_other sig info t v h 64 (omega arith) (omega arith) ∙ v.last;
          counted = omega (
            arith,
            total-waits t sig (push sig info (waiting t sig)) (waiting queued) v h w,
            length-append (waiting t sig) (info ∷ []),
            ap length pushed,
          );
        };
        waits = w;
        mask_kept = refl;
        grown = omega arith;
      }
    where
      pushed : push sig info (waiting t sig) ≡ waiting t sig ++ (info ∷ [])
      pushed = ground (arith, high)

-- Sending a signal of the thread's arrays, with memory for a queue, adds it to those that wait and
-- keeps the thread well-formed.
pub send_signal_thread-Sent :
    (sig : ℕ) (info : SigInfo) {t : Thread}
    → IsValid t
    → HasPlace sig
    → t.sig + 1 < 2 ^ 31
    → Sent sig info t (send_signal_thread true sig info t)
unfolding send_signal_thread
send_signal_thread-Sent sig info {t} v h room = elim (dec_lt sig sigrtmin) [
  | yes l ↦ elim (Bool-cases (sigismember t.sigready sig)) [
    | inl r ↦ rw (r, lt→ltb sig sigrtmin l) (again sig info t v h r l)
    | inr r ↦
        let wrap : (t.sig + 1) % 2 ^ 32 ≡ t.sig + 1 = omega arith in
        rw (r, lt→ltb sig sigrtmin l) (unfold sent mark_signal in rw wrap (once sig info t v h r l))
  ]
  | no g ↦
      let n : ltb sig sigrtmin ≡ false = ground arith in
      let q = queue_signal-queued sig info t v h (omega arith) room in
      elim (Bool-cases (sigismember t.sigready sig)) [
        | inl r ↦ rw (r, n) (rw q (append sig info t v h (omega arith) room))
        | inr r ↦ rw (r, n) (rw q (append sig info t v h (omega arith) room))
      ]
]
