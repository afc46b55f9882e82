-- ===== src/Signal/Fifo.antt =====
-- Whole runs of a thread: signals sent to it, polls, and changes of its mask.
use pml.Common.{
  ℕ, ◌+◌, ◌^◌, ◌≤◌, ◌<◌, ◌≡◌, refl, ◌∙◌, sym, ap, true, false, none, some, List, [], ◌∷◌, ◌++◌,
  ◌==◌, ltb, arith, if◌then◌else◌, length, ==_ne, ==_refl,
}
use mathlib.Core.List.{append_assoc, append-nil}
use native.Mathlib.Decide.{ℕ_discrete}
use mathlib.Core.Path.{subst}
use pml.Signal.{
  SigInfo, Thread, sigrtmin, Polled, send_signal_thread, poll_signal, update_signal_mask,
}
use pml.Signal.Valid.{HasPlace, waiting, IsValid}
use pml.Signal.Send.{push, Sent}
use pml.Signal.Queue.{send_signal_thread-Sent}
use pml.Signal.Lowest.{Delivered, idle, gave, poll_signal-Delivered}

pub data Op : Type 0 where
  send : ℕ → SigInfo → Op
  poll : Op
  block : ℕ → Op

-- every signal that is sent has a place in the thread's arrays
abbrev pub AllPlaced : List Op → Type 0
AllPlaced [] = Unit
AllPlaced (send sig info ∷ ops) = HasPlace sig × AllPlaced ops
AllPlaced (poll ∷ ops) = AllPlaced ops
AllPlaced (block m ∷ ops) = AllPlaced ops

-- the answers of the polls in order, and the thread at the end
unfoldable pub run : List Op → Thread → List Polled × Thread
run [] t = ([], t)
run (send sig info ∷ ops) t = run ops (send_signal_thread true sig info t)
run (poll ∷ ops) t =
    let (answer, t') = poll_signal t in let (answers, end) = run ops t' in (answer ∷ answers, end)
run (block m ∷ ops) t = run ops (update_signal_mask m t)

-- the records that a run sends with one signal
abbrev pub sent : ℕ → List Op → List SigInfo
sent i [] = []
sent i (send sig info ∷ ops) = if sig == i then info ∷ sent i ops else sent i ops
sent i (poll ∷ ops) = sent i ops
sent i (block m ∷ ops) = sent i ops

-- the records that polls gave with one signal
abbrev pub delivered : ℕ → List Polled → List SigInfo
delivered i [] = []
delivered i ((sig, none) ∷ rs) = delivered i rs
delivered i ((sig, some info) ∷ rs) = if sig == i then info ∷ delivered i rs else delivered i rs

masked-IsValid : (m : ℕ) {t : Thread} → IsValid t → IsValid (update_signal_mask m t)
unfolding update_signal_mask
masked-IsValid m v = record {
  infos = v.infos;
  queues = v.queues;
  filled = v.filled;
  marked = v.marked;
  last = v.last;
  counted = unfold waiting in v.counted;
}

module _ (i : ℕ) (h : HasPlace i) (high : sigrtmin ≤ i) where
  -- what one more record does to the records behind it
  appended_one :
      (sig : ℕ) (info : SigInfo) (rest : List SigInfo) {t t' : Thread}
      → Sent sig info t t'
      → waiting t' i ++ rest ≡ waiting t i ++ (if sig == i then info ∷ rest else rest)
  appended_one sig info rest {t} {t'} s = elim (ℕ_discrete sig i) [
    | yes e ↦
        let q : ltb i sigrtmin ≡ false = ground arith in
        let w : waiting t' i ≡ waiting t i ++ (info ∷ []) =
          s.waits i h
          ∙ subst
              (λ k.
                (if k == i then push k info (waiting t k) else waiting t i)
                ≡ waiting t i ++ (info ∷ []))
              (sym e) (rw (==_refl i, q) refl) in
        let b : (sig == i) ≡ true = ground arith in
        rw (w, b) (append_assoc (waiting t i) (info ∷ []) rest)
    | no e ↦
        let w : waiting t' i ≡ waiting t i = s.waits i h ∙ rw (==_ne sig i e) refl in
        rw (w, ==_ne sig i e) refl
  ]

  -- what a poll that gives nothing, or another signal, or this one does
  polled_one :
      (later : List Polled) (stay : Thread) {t : Thread} {r : Polled × Thread}
      → Delivered t 1 65 r
      → (whole : List SigInfo) → delivered i later ++ waiting stay i ≡ waiting r.1 i ++ whole
      → delivered i (r.0 ∷ later) ++ waiting stay i ≡ waiting t i ++ whole
  polled_one later stay (idle q) whole e = e
  polled_one later stay {t} (gave {k} {info} {t'} a b hk d q w) whole e = elim (ℕ_discrete k i) [
    | yes s ↦
        let one : waiting t i ≡ info ∷ w.rest =
          subst (λ j. waiting t j ≡ info ∷ w.rest) s w.oldest in
        let two : waiting t' i ≡ w.rest =
          w.waits i h
          ∙ subst (λ j. (if k == j then w.rest else waiting t j) ≡ w.rest) s
              (rw (==_refl k) refl) in
        let c : (k == i) ≡ true = ground arith in rw (one, c) (ap (λ l. info ∷ l) (rw two at e))
    | no s ↦
        let two : waiting t' i ≡ waiting t i = w.waits i h ∙ rw (==_ne k i s) refl in
        rw (==_ne k i s) (rw two at e)
  ]

polled-IsValid :
    {t : Thread} {r : Polled × Thread}
    → IsValid t
    → Delivered t 1 65 r
    → IsValid r.1 × (r.1.sig ≤ t.sig)
polled-IsValid v (idle q) = (v, omega arith)
polled-IsValid v (gave a b h d q w) = (w.valid, omega (arith, w.fewer))

-- Nothing is lost, doubled or reordered among the records of a real-time signal: over a run of
-- sends, polls and changes of the mask of a well-formed thread, what the polls gave of it, followed
-- by what waits at the end, is what waited at the start followed by what was sent. No allocation
-- fails, and fewer than 2 ^ 31 signals are counted.
pub run_fifo :
    (i : ℕ) (ops : List Op) {t : Thread}
    → HasPlace i
    → sigrtmin ≤ i
    → IsValid t
    → AllPlaced ops
    → t.sig + length ops < 2 ^ 31
    → delivered i (run ops t).0 ++ waiting (run ops t).1 i ≡ waiting t i ++ sent i ops
unfolding run
run_fifo i [] {t} h high v a small = sym (append-nil (waiting t i))
run_fifo i (send sig info ∷ ops) {t} h high v a small =
    let s = send_signal_thread-Sent sig info v a.0 (omega arith) in
    run_fifo i ops h high s.valid a.1 (omega (arith, s.grown))
    ∙ appended_one i h high sig info (sent i ops) s
run_fifo i (poll ∷ ops) {t} h high v a small =
    let d = poll_signal-Delivered t v (omega arith) in
    let k = polled-IsValid v d in
    polled_one i h high (run ops (poll_signal t).1).0 (run ops (poll_signal t).1).1 d (sent i ops)
      (run_fifo i ops h high k.0 a (omega (arith, k.1)))
run_fifo i (block m ∷ ops) {t} h high v a small =
    run_fifo i ops h high (masked-IsValid m v) a (unfold update_signal_mask in omega arith)
    ∙ unfold update_signal_mask waiting in refl
