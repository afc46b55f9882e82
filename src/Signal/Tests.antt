-- ===== src/Signal/Tests.antt =====
-- Signals at a thread with nothing pending, and at some of its successors.
use pml.Common.{
  ℕ, ◌-◌, ◌≡◌, ◌≢◌, ◌↔◌, refl, ◌∙◌, ap, true, false, not, ◌&&◌, ◌||◌, none, some, List, [], ◌∷◌,
  ◌++◌, ◌==◌, arith, replicate, get_or-replicate, bit_and, get_or,
}
use pml.Common.Int.{pos}
use pml.Errno.{ok, err, einval}
use Prim.Native.Nat.{bit_and-bitwise}
use pml.Signal.{
  SigInfo, no_info, RtQueue, no_queue, Thread, queue_of, sigismember, sigaddset, mask,
  send_signal_thread, mark_signal, queue_signal, resize, poll_signal, poll_from, take_signal,
  sigdelset, sigprocmask, block, unblock, setmask, poll_signal_handler, update_signal_mask,
  sa_nodefer, SigAction, default_action, sigaction, signal, refused, choose_thread, blocks,
  shift_queue,
}
use pml.Signal.Set.{member-add}
use pml.Signal.Valid.{IsValid, waiting, total}
use pml.Signal.Queue.{send_signal_thread-Sent}
use pml.Signal.Send.{Sent}
use pml.Signal.Lowest.{Delivered, poll_signal-Delivered}
use pml.Signal.Fifo.{Op, send, poll, run, delivered, run_fifo}
use pml.Signal.Mask.{
  sigprocmask-member, poll_signal_handler-member, poll_signal-poll_signal_handler,
}
use pml.Signal.Action.{sigaction-sigaction, sigaction-refused}
use pml.Signal.Choose.{thread, choose_thread-running}

abbrev quiet : Thread
quiet = record {
  running = true;
  sig = 0;
  sigblocked = 0;
  sigpending = 0;
  sigready = 0;
  siginfo = replicate 32 no_info;
  rtqueue = replicate 32 no_queue;
  handler = 0;
  hflags = 0;
  hsig = 0;
  hmask = 0;
}

nothing_ready : (i : ℕ) → sigismember 0 i ≡ false
unfolding sigismember
nothing_ready i = ground (arith, bit_and-bitwise 0 (mask i))

no_queues : (i : ℕ) → queue_of quiet i ≡ no_queue
no_queues i = get_or-replicate 32 (i - 32) no_queue

quiet-IsValid : IsValid quiet
unfolding total waiting sigismember
quiet-IsValid = record {
  infos = refl;
  queues = refl;
  filled = λ i h k. omega (arith, ap RtQueue.len (no_queues i));
  marked = λ i h k. nothing_ready i ∙ ground (arith, ap RtQueue.len (no_queues i));
  last = refl;
  counted = refl;
}

abbrev note : ℕ → SigInfo
note n = record no_info { si_pid = n }

abbrev story : List Op
story =
    send 40 (note 1)
    ∷ send 10 (note 2)
    ∷ send 40 (note 3)
    ∷ poll
    ∷ poll
    ∷ send 40 (note 4)
    ∷ poll
    ∷ []

-- SIGUSR1 comes first, then two real-time signals in their order.
run-story :
    (run story quiet).0 ≡ (10, some (note 2)) ∷ (40, some (note 1)) ∷ (40, some (note 3)) ∷ []
unfolding run send_signal_thread mark_signal queue_signal resize poll_signal poll_from take_signal
    shift_queue sigismember sigaddset sigdelset
run-story = refl

run_fifo_example :
    delivered 40 (run story quiet).0 ++ waiting (run story quiet).1 40
    ≡ waiting quiet 40 ++ (note 1 ∷ note 3 ∷ note 4 ∷ [])
run_fifo_example =
    run_fifo 40 story {t = quiet} (omega arith) (omega arith) quiet-IsValid (omega arith)
      (omega arith)

send_signal_thread-Sent_example : Sent 35 (note 7) quiet (send_signal_thread true 35 (note 7) quiet)
send_signal_thread-Sent_example =
    send_signal_thread-Sent 35 (note 7) {t = quiet} quiet-IsValid (omega arith) (omega arith)

told : Thread
told = send_signal_thread true 35 (note 7) quiet

told-Sent : Sent 35 (note 7) quiet told
unfolding told
told-Sent =
    send_signal_thread-Sent 35 (note 7) {t = quiet} quiet-IsValid (omega arith) (omega arith)

poll_signal-Delivered_example : Delivered told 1 65 (poll_signal told)
poll_signal-Delivered_example =
    poll_signal-Delivered told told-Sent.valid (omega (arith, told-Sent.grown))

member-add_example : sigismember (sigaddset 5 10) 10 ≡ true
member-add_example = member-add 5 10 10 (omega arith) (omega arith)

sigprocmask-member_example :
    (sigismember (sigprocmask block (some 6) quiet).1.1.sigblocked 62
      ≡ (sigismember 0 62 || sigismember 6 62))
    × (sigismember (sigprocmask unblock (some 6) quiet).1.1.sigblocked 62
        ≡ (sigismember 0 62 && not (sigismember 6 62)))
    × (sigismember (sigprocmask setmask (some 6) quiet).1.1.sigblocked 62 ≡ sigismember 6 62)
sigprocmask-member_example = sigprocmask-member 6 quiet 62 (omega arith)

abbrev about_to_handle : Thread
about_to_handle = record quiet { sig = 2; sigready = 7; hsig = 10; hmask = 8; handler = 4096 }

poll_signal_handler-member_example :
    let ((_, _, saved), t') = poll_signal_handler about_to_handle in
    (sigismember t'.sigblocked 10
      ≡ (sigismember 0 10 || (sigismember 8 10 || (bit_and 0 sa_nodefer == 0 && 10 == 10))))
    × (sigismember (update_signal_mask saved t').sigblocked 10 ≡ sigismember 0 10)
poll_signal_handler-member_example =
    poll_signal_handler-member about_to_handle 10 (omega arith) (omega arith)

poll_signal-poll_signal_handler_example :
    (sigismember (poll_signal_handler about_to_handle).1.sigready 63 ≡ sigismember 7 63)
    × (poll_signal (poll_signal_handler about_to_handle).1
        ≡ ((0, none), (poll_signal_handler about_to_handle).1))
poll_signal-poll_signal_handler_example =
    poll_signal-poll_signal_handler about_to_handle 63 (omega arith) (omega arith) (omega arith)

abbrev actions : List SigAction
actions = replicate 64 default_action

abbrev catch : SigAction
catch = record default_action { sa_handler = 4096 }

sigaction-sigaction_example :
    let handlers' = (sigaction (pos 15) (some catch) actions).1 in
    ((sigaction (pos 15) (some catch) actions).0 ≡ ok (get_or actions 14 default_action))
    × (sigaction (pos 15) none handlers' ≡ (ok catch, handlers'))
    × (◌≢◌ {A = ℕ} 14 3 → get_or handlers' 3 default_action ≡ get_or actions 3 default_action)
sigaction-sigaction_example = sigaction-sigaction 15 3 catch actions (omega arith) refl

sigaction-refused_example :
    ((sigaction (pos 9) (some catch) actions ≡ (err einval, actions)) ↔ (refused (pos 9) ≡ true))
    × ((signal (pos 9) 4096 actions ≡ (err einval, actions)) ↔ (refused (pos 9) ≡ true))
sigaction-refused_example = sigaction-refused (pos 9) catch 4096 actions

abbrev pair_of_threads : List Thread
pair_of_threads = record quiet { running = false } ∷ quiet ∷ []

choose_thread-running_example :
    ((thread pair_of_threads 1).running ≡ true
      → (thread pair_of_threads (choose_thread 10 pair_of_threads)).running ≡ true)
    × (blocks 10 (thread pair_of_threads 1) ≡ true
        → blocks 10 (thread pair_of_threads (choose_thread 10 pair_of_threads)) ≡ true)
choose_thread-running_example = choose_thread-running 10 pair_of_threads 1 (omega arith)
