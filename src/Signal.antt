-- ===== src/Signal.antt =====
-- The signals of kernel/signal.c: sets of signals, the signals that wait in a thread, and the
-- actions of a process. The code of the current thread or process takes that one as its argument.
pub mod Set
pub mod Valid
pub mod Send
pub mod Queue
pub mod Poll
pub mod Lowest
pub mod Fifo
pub mod Mask
pub mod Action
pub mod Choose
mod Tests
use pml.Common.{
  ℕ, zero, suc, ◌+◌, ◌-◌, ◌%◌, ◌^◌, Bool, true, false, not, ◌&&◌, ◌||◌, Option, none, some, List,
  [], ◌∷◌, ◌++◌, bit_and, bit_or, ltb, leb, ◌==◌, if◌then◌else◌, get_or, set, take, drop, replicate,
  length,
}
use pml.Common.Int.{ℤ, pos, negsuc}
use pml.Errno.{Result, ok, err, Done, done, einval}

-- `NSIG` and `SIGRTMIN`
abbrev pub nsig : ℕ
nsig = 64

abbrev pub sigrtmin : ℕ
sigrtmin = 32

abbrev pub sigkill : ℕ
sigkill = 9

abbrev pub sigstop : ℕ
sigstop = 19

-- `1UL << (NSIG - sig)`: the count of a 64-bit shift is taken modulo 64.
abbrev pub mask : ℕ → ℕ
mask sig = 2 ^ ((nsig - sig % 64) % 64)

unfoldable pub sigemptyset : ℕ
sigemptyset = 0

unfoldable pub sigfillset : ℕ
sigfillset = 0xffffffffffffffff

pub sigaddset : ℕ → ℕ → ℕ
sigaddset s sig = bit_or s (mask sig)

pub sigdelset : ℕ → ℕ → ℕ
sigdelset s sig = bit_and s (2 ^ 64 - 1 - mask sig)

pub sigismember : ℕ → ℕ → Bool
sigismember s sig = not (bit_and s (mask sig) == 0)

-- `siginfo_t` as it is filled for a signal that a process or the kernel sends
pub record SigInfo : Type 0 where
  pub si_signo : ℕ
  pub si_code : ℕ
  pub si_errno : ℕ
  pub si_pid : ℕ
  pub si_uid : ℕ

abbrev pub no_info : SigInfo
no_info = record { si_signo = 0; si_code = 0; si_errno = 0; si_pid = 0; si_uid = 0 }

-- `struct rtsig_queue`: the block that `queue` points to, and `len`
pub record RtQueue : Type 0 where
  pub queue : List SigInfo
  pub len : ℕ

abbrev pub no_queue : RtQueue
no_queue = record { queue = []; len = 0 }

-- The fields of `struct thread` that signals use. `sig` is an `int`, as a number below 2 ^ 32.
pub record Thread : Type 0 where
  pub running : Bool
  pub sig : ℕ
  pub sigblocked : ℕ
  pub sigpending : ℕ
  pub sigready : ℕ
  pub siginfo : List SigInfo
  pub rtqueue : List RtQueue
  pub handler : ℕ
  pub hflags : ℕ
  pub hsig : ℕ
  pub hmask : ℕ

-- `realloc` to so many records; what is new holds nothing yet.
pub resize : List SigInfo → ℕ → List SigInfo
resize queue n = take n (queue ++ replicate n no_info)

abbrev pub queue_of : Thread → ℕ → RtQueue
queue_of t sig = get_or t.rtqueue (sig - sigrtmin) no_queue

-- The mark of a signal in `sigpending` and `sigready`.
pub mark_signal : ℕ → Thread → Thread
mark_signal sig t = record t {
  sigpending = if sigismember t.sigblocked sig then sigaddset t.sigpending sig else t.sigpending;
  sigready = sigaddset t.sigready sig;
}

-- `memory` says whether `realloc` succeeds.
pub queue_signal : (memory : Bool) → ℕ → SigInfo → Thread → Thread
queue_signal memory sig info t =
    let q = queue_of t sig in
    let n = (q.len + 1) % 2 ^ 64 in
    if memory
    then record t {
      rtqueue =
          set t.rtqueue (sig - sigrtmin)
            (record { queue = set (resize q.queue n) (n - 1) info; len = n });
      sig = (t.sig + 1) % 2 ^ 32;
    }
    else record t { rtqueue = set t.rtqueue (sig - sigrtmin) (record q { len = n }) }

pub send_signal_thread : (memory : Bool) → ℕ → SigInfo → Thread → Thread
send_signal_thread memory sig info t =
    if sigismember t.sigready sig && ltb sig sigrtmin
    then t
    else if ltb sig sigrtmin
    then (let t' = mark_signal sig t in
        record t' { siginfo = set t'.siginfo (sig - 1) info; sig = (t'.sig + 1) % 2 ^ 32 })
    else queue_signal memory sig info (mark_signal sig t)

-- `memmove (queue, queue + 1, len)`
pub shift_queue : List SigInfo → ℕ → List SigInfo
shift_queue queue len = take len (drop 1 queue) ++ drop len queue

-- the signal that `poll_signal` returns, and what it copies to the page of signal information
abbrev pub Polled : Type 0
Polled = ℕ × Option SigInfo

-- What the loop does with the signal that it stops at.
pub take_signal : ℕ → Thread → Polled × Thread
take_signal i t =
    let q = queue_of t i in
    let n = (q.len + (2 ^ 64 - 1)) % 2 ^ 64 in
    if ltb i sigrtmin
    then (
      (i, some (get_or t.siginfo (i - 1) no_info)),
      record t { sigready = sigdelset t.sigready i; sig = (t.sig + (2 ^ 32 - 1)) % 2 ^ 32 },
    )
    else (
      (i, some (get_or q.queue 0 no_info)),
      record t {
        sigready = if n == 0 then sigdelset t.sigready i else t.sigready;
        rtqueue = set t.rtqueue (i - sigrtmin) (record { queue = shift_queue q.queue n; len = n });
        sig = (t.sig + (2 ^ 32 - 1)) % 2 ^ 32;
      },
    )

abbrev pub deliverable : Thread → ℕ → Bool
deliverable t i = sigismember t.sigready i && not (sigismember t.sigblocked i)

-- the loop from the signal `i` on, for so many signals
pub poll_from : (rounds i : ℕ) → Thread → Polled × Thread
poll_from zero i t = ((0, none), t)
poll_from (suc r) i t =
    let rest = poll_from r (i + 1) t in if deliverable t i then take_signal i t else rest

pub poll_signal : Thread → Polled × Thread
poll_signal t = if t.sig == 0 then ((0, none), t) else poll_from nsig 1 t

-- `SA_NODEFER`, tested in `hflags`
abbrev pub sa_nodefer : ℕ
sa_nodefer = 32

-- The handler, its signal, the mask to restore, and the thread.
pub poll_signal_handler : Thread → (ℕ × ℕ × ℕ) × Thread
poll_signal_handler t =
    let blocked = bit_or t.sigblocked t.hmask in
    (
      (t.handler, t.hsig, t.sigblocked),
      record t {
        sigblocked = if bit_and t.hflags sa_nodefer == 0 then sigaddset blocked t.hsig else blocked;
        sigready = sigdelset t.sigready t.sig;
        sig = 0;
        handler = 0;
        hflags = 0;
        hsig = 0;
        hmask = sigemptyset;
      },
    )

pub update_signal_mask : ℕ → Thread → Thread
update_signal_mask m t = record t { sigblocked = m }

-- `SIG_BLOCK`, `SIG_UNBLOCK`, `SIG_SETMASK`, and any other number
pub data How : Type 0 where
  block unblock setmask other : How

-- `none` for a null `set`. The old mask is what is written to `old_set`.
pub sigprocmask : How → Option ℕ → Thread → Done × (ℕ × Thread)
sigprocmask how none t = (done, (t.sigblocked, t))
sigprocmask block (some s) t =
    (done, (t.sigblocked, record t { sigblocked = bit_or t.sigblocked s }))
sigprocmask unblock (some s) t =
    (done, (t.sigblocked, record t { sigblocked = bit_and t.sigblocked (2 ^ 64 - 1 - s) }))
sigprocmask setmask (some s) t = (done, (t.sigblocked, record t { sigblocked = s }))
sigprocmask other (some s) t = (err einval, (t.sigblocked, t))

-- `struct sigaction`
pub record SigAction : Type 0 where
  pub sa_handler : ℕ
  pub sa_sigaction : ℕ
  pub sa_flags : ℕ
  pub sa_mask : ℕ

abbrev pub default_action : SigAction
default_action = record { sa_handler = 0; sa_sigaction = 0; sa_flags = 0; sa_mask = 0 }

-- the test of the signal number that both calls make
abbrev pub refused : ℤ → Bool
refused (negsuc _) = true
refused (pos sig) = sig == 0 || (ltb nsig sig || (sig == sigkill || sig == sigstop))

abbrev pub action_index : ℤ → ℕ
action_index (negsuc _) = 0
action_index (pos sig) = sig - 1

-- The old action and the handlers, of `sys_sigaction` with a place for the old action.
pub sigaction : ℤ → Option SigAction → List SigAction → Result SigAction × List SigAction
sigaction sig act handlers =
    let old = get_or handlers (action_index sig) default_action in
    if refused sig
    then (err einval, handlers)
    else (ok old, elim act [ none ↦ handlers | some a ↦ set handlers (action_index sig) a ])

-- The old handler, or `SIG_ERR`.
pub signal : ℤ → (handler : ℕ) → List SigAction → Result ℕ × List SigAction
signal sig handler handlers =
    let act = record default_action { sa_handler = handler } in
    if refused sig
    then (err einval, handlers)
    else (let (r, handlers') = sigaction sig (some act) handlers in
        elim r [ ok old ↦ (ok old.sa_handler, handlers') | err e ↦ (err e, handlers') ])

-- The index of the first thread that passes a test.
pub find_thread : (Thread → Bool) → List Thread → Option ℕ
find_thread test [] = none
find_thread test (t ∷ ts) =
    let rest = find_thread test ts in
    if test t then some 0 else elim rest [ none ↦ none | some i ↦ some (i + 1) ]

-- The three tests of `send_signal`, in order.
abbrev pub blocks : ℕ → Thread → Bool
blocks sig t = t.running && (not (sigismember t.sigpending sig) && sigismember t.sigblocked sig)

abbrev pub not_pending : ℕ → Thread → Bool
not_pending sig t = t.running && not (sigismember t.sigpending sig)

-- The thread that gets the signal: the first one as a last resort.
pub choose_thread : ℕ → List Thread → ℕ
choose_thread sig ts = elim (find_thread (blocks sig) ts) [
  | some i ↦ i
  | none ↦ elim (find_thread (not_pending sig) ts) [
    | some i ↦ i
    | none ↦ elim (find_thread (λ t. t.running) ts) [ some i ↦ i | none ↦ 0 ]
  ]
]

abbrev pub no_thread : Thread
no_thread = record {
  running = false;
  sig = 0;
  sigblocked = 0;
  sigpending = 0;
  sigready = 0;
  siginfo = [];
  rtqueue = [];
  handler = 0;
  hflags = 0;
  hsig = 0;
  hmask = 0;
}

pub send_signal : (memory : Bool) → ℕ → SigInfo → List Thread → List Thread
send_signal memory sig info ts =
    let i = choose_thread sig ts in
    set ts i (send_signal_thread memory sig info (get_or ts i no_thread))
