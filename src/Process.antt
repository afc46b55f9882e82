-- ===== src/Process.antt =====
-- The process queue and the family of the processes in kernel/process.c. A process is known by its ID;
-- its threads, its descriptors and its memory, which `process_free` gives back, are not modelled here.
pub mod Family
pub mod Turn
mod Tests
use pml.Common.{
  ℕ, zero, suc, ◌+◌, ◌-◌, ◌≡◌, ◌≢◌, Bool, true, false, not, ◌&&◌, ◌||◌, Option, none, some, List,
  [], ◌∷◌, ◌++◌, ◌==◌, ltb, leb, if◌then◌else◌, update, length, take, drop, get_or,
}

-- `struct wait_state` without the use of resources
pub record WaitState : Type 0 where
  pub pid : ℕ
  pub pgid : ℕ
  pub status : ℕ
  pub code : ℕ

pub record Process : Type 0 where
  pub pid : ℕ
  pub ppid : ℕ
  pub pgid : ℕ
  pub children : List ℕ
  pub waits : List WaitState

-- what `lookup_pid` finds
abbrev pub Pids : Type 0
Pids = ℕ → Option Process

-- `struct process_queue`. The length is that of the list, but see `process_enqueue`.
pub record Queue : Type 0 where
  pub queue : List Process
  pub len : ℕ
  pub front : ℕ

-- The loop that takes a process out of its parent's list.
pub remove_child : ℕ → List ℕ → List ℕ
remove_child pid [] = []
remove_child pid (c ∷ cs) = let rest = remove_child pid cs in if c == pid then cs else c ∷ rest

-- `child->ppid = 1`, if the process is there
abbrev pub reparent : Option Process → ℕ → Pids → Pids
reparent none c t = t
reparent (some p) c t = update t c (some (record p { ppid = 1 }))

-- The loop that gives the children of a process to the process 1.
pub adopt : List ℕ → Pids → Pids
adopt [] t = t
adopt (c ∷ cs) t = adopt cs (reparent (t c) c t)

-- The parts of `process_free`, with the parent, and with the process 1, if they are there.
abbrev pub leave_parent : Option Process → Process → Pids → Pids
leave_parent none p t = t
leave_parent (some q) p t =
    update t p.ppid (some (record q { children = remove_child p.pid q.children }))

abbrev pub leave_children : Option Process → Process → Pids → Pids
leave_children none p t = t
leave_children (some q) p t =
    adopt p.children (update t 1 (some (record q { children = q.children ++ p.children })))

pub process_free : Process → Pids → Pids
process_free p t =
    let t0 = update t p.pid none in
    let t1 = leave_parent (t0 p.ppid) p t0 in
    if length p.children == 0 then t1 else leave_children (t1 1) p t1

-- The process leaves the queue at an index.
pub process_exit : (index : ℕ) → Process → Queue × Pids → Queue × Pids
process_exit index p (q, t) = (
  record {
    queue = take index q.queue ++ drop (suc index) q.queue;
    len = q.len - 1;
    front = if ltb index q.front then q.front - 1 else q.front;
  },
  process_free p t,
)

-- The length grows before the allocation that may fail.
pub process_enqueue : (memory : Bool) → Process → Queue × Pids → Bool × (Queue × Pids)
process_enqueue memory p (q, t) =
    if memory
    then (
      true,
      (
        record { queue = q.queue ++ (p ∷ []); len = q.len + 1; front = q.front },
        update t p.pid (some p),
      ),
    )
    else (false, (record q { len = q.len + 1 }, t))

-- The state of a process that ends goes to its parent, with the parent's process group.
pub process_fill_wait : (mode status : ℕ) → Process → Pids → Pids
process_fill_wait mode status p t = elim (t p.ppid) [
  | none ↦ t
  | some q ↦
      let w : WaitState = record { pid = p.pid; pgid = q.pgid; status = mode; code = status } in
      update t p.ppid (some (record q { waits = q.waits ++ (w ∷ []) }))
]
