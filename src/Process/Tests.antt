-- ===== src/Process/Tests.antt =====
-- Process 1 with the child 5, which has the child 7.
use pml.Common.{
  ℕ, ◌<◌, ◌≡◌, refl, sym, ap, ◌∙◌, true, false, none, some, List, [], ◌∷◌, ◌==◌, arith,
  if◌then◌else◌, get_or, length, inl, inr, Bool-cases,
}
use mathlib.Core.Path.{subst}
use pml.Process.{
  Process, Pids, Queue, remove_child, adopt, process_free, process_exit, process_enqueue,
  process_fill_wait,
}
use pml.Process.Family.{Linked, has, from_some, process_free-Linked}
use pml.Process.Turn.{process_exit-turn}

abbrev process : (pid ppid : ℕ) → List ℕ → Process
process pid ppid children = record {
  pid = pid;
  ppid = ppid;
  pgid = pid;
  children = children;
  waits = [];
}

abbrev three : Pids
three pid =
    if pid == 1
    then some (process 1 0 (5 ∷ []))
    else if pid == 5
    then some (process 5 1 (7 ∷ []))
    else if pid == 7
    then some (process 7 5 [])
    else none

-- a process with a parent that is there
listed :
    (c : ℕ) (x y p q : Process)
    → some x ≡ some p
    → three x.ppid ≡ some y
    → three p.ppid ≡ some q
    → has c y.children ≡ true
    → has c q.children ≡ true
listed c x y p q e g f h =
    let z : some y ≡ some q = sym g ∙ ap (λ (k : Process). three k.ppid) (from_some x p e) ∙ f in
    subst (λ (k : Process). has c k.children ≡ true) (from_some y q z) h

three-Linked : Linked three
three-Linked c p q e f = elim (Bool-cases (c == 1)) [
  | inl a ↦
      let x : some (process 1 0 (5 ∷ [])) ≡ some p = rw a at e in
      let n : none ≡ some q =
        ap (λ (k : Process). three k.ppid) (from_some (process 1 0 (5 ∷ [])) p x) ∙ f in
      absurd (ground (arith, n))
  | inr a ↦ elim (Bool-cases (c == 5)) [
    | inl b ↦
        let x : some (process 5 1 (7 ∷ [])) ≡ some p = rw (a, b) at e in
        listed c (process 5 1 (7 ∷ [])) (process 1 0 (5 ∷ [])) p q x refl f (ground arith)
    | inr b ↦ elim (Bool-cases (c == 7)) [
      | inl d ↦
          let x : some (process 7 5 []) ≡ some p = rw (a, b, d) at e in
          listed c (process 7 5 []) (process 5 1 (7 ∷ [])) p q x refl f (ground arith)
      | inr d ↦ let x : none ≡ some p = rw (a, b, d) at e in absurd (ground (arith, x))
    ]
  ]
]

process_free-Linked_example : Linked (process_free (process 5 1 (7 ∷ [])) three)
process_free-Linked_example = process_free-Linked (process 5 1 (7 ∷ [])) three three-Linked

-- the child goes to process 1
adopted : process_free (process 5 1 (7 ∷ [])) three 1 ≡ some (process 1 0 (7 ∷ []))
unfolding process_free adopt remove_child
adopted = refl

abbrev queue : Queue
queue = record {
  queue = process 1 0 (5 ∷ []) ∷ (process 5 1 (7 ∷ []) ∷ (process 7 5 [] ∷ []));
  len = 3;
  front = 2;
}

process_exit-turn_example :
    let r = (process_exit 1 (process 5 1 (7 ∷ [])) (queue, three)).0 in
    (get_or r.queue r.front (process 0 0 []) ≡ get_or queue.queue queue.front (process 0 0 []))
    × (r.len ≡ length r.queue)
    × (r.front < r.len)
process_exit-turn_example =
    process_exit-turn 1 (process 5 1 (7 ∷ [])) (process 0 0 []) queue three refl (omega arith)
      (omega arith) (λ e. omega (arith, e))

-- The state of a child has the process group of its parent.
group_of_parent :
    process_fill_wait 0 3 (process 7 5 []) three 5
    ≡ some (record {
      pid = 5;
      ppid = 1;
      pgid = 5;
      children = 7 ∷ [];
      waits = record { pid = 7; pgid = 5; status = 0; code = 3 } ∷ [];
    })
unfolding process_fill_wait
group_of_parent = refl

-- After an allocation that fails, the length is more than that of the queue.
enqueue_failed : (process_enqueue false (process 9 1 []) (queue, three)).1.0.len ≡ 4
unfolding process_enqueue
enqueue_failed = refl
