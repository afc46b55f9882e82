-- ===== src/Process/Turn.antt =====
-- The process whose turn it is stays the same when another one leaves the queue.
use pml.Common.{
  ℕ, zero, suc, ◌-◌, ◌<◌, ◌≡◌, ◌≢◌, refl, ap, sym, ◌∙◌, true, false, List, [], ◌∷◌, ◌++◌, ltb,
  if◌then◌else◌, length, take, drop, get_or, arith, inl, inr, Bool-cases,
}
use pml.Process.{Process, Pids, Queue, process_exit}

get_or-removed :
    (xs : List Process) (i j : ℕ) (d : Process)
    → get_or (take i xs ++ drop (suc i) xs) j d ≡ get_or xs (if ltb j i then j else suc j) d
get_or-removed [] zero j d = refl
get_or-removed [] (suc i) j d = refl
get_or-removed (x ∷ xs) zero j d = let z : ltb j 0 ≡ false = ground arith in rw z refl
get_or-removed (x ∷ xs) (suc i) zero d = let z : ltb 0 (suc i) ≡ true = ground arith in rw z refl
get_or-removed (x ∷ xs) (suc i) (suc j) d = elim (Bool-cases (ltb j i)) [
  | inl b ↦
      let z : ltb (suc j) (suc i) ≡ true = ground arith in
      rw z (get_or-removed xs i j d ∙ rw b refl)
  | inr b ↦
      let z : ltb (suc j) (suc i) ≡ false = ground arith in
      rw z (get_or-removed xs i j d ∙ rw b refl)
]

length-removed :
    (xs : List Process) (i : ℕ)
    → i < length xs
    → length (take i xs ++ drop (suc i) xs) ≡ length xs - 1
length-removed [] i l = absurd (omega arith)
length-removed (x ∷ xs) zero l = omega arith
length-removed (x ∷ xs) (suc i) l = omega (arith, length-removed xs i (omega arith))

-- process_exit of a process other than the one whose turn it is: the turn stays with the same process,
-- the length is that of the queue, and the front is in the queue.
pub process_exit-turn :
    (index : ℕ) (p d : Process) (q : Queue) (t : Pids)
    → q.len ≡ length q.queue
    → index < q.len
    → q.front < q.len
    → index ≢ q.front
    → let r = (process_exit index p (q, t)).0 in
      (get_or r.queue r.front d ≡ get_or q.queue q.front d)
      × (r.len ≡ length r.queue)
      × (r.front < r.len)
unfolding process_exit
process_exit-turn index p d q t e l m n = elim (Bool-cases (ltb index q.front)) [
  | inl b ↦
      let z : suc (q.front - 1) ≡ q.front = ground arith in
      let k : ltb (q.front - 1) index ≡ false = ground arith in
      let g = get_or-removed q.queue index (q.front - 1) d in
      rw b (g ∙ rw (k, z) refl, e' l, ground arith)
  | inr b ↦
      let k : ltb q.front index ≡ true = ground arith in
      let g = get_or-removed q.queue index q.front d in rw b (g ∙ rw k refl, e' l, ground arith)
]
  where
    e' : index < q.len → q.len - 1 ≡ length (take index q.queue ++ drop (suc index) q.queue)
    e' l = ap (λ (x : ℕ). x - 1) e ∙ sym (length-removed q.queue index (omega arith))
