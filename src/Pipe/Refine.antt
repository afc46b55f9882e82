-- ===== src/Pipe/Refine.antt =====
-- A pipe is a queue of bytes: reading and writing give what an abstract pipe gives.
use pml.Common.{
  ℕ, ◌+◌, ◌≤◌, ◌≡◌, refl, ◌∙◌, sym, Bool, true, false, List, [], ◌∷◌, ◌++◌, ltb, leb, Bool-cases,
  inl, inr, ◌==◌, if◌then◌else◌, arith, length, take, drop, take-take, take_le,
}
use pml.Pipe.{
  Pipe, pipe_size, Reply, got, wrote, broken, no_space, wait, sub_size, pipe_read, pipe_write,
  place, compact, resume, must_wait,
}
use pml.Pipe.Queue.{
  contents, IsValid, length-contents, real_len, place-IsValid, place-contents, compact-IsValid,
  compact-contents,
}

-- The abstract pipe: the bytes that are not read yet, and whether an end is gone.
pub record Queue : Type 0 where
  pub bytes : List ℕ
  pub closed : Bool

unfoldable pub view : Pipe → Queue
view p = record { bytes = contents p; closed = p.widowed }

-- A read of all the bytes takes them; a shorter read leaves them all.
unfoldable pub read : ℕ → Queue → Reply × Queue
read len q =
    if q.closed
    then (got [], q)
    else if length q.bytes == 0
    then (wait, q)
    else (got (take len q.bytes), if leb (length q.bytes) len then record q { bytes = [] } else q)

unfoldable pub write : List ℕ → Queue → Reply × Queue
write bytes q =
    if q.closed
    then (broken, q)
    else if ltb pipe_size (length bytes)
    then (no_space, q)
    else if ltb pipe_size (length q.bytes + length bytes)
    then (wait, q)
    else (wrote (length bytes), record q { bytes = q.bytes ++ bytes })

-- A call gives what the abstract pipe gives, and leaves the pipe as the abstract one and well-formed.
pub record Does (r : Reply × Pipe) (s : Reply × Queue) : Type 0 where
  pub reply : r.0 ≡ s.0
  pub left : view r.1 ≡ s.1
  pub valid : IsValid r.1

-- a case of one test on both sides
if-Does :
    (b : Bool) {x y : Reply × Pipe} {x' y' : Reply × Queue}
    → (b ≡ true → Does x x')
    → (b ≡ false → Does y y')
    → Does (if b then x else y) (if b then x' else y')
if-Does true f g = f refl
if-Does false f g = g refl

take_min : (len n : ℕ) (xs : List ℕ) → take (if ltb n len then n else len) xs ≡ take len (take n xs)
take_min len n xs = elim (Bool-cases (ltb n len)) [
  | inl e ↦ let l : n ≤ len = ground arith in rw e (sym (take_le len n xs l))
  | inr e ↦ rw e (sym (take-take len n xs (ground arith)))
]

module _ {p : Pipe} (v : IsValid p) where
  pub real_len-contents : sub_size p.end p.start ≡ length (contents p)
  real_len-contents = real_len v ∙ sym (length-contents v)

  empty-contents : (p.start == p.end) ≡ (length (contents p) == 0)
  empty-contents = ground (arith, v.ordered, length-contents v)

  taken :
      (len : ℕ)
      → take
          (if ltb (length (contents p)) len then length (contents p) else len)
          (drop p.start p.buffer)
        ≡ take len (contents p)
  unfolding contents
  taken len =
      take_min len (length (contents p)) (drop p.start p.buffer) ∙ rw (length-contents v) refl

  same : (r : Reply) → Does (r, p) (r, view p)
  same r = record { reply = refl; left = refl; valid = v }

  emptied : IsValid (record p { start = 0; end = 0 })
  emptied = record { sized = v.sized; ordered = omega arith; inside = omega arith }

  got-Does :
      (bytes : List ℕ) (all : Bool)
      → Does
          (got bytes, if all then record p { start = 0; end = 0 } else p)
          (got bytes, if all then record (view p) { bytes = [] } else view p)
  unfolding view contents
  got-Does bytes true = record { reply = refl; left = refl; valid = emptied }
  got-Does bytes false = same (got bytes)

  pub pipe_read-Does : (len : ℕ) → Does (pipe_read len p) (read len (view p))
  unfolding read view pipe_read
  pipe_read-Does len =
      rw (real_len-contents, taken len, empty-contents)
        (if-Does p.widowed (λ _. same (got []))
          (λ _.
            if-Does (length (contents p) == 0) (λ _. same wait)
              (λ _. got-Does (take len (contents p)) (leb (length (contents p)) len))))

  fits : (len : ℕ) → ltb (sub_size pipe_size p.end) len ≡ false → p.end + len ≤ pipe_size
  fits len e = ground (arith, v.inside)

  pub must_wait-contents : (len : ℕ) → must_wait len p ≡ ltb pipe_size (length (contents p) + len)
  unfolding must_wait
  must_wait-contents len = ground (arith, v.inside, v.ordered, length-contents v)

  appended :
      (bytes : List ℕ)
      → p.end + length bytes ≤ pipe_size
      → Does (place bytes p) (wrote (length bytes), record (view p) { bytes = contents p ++ bytes })
  unfolding view place
  appended bytes l = record {
    reply = refl;
    left = rw (place-contents v bytes l) refl;
    valid = place-IsValid v bytes l;
  }

  pub resumed :
      (bytes : List ℕ)
      → length (contents p) + length bytes ≤ pipe_size
      → Does
          (resume bytes p)
          (wrote (length bytes), record (view p) { bytes = contents p ++ bytes })
  unfolding view resume place compact
  resumed bytes l = record {
    reply = refl;
    left = rw (place-contents (compact-IsValid v) bytes room, compact-contents v) refl;
    valid = place-IsValid (compact-IsValid v) bytes room;
  }
    where
      room : (compact p).end + length bytes ≤ pipe_size
      room = omega (arith, real_len-contents)

  full_or_not :
      (bytes : List ℕ)
      → Does
          (if ltb (sub_size pipe_size p.end) (length bytes)
            then (if must_wait (length bytes) p then (wait, p) else resume bytes p)
            else place bytes p)
          (if ltb pipe_size (length (contents p) + length bytes)
            then (wait, view p)
            else (wrote (length bytes), record (view p) { bytes = contents p ++ bytes }))
  full_or_not bytes = elim (Bool-cases (ltb (sub_size pipe_size p.end) (length bytes))) [
    | inl e ↦
        rw (e, must_wait-contents (length bytes))
          (if-Does _ (λ _. same wait) (λ f. resumed bytes (ground arith)))
    | inr e ↦
        let l = fits (length bytes) e in
        let f : ltb pipe_size (length (contents p) + length bytes) ≡ false =
          ground (arith, v.ordered, length-contents v) in
        rw (e, f) (appended bytes l)
  ]

  pub pipe_write-Does : (bytes : List ℕ) → Does (pipe_write bytes p) (write bytes (view p))
  unfolding view write pipe_write
  pipe_write-Does bytes =
      if-Does p.widowed (λ _. same broken)
        (λ _. if-Does (ltb pipe_size (length bytes)) (λ _. same no_space) (λ _. full_or_not bytes))

-- A call on a pipe by the process at one of its ends.
pub data Op : Type 0 where
  do_read : ℕ → Op
  do_write : List ℕ → Op

pub step : Op → Pipe → Reply × Pipe
step (do_read len) p = pipe_read len p
step (do_write bytes) p = pipe_write bytes p

unfoldable pub queue_step : Op → Queue → Reply × Queue
queue_step (do_read len) q = read len q
queue_step (do_write bytes) q = write bytes q

pub run : List Op → Pipe → List Reply
run [] p = []
run (o ∷ os) p = let (r, p') = step o p in r ∷ run os p'

unfoldable pub queue_run : List Op → Queue → List Reply
queue_run [] q = []
queue_run (o ∷ os) q = let (r, q') = queue_step o q in r ∷ queue_run os q'

step-Does : (o : Op) {p : Pipe} → IsValid p → Does (step o p) (queue_step o (view p))
unfolding step queue_step
step-Does (do_read len) v = pipe_read-Does v len
step-Does (do_write bytes) v = pipe_write-Does v bytes

-- Any sequence of reads and writes on a well-formed pipe gives the replies of the abstract pipe.
pub run_refines_queue : (os : List Op) {p : Pipe} → IsValid p → run os p ≡ queue_run os (view p)
unfolding run queue_run
run_refines_queue [] v = refl
run_refines_queue (o ∷ os) {p} v =
    let d = step-Does o v in rw (d.reply, run_refines_queue os d.valid, d.left) refl
