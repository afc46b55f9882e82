-- ===== src/Pipe/Tests.antt =====
-- A pipe with an empty buffer and two calls on it.
use pml.Common.{ℕ, ◌<◌, ◌≡◌, refl, false, List, [], ◌∷◌, arith, replicate, length, length-replicate}
use pml.Pipe.{Pipe, pipe_size, must_wait, resume, got, wrote, wait}
use pml.Pipe.Queue.{IsValid, length-contents}
use pml.Pipe.Refine.{
  Op, do_read, do_write, run, queue_run, queue_step, view, read, write, run_refines_queue,
}
use pml.Pipe.Race.{resume_overflow}

abbrev empty : Pipe
empty = record { buffer = replicate pipe_size 0; start = 0; end = 0; widowed = false }

empty-IsValid : IsValid empty
empty-IsValid = record {
  sized = length-replicate {A = ℕ} pipe_size 0;
  ordered = omega arith;
  inside = omega arith;
}

abbrev talk : List Op
talk = do_write (1 ∷ 2 ∷ 3 ∷ []) ∷ do_read 2 ∷ do_read 2 ∷ do_read 9 ∷ do_read 9 ∷ []

-- the reads of two bytes give the same two
run-talk :
    queue_run talk (record { bytes = []; closed = false })
    ≡ wrote 3 ∷ got (1 ∷ 2 ∷ []) ∷ got (1 ∷ 2 ∷ []) ∷ got (1 ∷ 2 ∷ 3 ∷ []) ∷ wait ∷ []
unfolding queue_run queue_step read write
run-talk = refl

run_refines_queue_example : run talk empty ≡ queue_run talk (view empty)
run_refines_queue_example = run_refines_queue talk empty-IsValid

-- a pipe with room for 768 bytes, and two writes of 500
abbrev crowded : Pipe
crowded = record empty { end = 32000 }

crowded-IsValid : IsValid crowded
crowded-IsValid = record {
  sized = length-replicate {A = ℕ} pipe_size 0;
  ordered = omega arith;
  inside = omega arith;
}

abbrev line : List ℕ
line = replicate 500 7

roomy : must_wait (length line) crowded ≡ false
unfolding must_wait
roomy = refl

resume_overflow_example : pipe_size < length (resume line (resume line crowded).1).1.buffer
resume_overflow_example =
    resume_overflow line line crowded-IsValid roomy roomy
      (omega (arith, length-contents crowded-IsValid))
