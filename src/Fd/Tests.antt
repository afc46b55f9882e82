-- ===== src/Fd/Tests.antt =====
-- The tables at small states.
use pml.Common.{
  ℕ, ◌+◌, ◌≤◌, ◌≡◌, refl, true, none, some, [], ◌∷◌, arith, replicate, length-replicate,
  get_or-replicate, ap,
}
use pml.Fd.{
  FdTable, System, File, blank, slot, system_fd_table_size, first, widen, alloc_procfd, alloc_fd,
  free_fd, free_altprocfd, fill_fd, fd, file_fd,
}
use pml.Fd.Alloc.{count, IsValid, Ended, alloc_fd-Ended}
use pml.Fd.Free.{Freed, free_fd-Freed}
use pml.Fd.Slots.{Procfd, alloc_procfd-Procfd}
use pml.Fd.Dup.{dupfd, fcntl, f_dupfd, attach, next64_p2}
use pml.Fd.Dup.Keep.{fcntl-Agree}
use pml.Common.Int.{pos}
use pml.Errno.{ok}
use pml.Fd.Count.{Agree, free_altprocfd-Agree, fill_fd-Agree}

-- The system with no open file, and a process with a table of four slots.
abbrev fresh : System
fresh = record { system_fd_table = replicate system_fd_table_size blank; fd_table_start = 0 }

abbrev four : FdTable
four = record { table = replicate 4 none; curr = 0; size = 4; max_size = 16 }

fresh-IsValid : IsValid fresh
fresh-IsValid = record {
  sized = length-replicate {A = File} system_fd_table_size blank;
  start_in = omega arith;
  below = λ i h. absurd (omega arith);
}

no_refs : (j : ℕ) → count fresh j ≡ 0
no_refs j = ap File.count (get_or-replicate system_fd_table_size j blank)

empty-Agree : Agree (λ _. 0) four fresh
empty-Agree = record {
  files = fresh-IsValid;
  sized = refl;
  counted = λ j. omega (arith, no_refs j);
  small = λ j. omega (arith, no_refs j);
}

-- A table of full slots is doubled.
widens :
    (alloc_procfd true (record { table = some 5 ∷ []; curr = 0; size = 1; max_size = 9 })).0 ≡ fd 1
unfolding alloc_procfd first widen
widens = refl

alloc_fd-Ended_example : Ended fresh (alloc_fd fresh)
alloc_fd-Ended_example = alloc_fd-Ended fresh fresh-IsValid

alloc_procfd-Procfd_example : Procfd true four (alloc_procfd true four)
alloc_procfd-Procfd_example = alloc_procfd-Procfd true four refl (omega arith)

abbrev four' : FdTable
four' = record four { curr = 1 }

abbrev fresh' : System
fresh' = (alloc_fd fresh).1

fill_fd-Agree_example :
    let (t₂, s₂) = fill_fd 0 0 77 1 (four', fresh') in Agree (λ _. 0) t₂ s₂ × (slot t₂ 0 ≡ some 0)
unfolding alloc_procfd alloc_fd first
fill_fd-Agree_example = fill_fd-Agree (λ _. 0) true 0 0 77 1 empty-Agree (omega arith) refl refl

opened : FdTable × System
opened = fill_fd 0 0 77 1 (four', fresh')

opened-Agree : Agree (λ _. 0) opened.0 opened.1
unfolding opened alloc_procfd alloc_fd first
opened-Agree =
    (fill_fd-Agree (λ _. 0) true 0 0 77 1 {t' = four'} {s' = fresh'} empty-Agree (omega arith) refl
      refl).0

free_altprocfd-Agree_example :
    let (_, (t₂, s₂)) = free_altprocfd 0 (opened.0, opened.1) in
    Agree (λ _. 0) t₂ s₂ × (slot t₂ 0 ≡ none)
free_altprocfd-Agree_example = free_altprocfd-Agree (λ _. 0) 0 opened-Agree

one_reference : count opened.1 0 ≡ 1
unfolding opened fill_fd alloc_fd first
one_reference = refl

free_fd-Freed_example : Freed 0 opened.1 (free_fd 0 opened.1)
free_fd-Freed_example =
    free_fd-Freed 0 opened.1 opened-Agree.files (omega arith) (omega (arith, one_reference))
      (omega (arith, one_reference))

opened_zero : (file_fd (pos 0) opened.0 ≡ some 0) × (slot opened.0 1 ≡ none) × (opened.0.size ≡ 4)
unfolding opened fill_fd file_fd
opened_zero = (refl, refl, refl)

fcntl-Agree_example :
    let (r, (t₂, s₂)) = fcntl true (pos 0) (f_dupfd 0) (opened.0, opened.1) in
    (r ≡ ok 0)
    × Agree (λ _. 0) t₂ s₂
    × ((n : ℕ) × (0 ≤ n)
        × (n ≤ 1)
        × (slot opened.0 n ≡ none)
        × (slot t₂ n ≡ some 0)
        × (count s₂ 0 ≡ count opened.1 0 + 1))
fcntl-Agree_example =
    fcntl-Agree (λ _. 0) true (pos 0) 0 0 1 opened-Agree opened_zero.0
      (omega (arith, one_reference)) (omega arith) (omega (arith, opened_zero.2)) opened_zero.1

-- With no null slot from 2 on, a table of eight slots is shortened to four.
abbrev crowded : FdTable
crowded = record { table = replicate 8 (some 0); curr = 8; size = 8; max_size = 64 }

shrinks : (dupfd true (pos 0) 2 (crowded, opened.1)).1.0.size ≡ 4
unfolding dupfd first attach file_fd next64_p2
shrinks = refl
