-- ===== src/Heap/Tests.antt =====
-- A heap of 4096 bytes where the kernel has its own, above LOW_PHYSICAL_BASE_VMA, after some calls.
use pml.Common.{◌+◌, ◌≤◌, ◌≡◌, refl, List, [], ◌∷◌, arith, ◌==◌, if◌then◌else◌}
use pml.Errno.{err, euclean, efault}
use pml.Heap.{
  Heap, header_magic, new_tail, init, malloc, kh_alloc_aligned, kh_free, kh_realloc, given, null,
  search_fit, split_front, split_back, merge_front, merge_back, align_up, is_p2,
}
use pml.Heap.Blocks.{Block, IsValid}
use pml.Heap.Edit.{used_block, free_block}
use pml.Heap.Malloc.{Mallocs, malloc-Mallocs}
use pml.Heap.Release.{Freed, kh_free-Freed, live-apart}
use pml.Heap.Realloc.{Reallocs}
use pml.Heap.Resize.{kh_realloc-Reallocs}
use pml.Heap.Init.{init-IsValid}

abbrev blank_memory : Heap
blank_memory = record {
  base_addr = 0;
  end_addr = 0;
  headers = λ i. record { magic = 0; flags = 0; size = 0 };
  tails = λ i. record { magic = 0; reserved = 0; header = 0 };
}

abbrev fresh : Heap
fresh = init blank_memory 0xfffffe0000100000 4096

-- two blocks in use, of 112 and of 208 bytes, and the rest
abbrev parted : Heap
parted = record {
  base_addr = 0xfffffe0000100000;
  end_addr = 0xfffffe0000101000;
  headers = λ i.
      if i == 0xfffffe0000100000
      then record { magic = header_magic; flags = 1; size = 112 }
      else if i == 0xfffffe0000100090
      then record { magic = header_magic; flags = 1; size = 208 }
      else record { magic = header_magic; flags = 0; size = 3680 };
  tails = λ i.
      if i == 0xfffffe0000100080
      then new_tail 0xfffffe0000100000
      else if i == 0xfffffe0000100170
      then new_tail 0xfffffe0000100090
      else new_tail 0xfffffe0000100180;
}

abbrev parts : List Block
parts = used_block 112 ∷ (used_block 208 ∷ (free_block 3680 ∷ []))

parted-IsValid : IsValid parted parts
parted-IsValid = record {
  row = (
    record { head = refl; magic = refl; owner = refl; aligned = refl },
    (
      record { head = refl; magic = refl; owner = refl; aligned = refl },
      (record { head = refl; magic = refl; owner = refl; aligned = refl }, tt),
    ),
  );
  ends = refl;
  base = refl;
  positive = omega arith;
  small = omega arith;
}

init-IsValid_example : IsValid (init blank_memory 0xfffffe0000100000 4096) (free_block 4064 ∷ [])
init-IsValid_example =
    init-IsValid blank_memory 0xfffffe0000100000 4096 refl refl (omega arith) (omega arith)
      (omega arith)

malloc-Mallocs_example : Mallocs parted parts 100 (malloc 100 parted)
malloc-Mallocs_example = malloc-Mallocs parted parts 100 parted-IsValid (omega arith)

kh_free-Freed_example : Freed parted parts 0xfffffe00001000a0 (kh_free 0xfffffe00001000a0 parted)
kh_free-Freed_example = kh_free-Freed parted parts 0xfffffe00001000a0 208 parted-IsValid refl

live-apart_example : 0xfffffe0000100010 + 112 + 32 ≤ 0xfffffe00001000a0
live-apart_example =
    live-apart 0xfffffe0000100000 parts 0xfffffe0000100010 112 0xfffffe00001000a0 208 refl refl
      (omega arith)

kh_realloc-Reallocs_example :
    Reallocs parted parts 0xfffffe00001000a0 1008 (kh_realloc 0xfffffe00001000a0 1000 parted)
kh_realloc-Reallocs_example =
    kh_realloc-Reallocs parted parts 0xfffffe00001000a0 208 1000 parted-IsValid refl (omega arith)

-- the outcome of some calls
malloc_first : (malloc 100 fresh).0 ≡ given 0xfffffe0000100010
unfolding malloc kh_alloc_aligned init search_fit split_front split_back align_up is_p2
malloc_first = refl

malloc_behind : (malloc 100 parted).0 ≡ given 0xfffffe0000100190
unfolding malloc kh_alloc_aligned search_fit split_front split_back align_up is_p2
malloc_behind = refl

free_bad : (kh_free 0xfffffe0000100068 fresh).0 ≡ err efault
unfolding kh_free init merge_front merge_back
free_bad = refl

-- After an aligned allocation that takes all the room behind, the tail still leads to the old header.
after_page : (malloc 1000 (kh_alloc_aligned 3552 512 fresh).1).0 ≡ null euclean
unfolding malloc kh_alloc_aligned init search_fit split_front split_back align_up is_p2
after_page = refl
