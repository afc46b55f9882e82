-- ===== src/Heap.antt =====
-- The kernel heap of kernel/heap.c. Headers and tails stand in two maps, by their addresses, which
-- never collide in a heap of blocks; the contents of the blocks are not modelled. The lock is held
-- from the first access of the heap to the last one of each function, so a function is one step.
pub mod Blocks
pub mod Edit
pub mod Fit
pub mod Alloc
pub mod Malloc
pub mod Merge
pub mod Free
pub mod Release
pub mod Realloc
pub mod Resize
pub mod Init
mod Tests
use pml.Common.{
  ℕ, zero, suc, ◌+◌, ◌-◌, ◌*◌, ◌%◌, ◌^◌, Bool, true, false, not, ◌&&◌, ◌||◌, bit_and, bit_or, ◌==◌,
  ltb, leb, if◌then◌else◌, update,
}
use pml.Errno.{Errno, Result, ok, err, Done, done, einval, enomem, euclean, efault}

-- `struct kh_header` and `struct kh_tail`, of 16 bytes each
pub record Header : Type 0 where
  pub magic : ℕ
  pub flags : ℕ
  pub size : ℕ

pub record Tail : Type 0 where
  pub magic : ℕ
  pub reserved : ℕ
  pub header : ℕ

abbrev pub header_magic : ℕ
header_magic = 0x07242005

abbrev pub tail_magic : ℕ
tail_magic = 0xdeadc0de

-- `sizeof (struct kh_header) + sizeof (struct kh_tail)`
abbrev pub overhead : ℕ
overhead = 32

-- `KH_MIN_BLOCK_SPLIT_SIZE` and `KH_DEFAULT_ALIGN`
abbrev pub min_split : ℕ
min_split = 32

abbrev pub default_align : ℕ
default_align = 16

pub record Heap : Type 0 where
  pub base_addr : ℕ
  pub end_addr : ℕ
  pub headers : ℕ → Header
  pub tails : ℕ → Tail

abbrev pub set_header : ℕ → Header → Heap → Heap
set_header i x h = record h { headers = update h.headers i x }

abbrev pub set_tail : ℕ → Tail → Heap → Heap
set_tail i x h = record h { tails = update h.tails i x }

-- a tail that is written whole
abbrev pub new_tail : ℕ → Tail
new_tail header = record { magic = tail_magic; reserved = 0; header = header }

-- a write of one field
abbrev pub set_size : ℕ → ℕ → Heap → Heap
set_size i n h = set_header i (record (h.headers i) { size = n }) h

abbrev pub set_owner : ℕ → ℕ → Heap → Heap
set_owner i header h = set_tail i (record (h.tails i) { header = header }) h

-- `ALIGN_UP` and `IS_P2` of include/stdlib.h
unfoldable pub align_up : ℕ → ℕ → ℕ
align_up x a = (bit_or ((x + (2 ^ 64 - 1)) % 2 ^ 64) ((a + (2 ^ 64 - 1)) % 2 ^ 64) + 1) % 2 ^ 64

pub is_p2 : ℕ → Bool
is_p2 x = not (x == 0) && bit_and x (x - 1) == 0

-- `memory` before the call has no part in the result.
pub init : (memory : Heap) → (base size : ℕ) → Heap
init memory base size =
    set_tail (base + size - 16) (new_tail base)
      (record (set_header base (record { magic = header_magic; flags = 0; size = size - overhead })
        memory) { base_addr = base; end_addr = base + size })

-- The first half of what `kh_alloc_aligned` does with a header that fits: the room in front of the
-- aligned block becomes a block of its own or a part of the previous one. It gives the aligned header.
pub split_front : (header tail block align : ℕ) → Heap → ℕ × Heap
split_front header tail block align h =
    let diff0 = block - 16 - header in
    let cramped = ltb 0 diff0 && (ltb diff0 overhead && header == h.base_addr) in
    let aligned = if cramped then block - 16 + align else block - 16 in
    let diff = if cramped then diff0 + align else diff0 in
    let old = h.headers header in
    let moved = set_header aligned (record old { size = (old.size + 2 ^ 64 - diff) % 2 ^ 64 }) h in
    let front =
      set_tail (aligned - 16) (new_tail header) (set_size header (diff - overhead) moved) in
    let first = set_tail (h.base_addr + 16 + (diff - overhead)) (new_tail h.base_addr) (
      set_header h.base_addr (record { magic = header_magic; flags = 0; size = diff - overhead })
        moved) in
    let prev = moved.tails (header - 16) in
    let grown = set_size prev.header (((moved.headers prev.header).size + diff) % 2 ^ 64) moved in
    let previous = set_tail (aligned - 16) (grown.tails (header - 16)) grown in
    if ltb (min_split + overhead) diff
    then (aligned, front)
    else if diff == 0
    then (aligned, moved)
    else if ltb (header - 16) h.base_addr
    then (aligned, set_owner tail aligned first)
    else (aligned, set_owner tail aligned previous)

-- The second half, for the header that was found: the room behind the block becomes a free block.
pub split_back : (header tail size : ℕ) → Heap → Heap
split_back header tail size h =
    let whole = h.headers header in
    let end = header + 16 + size in
    let rest : Header = record {
      magic = header_magic;
      flags = whole.flags;
      size = whole.size - size - overhead;
    } in
    let cut =
      set_size header size (
        set_owner tail (end + 16)
          (set_header (end + 16) rest (set_tail end (new_tail header) h))) in
    if leb (size + overhead + min_split) whole.size then cut else h

-- `header->flags |= KH_FLAG_ALLOC`
abbrev pub mark : ℕ → Heap → Heap
mark i h = set_header i (record (h.headers i) { flags = bit_or (h.headers i).flags 1 }) h

-- What the search of `kh_alloc_aligned` finds: a header with its tail and aligned block, or an error.
-- `endless` is what the model says when its rounds run out.
pub data Search : Type 0 where
  fits : (header tail block : ℕ) → Search
  failed : Search
  broken : Search
  endless : Search

pub search_fit : (rounds : ℕ) → (size align header : ℕ) → Heap → Search
search_fit zero size align header h = endless
search_fit (suc r) size align header h =
    let x = h.headers header in
    let tail = header + x.size + 16 in
    let block = align_up (header + 16) align in
    let next = search_fit r size align (tail + 16) h in
    if leb h.end_addr header
    then failed
    else if not (x.magic == header_magic)
    then broken
    else if not ((h.tails tail).magic == tail_magic) || not ((h.tails tail).header == header)
    then broken
    else if bit_and x.flags 1 == 0 && (ltb block tail && leb size (tail - block))
    then fits header tail block
    else next

-- The pointer, or NULL with `errno`. `out_of_rounds` is no outcome of the code.
pub data Outcome : Type 0 where
  given : ℕ → Outcome
  null : Errno → Outcome
  out_of_rounds : Outcome

-- A block has at least 32 bytes, so the length of the heap bounds the rounds of the search.
pub kh_alloc_aligned : (size align : ℕ) → Heap → Outcome × Heap
kh_alloc_aligned size0 align h =
    let size = align_up size0 default_align in
    if not (is_p2 align)
    then (null einval, h)
    else elim (search_fit (h.end_addr - h.base_addr + 1) size align h.base_addr h) [
      | failed ↦ (null enomem, h)
      | broken ↦ (null euclean, h)
      | endless ↦ (out_of_rounds, h)
      | fits header tail block ↦
          let (aligned, h1) = split_front header tail block align h in
          (given block, mark aligned (split_back aligned tail size h1))
    ]

-- `malloc` of util/malloc.c
pub malloc : ℕ → Heap → Outcome × Heap
malloc size h = kh_alloc_aligned size default_align h

-- The two merges of `kh_free`: with the block in front, which gives the header of the result, and with
-- the block behind. They test whether the flags of the two blocks are the same.
pub merge_front : (header : ℕ) → Heap → ℕ × Heap
merge_front header h =
    let owner = (h.tails (header - 16)).header in
    let x = h.headers header in
    let joined =
      set_owner (header + 16 + x.size) owner
        (set_size owner ((h.headers owner).size + x.size + overhead) h) in
    if leb h.base_addr (header - 16) && x.flags == (h.headers owner).flags
    then (owner, joined)
    else (header, h)

pub merge_back : (header : ℕ) → Heap → Heap
merge_back header h =
    let x = h.headers header in
    let behind = header + overhead + x.size in
    let y = h.headers behind in
    let joined =
      set_owner (behind + 16 + y.size) header (set_size header (x.size + overhead + y.size) h) in
    if ltb behind h.end_addr && x.flags == y.flags then joined else h

-- `header->flags &= ~KH_FLAG_ALLOC`
abbrev pub unmark : ℕ → Heap → Heap
unmark i h =
    set_header i (record (h.headers i) { flags = bit_and (h.headers i).flags (2 ^ 32 - 2) }) h

pub kh_free : ℕ → Heap → Done × Heap
kh_free ptr h =
    let (header, h1) = merge_front (ptr - 16) (unmark (ptr - 16) h) in
    if ptr == 0
    then (done, h)
    else if not ((h.headers (ptr - 16)).magic == header_magic)
    then (err efault, h)
    else (done, merge_back header h1)

-- The branch of `kh_realloc` that takes room from the block behind.
pub take_behind : (header size : ℕ) → Heap → Heap
take_behind header size h =
    let x = h.headers header in
    let behind = header + overhead + x.size in
    let y = h.headers behind in
    let behind_tail = behind + 16 + y.size in
    let extra = overhead + y.size in
    let end = header + 16 + size in
    let rest : Header = record {
      magic = header_magic;
      flags = bit_and x.flags (2 ^ 32 - 2);
      size = x.size + y.size - size;
    } in
    if leb (overhead + min_split) (extra - (size - x.size))
    then set_owner behind_tail (end + 16)
        (set_size header size (set_header (end + 16) rest (set_tail end (new_tail header) h)))
    else set_size header (x.size + extra) (set_owner behind_tail header h)

-- The branch that gives room back.
pub give_back : (header size : ℕ) → Heap → Heap
give_back header size h =
    let x = h.headers header in
    let end = header + 16 + size in
    let rest : Header = record {
      magic = header_magic;
      flags = bit_and x.flags (2 ^ 32 - 2);
      size = x.size - size - overhead;
    } in
    set_size header size (
      set_owner (header + 16 + x.size) (end + 16)
        (set_header (end + 16) rest (set_tail end (new_tail header) h)))

-- The branch that moves the block, by what the allocation gives. Its bytes are copied, which is not
-- modelled.
pub move : (ptr : ℕ) → Outcome × Heap → Outcome × Heap
move ptr (o, h) = elim o [
  | given p ↦ (given p, (kh_free ptr h).1)
  | null e ↦ (null e, h)
  | out_of_rounds ↦ (out_of_rounds, h)
]

pub kh_realloc : (ptr size : ℕ) → Heap → Outcome × Heap
kh_realloc ptr size0 h =
    let size = align_up size0 default_align in
    let header = ptr - 16 in
    let x = h.headers header in
    let behind = header + overhead + x.size in
    let y = h.headers behind in
    let new = kh_alloc_aligned size default_align h in
    if ptr == 0
    then kh_alloc_aligned size0 default_align h
    else if not (x.magic == header_magic)
    then (null efault, h)
    else if bit_and x.flags 1 == 0
    then new
    else if ltb x.size size
    then (if ltb behind h.end_addr
          && (bit_and y.flags 1 == 0 && leb size (x.size + overhead + y.size))
        then (given ptr, take_behind header size h)
        else move ptr new)
    else if leb (overhead + min_split) (x.size - size)
    then (given ptr, give_back header size h)
    else (given ptr, h)
