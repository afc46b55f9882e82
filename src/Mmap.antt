-- ===== src/Mmap.antt =====
-- The memory regions of a process in kernel/mman.c. The page tables, the files and the allocator are
-- another part of the kernel: what the calls do to them is an argument, `Machine`, whose operations say
-- whether they succeed.
pub mod Find
pub mod Area
pub mod Clear
pub mod Place
pub mod Insert
mod Tests
use pml.Common.{
  ℕ, zero, suc, ◌+◌, ◌-◌, ◌*◌, ◌%◌, ◌^◌, Bool, true, false, not, ◌&&◌, ◌||◌, Option, none, some,
  List, [], ◌∷◌, ◌++◌, bit_and, bit_or, ◌==◌, ltb, leb, if◌then◌else◌, length, take, drop, set,
  get_or,
}
use pml.Errno.{Errno, Result, ok, err, Done, done, ebadf, enomem, eacces, einval, enotsup}
use pml.Heap.{align_up}

-- `struct fd`, as far as the calls read it, with the mode and the size of its vnode
pub record OpenFile : Type 0 where
  pub vnode : ℕ
  pub mode : ℕ
  pub size : ℕ
  pub flags : ℕ

-- `struct mmap`
pub record Region : Type 0 where
  pub base : ℕ
  pub len : ℕ
  pub prot : ℕ
  pub file : Option OpenFile
  pub fd : ℕ
  pub offset : ℕ
  pub flags : ℕ

-- What the calls use of the rest of the kernel; true is success.
pub record Machine (M : Type 0) : Type 0 where
  -- `vm_unmap_page`, then `free_page` and `vm_clear_page`
  pub unmap : (addr : ℕ) → M → Bool × M
  -- `alloc_page`, in `sys_mmap` then `memset`, and `vm_map_page` with the flags
  pub map : (addr flags : ℕ) → M → Bool × M
  -- `vm_map_page` with the flags, of the page that is there, then `vm_clear_page`
  pub protect : (addr flags : ℕ) → M → Bool × M
  -- `free_page`, `vm_unmap_page`, `vm_clear_page`
  pub discard : (addr : ℕ) → M → M
  -- `vfs_read` and `vfs_write`
  pub read : (vnode addr count offset : ℕ) → M → Bool × M
  pub write : (vnode addr count offset : ℕ) → M → Bool × M
  pub free_procfd : (fd : ℕ) → M → M
  -- the entry of a descriptor
  pub file_fd : (fd : ℕ) → M → Option OpenFile
  -- one reference more to the file of a descriptor
  pub hold : (fd : ℕ) → M → M
  -- `realloc` of the table
  pub realloc : (count : ℕ) → M → Bool × M

abbrev pub page_size : ℕ
page_size = 4096

abbrev pub user_mmap_base : ℕ
user_mmap_base = 0x400000000000

abbrev pub user_mem_top : ℕ
user_mem_top = 0x800000000000

-- The address behind some bytes wraps around.
abbrev pub end_of : ℕ → ℕ → ℕ
end_of base len = (base + len) % 2 ^ 64

-- The index of the last region of the table whose base is below the address (or equal to it), from the
-- index `i` on; none stands for -1.
abbrev pub last_index : ℕ → Option ℕ
last_index zero = none
last_index (suc i) = some i

pub find_region_before : (base i : ℕ) → List Region → Option ℕ
find_region_before base i [] = last_index i
find_region_before base i (r ∷ rs) =
    let rest = find_region_before base (suc i) rs in if leb base r.base then last_index i else rest

pub find_region_before_equal : (base i : ℕ) → List Region → Option ℕ
find_region_before_equal base i [] = last_index i
find_region_before_equal base i (r ∷ rs) =
    let rest = find_region_before_equal base (suc i) rs in
    if ltb base r.base then last_index i else rest

-- `ri + 1`
abbrev pub start_after : Option ℕ → ℕ
start_after none = 0
start_after (some i) = suc i

-- what a read past the table gives, which no call makes
abbrev pub no_region : Region
no_region = record { base = 0; len = 0; prot = 0; file = none; fd = 0; offset = 0; flags = 0 }

-- A call gives a value, or fails: with an `errno` of its own, or as another part of the kernel did.
pub data Answer : Type 0 where
  given : ℕ → Answer
  refused : Errno → Answer
  failed : Answer

-- The search of `sys_mmap` for a gap, from the region with the index `i` on: the address of the new
-- region and its index.
pub place_after : (len i : ℕ) → Region → List Region → ℕ × ℕ
place_after len i r [] = (end_of r.base r.len, suc i)
place_after len i r (next ∷ rs) =
    let rest = place_after len (suc i) next rs in
    if leb len ((next.base + 2 ^ 64 - end_of r.base r.len) % 2 ^ 64)
    then (end_of r.base r.len, suc i)
    else rest

-- from the search for the region behind the address on
pub place_from : (base len : ℕ) → Option ℕ → List Region → ℕ × ℕ
place_from base len none t = (base, 0)
place_from base len (some i) t = place_after len i (get_or t i no_region) (drop (suc i) t)

pub place : (base len : ℕ) → List Region → ℕ × ℕ
place base len t = place_from base len (find_region_before_equal base 0 t) t

-- The tests of `sys_mmap` on its arguments, up to the test of the address. An offset is a number of 64
-- bits, negative from 2 ^ 63 on.
pub check_file : Option OpenFile → (offset : ℕ) → Option Errno
check_file none offset = some ebadf
check_file (some f) offset =
    if not (bit_and f.mode 0xf000 == 0x8000)
    then some eacces
    else if leb (2 ^ 63) offset || (ltb f.size offset || not (bit_and offset (page_size - 1) == 0))
    then some einval
    else none

pub check_access : Option OpenFile → (prot : ℕ) → Option Errno
check_access none prot = none
check_access (some f) prot =
    if bit_and prot 2 == 0 && bit_and f.flags 3 == 1
    then some eacces
    else if bit_and prot 1 == 0 && bit_and f.flags 3 == 0
    then some eacces
    else none

pub check : Option OpenFile → (addr len prot flags offset : ℕ) → Option Errno
check file addr len prot flags offset =
    let shared = bit_and flags 1 == 0 in
    let private = bit_and flags 2 == 0 in
    elim (if bit_and flags 4 == 0 then check_file file offset else none) [
      | some e ↦ some e
      | none ↦ if len == 0 then some einval else elim (check_access file prot) [
        | some e ↦ some e
        | none ↦
            if (shared && private) || (not shared && not private)
            then some einval
            else if not (bit_and addr (page_size - 1) == 0)
            then some einval
            else none
      ]
    ]

module _ {M : Type 0} (k : Machine M) where
  -- The loops over the pages from an address up to another; it grows in each round, so the distance
  -- bounds the rounds.
  pub unmap_pages : (rounds addr end : ℕ) → M → Bool × M
  unmap_pages zero addr end m = (true, m)
  unmap_pages (suc n) addr end m =
      let (good, m1) = k.unmap addr m in
      let rest = unmap_pages n (addr + page_size) end m1 in
      if ltb addr end then (if good then rest else (false, m1)) else (true, m)

  -- A write of a part of a region to its file, if it has one.
  pub sync_part : Region → (addr count offset : ℕ) → M → Bool × M
  sync_part r addr count offset m = elim r.file [
    | none ↦ (true, m)
    | some f ↦ k.write f.vnode addr count offset m
  ]

  -- the loop of `sync_mappings`, from a region of the table on
  pub sync_rest : (ptr len : ℕ) → List Region → M → Bool × M
  sync_rest ptr len [] m = (true, m)
  sync_rest ptr len (r ∷ rs) m =
      let (good, m1) = sync_part r r.base r.len r.offset m in
      let rest = sync_rest ptr len rs m1 in
      let (good_start, m2) =
        sync_part r r.base ((end_of ptr len + 2 ^ 64 - r.base) % 2 ^ 64) r.offset m in
      let rest_start = sync_rest ptr len rs m2 in
      if leb (end_of r.base r.len) (end_of ptr len)
      then (if good then rest else (false, m1))
      else if ltb r.base (end_of ptr len)
      then (if good_start then rest_start else (false, m2))
      else (true, m)

  -- what `sync_mappings` does with the last region below the address
  pub sync_last : (ptr : ℕ) → Option ℕ → List Region → M → Bool × M
  sync_last ptr none t m = (true, m)
  sync_last ptr (some i) t m =
      let r = get_or t i no_region in
      let last = end_of r.base r.len in
      if ltb ptr last
      then sync_part r ptr (last - ptr) ((r.offset + ptr + 2 ^ 64 - r.base) % 2 ^ 64) m
      else (true, m)

  pub sync_mappings : (ptr len : ℕ) → List Region → M → Bool × M
  sync_mappings ptr len t m =
      let ri = find_region_before ptr 0 t in
      let (good, m1) = sync_last ptr ri t m in
      if good then sync_rest ptr len (drop (start_after ri) t) m1 else (false, m1)

  -- The last region below the address loses what is behind it. Its length is set before the loop.
  pub truncate : (ptr : ℕ) → Option ℕ → List Region → M → Bool × List Region × M
  truncate ptr none t m = (true, t, m)
  truncate ptr (some i) t m =
      let r = get_or t i no_region in
      let cut = set t i (record r { len = ptr - r.base }) in
      let from = end_of r.base (ptr - r.base) in
      let (good, m1) = unmap_pages (ptr - from) from ptr m in
      if ltb ptr (end_of r.base r.len) then (good, cut, m1) else (true, t, m)

  -- `free_procfd` for a region of a file
  pub release : Region → M → M
  release r m = elim r.file [ none ↦ m | some f ↦ k.free_procfd r.fd m ]

  -- the loop of `clear_mappings`, from a region of the table on; it gives what is left of them
  pub clear_rest : (ptr len : ℕ) → List Region → M → Bool × List Region × M
  clear_rest ptr len [] m = (true, [], m)
  clear_rest ptr len (r ∷ rs) m =
      let end = end_of ptr len in
      let last = end_of r.base r.len in
      let diff = (end + 2 ^ 64 - r.base) % 2 ^ 64 in
      let (good, m1) = unmap_pages (last - r.base) r.base last m in
      let rest = clear_rest ptr len rs (release r m1) in
      let (good_start, m3) = unmap_pages (end - r.base) r.base end m in
      let (done_rest, kept, m4) = clear_rest ptr len rs m3 in
      let moved = record r {
        base = end;
        len = (r.len + 2 ^ 64 - diff) % 2 ^ 64;
        offset = (r.offset + diff) % 2 ^ 64;
      } in
      if leb last end
      then (if good then rest else (false, r ∷ rs, m1))
      else if ltb r.base end
      then (if good_start then (done_rest, moved ∷ kept, m4) else (false, r ∷ rs, m3))
      else (true, r ∷ rs, m)

  -- What `clear_mappings` does after the cut of the region with the index `ri`. Every region behind it
  -- is looked at once: the loop goes back by one when it removes a region.
  pub clear_behind : (ptr len : ℕ) → Option ℕ → Bool × List Region × M → Bool × List Region × M
  clear_behind ptr len ri (false, t, m) = (false, t, m)
  clear_behind ptr len ri (true, t, m) =
      let (cleared, rs, m1) = clear_rest ptr len (drop (start_after ri) t) m in
      (cleared, take (start_after ri) t ++ rs, m1)

  pub clear_mappings : (ptr len : ℕ) → (sync : Bool) → List Region → M → Bool × List Region × M
  clear_mappings ptr len sync t m =
      let (good, m0) = if sync then sync_mappings ptr len t m else (true, m) in
      let ri = find_region_before ptr 0 t in
      if not good then (false, t, m0) else clear_behind ptr len ri (truncate ptr ri t m0)

  pub map_pages : (rounds addr end flags : ℕ) → M → Bool × ℕ × M
  map_pages zero addr end flags m = (true, addr, m)
  map_pages (suc n) addr end flags m =
      let (good, m1) = k.map addr flags m in
      let rest = map_pages n (addr + page_size) end flags m1 in
      if ltb addr end then (if good then rest else (false, addr, m1)) else (true, addr, m)

  pub protect_pages : (rounds addr end flags : ℕ) → M → Bool × M
  protect_pages zero addr end flags m = (true, m)
  protect_pages (suc n) addr end flags m =
      let (good, m1) = k.protect addr flags m in
      let rest = protect_pages n (addr + page_size) end flags m1 in
      if ltb addr end then (if good then rest else (false, m1)) else (true, m)

  pub discard_pages : (rounds addr end : ℕ) → M → M
  discard_pages zero addr end m = m
  discard_pages (suc n) addr end m =
      let rest = discard_pages n (addr + page_size) end (k.discard addr m) in
      if ltb addr end then rest else m

  pub expand_mmap : (addr len : ℕ) → List Region → M → Answer × List Region × M
  expand_mmap addr len0 t m = elim (find_region_before_equal addr 0 t) [
    | none ↦ (refused enomem, t, m)
    | some i ↦
        let r = get_or t i no_region in
        let len = align_up len0 page_size in
        let from = end_of r.base r.len in
        let end = end_of r.base len in
        let (good, ptr, m1) = map_pages (end - from) from end 6 m in
        if good
        then (given 0, set t i (record r { len = len }), m1)
        else (refused enomem, t, discard_pages (ptr - r.base) r.base ptr m1)
  ]

  -- `vfs_read` into a region of a file, and the reference that the region holds
  pub fill : (bytes : ℕ) → Region → M → Bool × M
  fill bytes r m = elim r.file [
    | none ↦ (true, m)
    | some f ↦ k.read f.vnode r.base bytes r.offset m
  ]

  pub hold_file : Region → M → M
  hold_file r m = elim r.file [ none ↦ m | some f ↦ k.hold r.fd m ]

  -- From "Map the region" of `sys_mmap` on, with the place of the new region in the table.
  pub install : (bytes : ℕ) → Region → (i : ℕ) → List Region → M → Answer × List Region × M
  install bytes r i t m =
      let end = end_of r.base r.len in
      let user = if r.prot == 0 then 0 else 4 in
      let pflags = if bit_and r.prot 2 == 0 then user else user + 2 in
      let first = r.base - r.base % page_size in
      let (mapped, ptr, m1) = map_pages (end - r.base) r.base end 2 m in
      let (filled, m2) = fill bytes r m1 in
      let (protected, m3) = protect_pages (end - r.base) r.base end pflags m2 in
      let (grown, m4) = k.realloc (length t + 1) m3 in
      if leb user_mem_top end
      then (refused einval, t, m)
      else if not mapped
      then (failed, t, discard_pages (ptr - first) first ptr m1)
      else if not filled
      then (failed, t, m2)
      else if not protected
      then (failed, t, discard_pages (ptr - first) first ptr m3)
      else if not grown
      then (failed, t, discard_pages (ptr - first) first ptr m4)
      else (given r.base, take i t ++ (r ∷ drop i t), hold_file r m4)

  -- the tests of the arguments, then the rest of the call
  abbrev pub unless_refused :
      Option Errno → List Region → M → (rest : Answer × List Region × M) → Answer × List Region × M
  unless_refused (some e) t m rest = (refused e, t, m)
  unless_refused none t m rest = rest

  pub sys_mmap : (addr len prot flags fd offset : ℕ) → List Region → M → Answer × List Region × M
  sys_mmap addr len0 prot flags fd offset t m =
      let file = if bit_and flags 4 == 0 then k.file_fd fd m else none in
      let len = align_up len0 page_size in
      let base = if addr == 0 then user_mmap_base else addr in
      let region : ℕ → Region = λ b. record {
        base = b;
        len = len;
        prot = prot;
        file = file;
        fd = fd;
        offset = offset;
        flags = flags;
      } in
      let (cleared, t1, m1) = clear_mappings addr len true t m in
      let (b, i) = place base len t in
      unless_refused (check file addr len0 prot flags offset) t m (
        if bit_and flags 64 == 0
        then install len0 (region b) i t m
        else if cleared
        then install len0 (region base) (start_after (find_region_before base 0 t1)) t1 m1
        else (failed, t1, m1))

  pub sys_munmap : (addr len : ℕ) → List Region → M → Answer × List Region × M
  sys_munmap addr len t m =
      let (cleared, t1, m1) = clear_mappings addr len false t m in
      if not (bit_and addr (page_size - 1) == 0) || not (bit_and len (page_size - 1) == 0)
      then (refused einval, t, m)
      else (if cleared then given 0 else failed, t1, m1)

  pub sys_msync : (addr len flags : ℕ) → List Region → M → Answer × M
  sys_msync addr len flags t m =
      let (synced, m1) = sync_mappings addr len t m in
      let async = not (bit_and flags 1 == 0) in
      if not (bit_and addr (page_size - 1) == 0)
        || (async && not (bit_and flags 2 == 0) || bit_and flags 7 == 0)
      then (refused einval, m)
      else if async
      then (refused enotsup, m)
      else (if synced then given 0 else failed, m1)
