-- ===== src/Mmap/Tests.antt =====
-- Two regions, and calls that change them. Every other part of the kernel succeeds.
use pml.Common.{ℕ, ◌+◌, ◌-◌, ◌≡◌, refl, sym, ◌∙◌, true, false, none, some, List, [], ◌∷◌, arith}
use pml.Heap.{align_up}
use pml.Mmap.{
  Region, Machine, given, find_region_before, find_region_before_equal, unmap_pages, truncate,
  clear_rest, clear_behind, clear_mappings, map_pages, protect_pages, fill, install, check,
  check_access, place_after, place_from, place, sys_mmap, sys_munmap, page_size, user_mem_top,
}
use pml.Mmap.Area.{Row, covers}
use pml.Mmap.Clear.{Clears, clear_mappings-Clears}
use pml.Mmap.Insert.{Mmaps, sys_mmap-Mmaps}

-- the state is the number of pages that are mapped
abbrev counting : Machine ℕ
counting = record {
  unmap = λ a m. (true, m - 1);
  map = λ a f m. (true, m + 1);
  protect = λ a f m. (true, m);
  discard = λ a m. m - 1;
  read = λ v a c o m. (true, m);
  write = λ v a c o m. (true, m);
  free_procfd = λ f m. m;
  file_fd = λ f m. none;
  hold = λ f m. m;
  realloc = λ c m. (true, m);
}

abbrev pages : ℕ → ℕ → Region
pages base len = record {
  base = base;
  len = len;
  prot = 3;
  file = none;
  fd = 0;
  offset = 0;
  flags = 6;
}

abbrev two : List Region
two = pages 0x400000000000 0x2000 ∷ (pages 0x400000004000 0x1000 ∷ [])

two-Row : Row 0 two user_mem_top
two-Row = (omega arith, omega arith, (omega arith, omega arith, omega arith))

clear_mappings-Clears_example :
    Clears 0x400000001000
      (0x400000001000 + 0x4000)
      0
      user_mem_top
      two
      (clear_mappings counting 0x400000001000 0x4000 true two 3)
clear_mappings-Clears_example =
    clear_mappings-Clears counting 0x400000001000 0x4000 user_mem_top true two 3 two-Row
      (omega arith) (omega arith)

rounded_page : align_up 8000 page_size ≡ 8192
unfolding align_up
rounded_page = refl

two_found : find_region_before_equal 0x400000000000 0 two ≡ some 0
unfolding find_region_before_equal
two_found = refl

sys_mmap-Mmaps_example :
    Mmaps (align_up 8000 page_size) two (sys_mmap counting 0 8000 3 6 0 0 two 3)
sys_mmap-Mmaps_example =
    sys_mmap-Mmaps counting 0 8000 3 6 0 0 two 3 two-Row refl (omega arith)
      (omega (arith, rounded_page)) (omega (arith, rounded_page))
      (λ e. absurd (ground (arith, sym two_found ∙ e)))

-- the region goes into the gap
mmap_gap : (sys_mmap counting 0 8000 3 6 0 0 two 3).0 ≡ given 0x400000002000
unfolding sys_mmap align_up check check_access place place_from place_after find_region_before_equal
    install map_pages protect_pages fill
mmap_gap = refl

-- what is behind the area of a region around it goes too
munmap_middle :
    covers 0x400000003000
      (sys_munmap counting 0x400000001000 0x1000 (pages 0x400000000000 0x8000 ∷ []) 8).1
    ≡ false
unfolding sys_munmap clear_mappings clear_behind truncate clear_rest find_region_before unmap_pages
munmap_middle = refl

-- Below every region the address is taken as it is, and the new region is over the next one.
mmap_overlap : (sys_mmap counting 0x3ffffffff000 0x4000 3 6 0 0 two 3).0 ≡ given 0x3ffffffff000
unfolding sys_mmap align_up check check_access place place_from place_after find_region_before_equal
    install map_pages protect_pages fill
mmap_overlap = refl
