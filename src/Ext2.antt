-- ===== src/Ext2.antt =====
-- The bitmaps of the ext2 driver: the structures of include/pml/ext2fs.h and the arithmetic of
-- `uint64_t` on their bounds.
pub mod Bitarray
pub mod Bitmap
use pml.Common.{ℕ, ◌+◌, ◌-◌, ◌%◌, ◌^◌, Bool, Option, List}
use pml.Errno.{Result, Done}

-- sum and difference of two `uint64_t`
abbrev pub add64 : ℕ → ℕ → ℕ
add64 a b = (a + b) % 2 ^ 64

abbrev pub sub64 : ℕ → ℕ → ℕ
sub64 a b = (a + (2 ^ 64 - b)) % 2 ^ 64

-- `struct ext2_bitmap32`, less the magic number
pub record Bitmap32 : Type 0 where
  pub start : ℕ
  pub end : ℕ
  pub real_end : ℕ
  pub bitmap : List ℕ

-- `struct ext2_bitmap64`, less the flags, which these calls do not read. The operations are an
-- argument of the calls; `private` stands for what `private` points to.
pub record Bitmap64 (P : Type 0) : Type 0 where
  pub magic : ℕ
  pub start : ℕ
  pub end : ℕ
  pub real_end : ℕ
  pub cluster_bits : ℕ
  pub private : P

-- `struct ext2_bitmap_ops`, less `free_bmap` and `find_first_set`, which no caller in bitmap.c uses
pub record Ops (P : Type 0) : Type 0 where
  pub mark_bmap : Bitmap64 P → ℕ → Bitmap64 P
  pub unmark_bmap : Bitmap64 P → ℕ → Bitmap64 P
  pub test_bmap : Bitmap64 P → ℕ → Bool
  pub mark_bmap_extent : Bitmap64 P → ℕ → ℕ → Bitmap64 P
  pub set_bmap_range : Bitmap64 P → ℕ → ℕ → List ℕ → Bitmap64 P
  pub get_bmap_range : Bitmap64 P → ℕ → ℕ → List ℕ
  pub find_first_zero : Option (Bitmap64 P → ℕ → ℕ → Result ℕ)
