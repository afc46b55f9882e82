-- ===== src/Ext2/Bitmap/Tests.antt =====
-- A 32-bit bitmap for the numbers from 1 to 24, and a 64-bit one whose bits stand for two blocks.
use pml.Common.{
  ℕ, ◌+◌, ◌-◌, ◌^◌, ◌≤◌, ◌<◌, ◌≡◌, refl, true, List, [], ◌∷◌, arith, if◌then◌else◌, none, some,
}
use pml.Errno.{ok, err, euclean}
use pml.Bitmap.{set_bit}
use pml.Ext2.{Bitmap32}
use pml.Ext2.Bitarray.{Bitarray, bitarray_ops}
use pml.Ext2.Bitarray.Valid.{IsValid}
use pml.Ext2.Bitmap.{
  Bitmap, bits32, bits64, write_bit, with_bits, mark_loop, mark_bitmap, test_bitmap,
  mark_block_bitmap_range, find_first_zero_bitmap, set_bitmap_range, get_bitmap_range,
}
use pml.Ext2.Bitmap.Laws.{IsValid32, IsValidBitmap, LeastZero, bitarray_ops-Laws}
use pml.Ext2.Bitmap.Point.{inside, cluster, Sets, test_bitmap-mark_bitmap}
use pml.Ext2.Bitmap.Search.{has_magic, find_first_zero_bitmap-LeastZero}
use pml.Ext2.Bitmap.Span.{IntFits, cluster_size, covered, mark_block_bitmap_range-covered}
use pml.Ext2.Bitmap.Copy.{Fits, get_bitmap_range-set_bitmap_range}

abbrev sample : Bitarray
sample = record {
  magic = 4;
  start = 1;
  end = 20;
  real_end = 24;
  cluster_bits = 1;
  private = 255 ∷ 15 ∷ 0 ∷ [];
}

sample-IsValid : IsValid sample
sample-IsValid = record {
  bytes = (omega arith, (omega arith, (omega arith, tt)));
  size = refl;
  ordered = (omega arith, omega arith);
  small = omega arith;
}

abbrev sample32 : Bitmap32
sample32 = record { start = 1; end = 20; real_end = 24; bitmap = 255 ∷ 15 ∷ 0 ∷ [] }

sample-IsValid32 : IsValid32 sample32
sample-IsValid32 = record {
  bytes = (omega arith, (omega arith, (omega arith, tt)));
  size = refl;
  ordered = (omega arith, omega arith);
  small = omega arith;
}

abbrev blocks : Bitmap (List ℕ)
blocks = bits64 sample

sample-IsValidBitmap : IsValidBitmap (bitarray_ops-Laws 0) blocks
unfolding IsValidBitmap bitarray_ops-Laws
sample-IsValidBitmap = sample-IsValid

ready :
    (has_magic blocks ≡ true)
    × (inside blocks 6 ≡ true)
    × (inside blocks 10 ≡ true)
    × (inside blocks 41 ≡ true)
    × (10 + 32 + cluster_size blocks ≤ 2 ^ 64)
    × (cluster blocks 41 - cluster blocks 10 < 2 ^ 32 - 1)
unfolding has_magic inside cluster_size cluster
ready = (refl, refl, refl, refl, omega arith, omega arith)

find_first_zero_bitmap-LeastZero_example :
    LeastZero
      (test_bitmap (bitarray_ops 0) blocks)
      6
      41
      (find_first_zero_bitmap (bitarray_ops 0) blocks 6 41)
find_first_zero_bitmap-LeastZero_example =
    find_first_zero_bitmap-LeastZero (bitarray_ops 0) (bitarray_ops-Laws 0) blocks 6 41
      sample-IsValidBitmap ready.0 (omega arith) (omega arith) ready.1 ready.3

test_bitmap-mark_bitmap_example :
    Sets
      (bitarray_ops 0)
      (bitarray_ops-Laws 0)
      true
      blocks
      26
      (mark_bitmap (bitarray_ops 0) blocks 26)
test_bitmap-mark_bitmap_example =
    test_bitmap-mark_bitmap (bitarray_ops 0) (bitarray_ops-Laws 0) blocks 26 sample-IsValidBitmap

-- a number past the bounds, whose bit the array has, and one before them
past_end : mark_bitmap (bitarray_ops 0) (bits32 sample32) 22 ≡ some (bits32 sample32)
unfolding mark_bitmap
past_end = refl

before_start : mark_bitmap (bitarray_ops 0) (bits32 sample32) 0 ≡ some (bits32 sample32)
unfolding mark_bitmap
before_start = refl

small_ints : IntFits blocks 32
unfolding IntFits
small_ints = omega arith

mark_block_bitmap_range-covered_example :
    (m' : Bitmap (List ℕ)) × (mark_block_bitmap_range (bitarray_ops 0) blocks 10 32 ≡ some m')
    × IsValidBitmap (bitarray_ops-Laws 0) m'
    × ((j : ℕ)
        → test_bitmap (bitarray_ops 0) m' j
          ≡ (if covered blocks 10 32 j then true else test_bitmap (bitarray_ops 0) blocks j))
mark_block_bitmap_range-covered_example =
    mark_block_bitmap_range-covered (bitarray_ops 0) (bitarray_ops-Laws 0) blocks 10 32
      sample-IsValidBitmap ready.0 small_ints (omega arith) ready.4 ready.2 ready.3 ready.5

-- The 32-bit form, and a 64-bit one whose clusters an `int` cannot count.
range32 :
    mark_block_bitmap_range (bitarray_ops 0) (bits32 sample32) 14 3
    ≡ some (bits32 (record sample32 { bitmap = 255 ∷ 239 ∷ 0 ∷ [] }))
unfolding mark_block_bitmap_range mark_loop write_bit with_bits set_bit
range32 = refl

wide_shift :
    mark_block_bitmap_range (bitarray_ops 0) (bits64 (record sample { cluster_bits = 31 })) 10 32
    ≡ none
unfolding mark_block_bitmap_range
wide_shift = refl

abbrev written : Bitmap (List ℕ)
written = bits32 (record sample32 { bitmap = 255 ∷ 7 ∷ 9 ∷ [] })

written_bytes : set_bitmap_range (bitarray_ops 0) (bits32 sample32) 9 16 (7 ∷ 9 ∷ []) ≡ ok written
unfolding set_bitmap_range
written_bytes = refl

sample-Fits : Fits (bits32 sample32) 9 16
unfolding Fits
sample-Fits = (sample-IsValid32, omega arith)

get_bitmap_range-set_bitmap_range_example :
    get_bitmap_range (bitarray_ops 0) written 9 16 ≡ ok (7 ∷ 9 ∷ [])
get_bitmap_range-set_bitmap_range_example =
    get_bitmap_range-set_bitmap_range 0 (bits32 sample32) written 9 16 (7 ∷ 9 ∷ []) sample-Fits
      (omega arith) (omega arith) refl written_bytes

too_wide : get_bitmap_range (bitarray_ops 0) (bits32 sample32) 0 8 ≡ err euclean
unfolding get_bitmap_range
too_wide = refl
