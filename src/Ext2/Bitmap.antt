-- ===== src/Ext2/Bitmap.antt =====
-- The calls on bitmaps of drivers/fs/ext2/bitmap.c, which check their arguments and take one of two
-- forms: an array for 32-bit bitmaps, the operations of `struct ext2_bitmap_ops` for 64-bit ones.

pub mod Laws
pub mod Point
pub mod Search
pub mod Span
pub mod Copy
mod Tests
use pml.Common.{
  ℕ, zero, suc, ◌+◌, ◌-◌, ◌*◌, ◌/◌, ◌%◌, ◌^◌, Bool, true, false, not, ◌||◌, Option, none, some,
  List, ◌==◌, ltb, leb, if◌then◌else◌, take, drop, length,
}
use pml.Errno.{Result, ok, err, einval, enoent, euclean}
use pml.Bitmap.{set_bit, clear_bit, test_bit}
use pml.Ext2.{Bitmap32, Bitmap64, Ops, add64, sub64}
use pml.Ext2.Bitarray.{copy}

-- `struct ext2_bitmap *`: a null pointer, or one of the two structures, which the code tells apart
-- by the magic number.
pub data Bitmap (P : Type 0) : Type 0 where
  null : Bitmap P
  bits32 : Bitmap32 → Bitmap P
  bits64 : Bitmap64 P → Bitmap P

-- `EXT2_BITMAP_IS_64`
abbrev pub is_64 : {P : Type 0} → Bitmap64 P → Bool
is_64 b = b.magic == 4 || b.magic == 8

-- `arg & ~0xffffffffUL`, as a test
abbrev pub wide : ℕ → Bool
wide arg = leb (2 ^ 32) arg

-- the tests of the bounds, true where the code returns
abbrev pub outside32 : Bitmap32 → ℕ → Bool
outside32 b arg = wide arg || (ltb arg b.start || ltb b.end arg)

abbrev pub outside64 : {P : Type 0} → Bitmap64 P → ℕ → Bool
outside64 b arg = ltb arg b.start || ltb b.end arg

-- The loops of find_first_zero_bitmap: the number to test next and the rounds left.
pub zero_loop : (ℕ → Bool) → ℕ → ℕ → Result ℕ
zero_loop test at zero = err enoent
zero_loop test at (suc n) = let next = zero_loop test (at + 1) n in if test at then next else ok at

-- the lines from the label `found` on, with the cluster that was found
pub to_block : (cluster_bits start : ℕ) → Result ℕ → Result ℕ
to_block cluster_bits start (err x) = err x
to_block cluster_bits start (ok cluster) =
    let block = cluster * 2 ^ cluster_bits % 2 ^ 64 in ok (if leb start block then block else start)

-- A call of set_bit or clear_bit on an array; nothing when the bit is out of the array, where the
-- code would write to other memory.
pub write_bit : (List ℕ → ℕ → List ℕ) → List ℕ → ℕ → Option (List ℕ)
write_bit change bytes i = if ltb i (8 * length bytes) then some (change bytes i) else none

unfoldable pub with_bits : {P : Type 0} → Bitmap32 → Option (List ℕ) → Option (Bitmap P)
with_bits b none = none
with_bits b (some bytes) = some (bits32 (record b { bitmap = bytes }))

-- The loop over a range: the counter `i` and the rounds left. Nothing when a bit is out of the array
-- or `i++` overflows, since `i` is an `int`.
pub mark_loop : List ℕ → (block start i : ℕ) → ℕ → Option (List ℕ)
mark_loop bytes block start i zero = some bytes
mark_loop bytes block start i (suc n) =
    elim (write_bit set_bit bytes (sub64 (add64 block i) start)) [
      | none ↦ none
      | some next ↦
          let rest = mark_loop next block start (i + 1) n in
          if ltb (i + 1) (2 ^ 31) then rest else none
    ]

-- The rounds of that loop for `num`, a `blkcnt_t`: none when it is negative.
abbrev pub rounds : (num : ℕ) → ℕ
rounds num = if ltb num (2 ^ 63) then num else 0

-- The calls that write answer with the bitmap afterwards, and with nothing where what the code does
-- is undefined: a write out of the array, or an `int` that overflows.
module _ {P : Type 0} (ops : Ops P) where
  pub mark_bitmap : Bitmap P → ℕ → Option (Bitmap P)
  mark_bitmap null arg = some null
  mark_bitmap (bits32 b) arg =
      if outside32 b arg
      then some (bits32 b)
      else with_bits b (write_bit set_bit b.bitmap (sub64 arg b.start))
  mark_bitmap (bits64 b) arg =
      let c = arg / 2 ^ b.cluster_bits in
      some (if outside64 b c then bits64 b else bits64 (Ops.mark_bmap ops b c))

  pub unmark_bitmap : Bitmap P → ℕ → Option (Bitmap P)
  unmark_bitmap null arg = some null
  unmark_bitmap (bits32 b) arg =
      if outside32 b arg
      then some (bits32 b)
      else with_bits b (write_bit clear_bit b.bitmap (sub64 arg b.start))
  unmark_bitmap (bits64 b) arg =
      let c = arg / 2 ^ b.cluster_bits in
      some (if outside64 b c then bits64 b else bits64 (Ops.unmark_bmap ops b c))

  pub test_bitmap : Bitmap P → ℕ → Bool
  test_bitmap null arg = false
  test_bitmap (bits32 b) arg =
      if outside32 b arg then false else test_bit b.bitmap (sub64 arg b.start)
  test_bitmap (bits64 b) arg =
      let c = arg / 2 ^ b.cluster_bits in if outside64 b c then false else Ops.test_bmap ops b c

  -- The 32-bit branch does not return, but the test that follows it does. `1 << b->cluster_bits` is
  -- an `int`.
  pub mark_block_bitmap_range : Bitmap P → (block num : ℕ) → Option (Bitmap P)
  mark_block_bitmap_range null block num = some null
  mark_block_bitmap_range (bits32 b) block num =
      let last = sub64 (add64 block num) 1 in
      if wide block || wide last
      then some (bits32 b)
      else if ltb block b.start || (ltb b.end block || ltb b.end last)
      then some (bits32 b)
      else with_bits b (mark_loop b.bitmap block b.start 0 (rounds num))
  mark_block_bitmap_range (bits64 b) block num =
      let first = block / 2 ^ b.cluster_bits in
      let end = add64 (add64 block num) (2 ^ b.cluster_bits - 1) / 2 ^ b.cluster_bits in
      let count = sub64 end first in
      let last = sub64 (add64 first count) 1 in
      if not (is_64 b)
      then some (bits64 b)
      else if leb 31 b.cluster_bits
      then none
      else if ltb first b.start || (ltb b.end first || ltb b.end last)
      then some (bits64 b)
      else some (bits64 (Ops.mark_bmap_extent ops b first (count % 2 ^ 32)))

  pub set_bitmap_range : Bitmap P → (start num : ℕ) → List ℕ → Result (Bitmap P)
  set_bitmap_range null start num bytes = err einval
  set_bitmap_range (bits32 b) start num bytes =
      let last = sub64 (add64 start num) 1 in
      if wide last
      then err euclean
      else if ltb start b.start || ltb b.real_end last
      then err euclean
      else ok (
          bits32 (record b {
            bitmap = copy b.bitmap (sub64 start b.start / 8) bytes ((num + 7) % 2 ^ 32 / 8);
          }))
  set_bitmap_range (bits64 b) start num bytes =
      if is_64 b then ok (bits64 (Ops.set_bmap_range ops b start num bytes)) else err euclean

  pub get_bitmap_range : Bitmap P → (start num : ℕ) → Result (List ℕ)
  get_bitmap_range null start num = err einval
  get_bitmap_range (bits32 b) start num =
      let last = sub64 (add64 start num) 1 in
      if wide last
      then err euclean
      else if ltb start b.start || ltb b.real_end last
      then err euclean
      else ok (take ((num + 7) % 2 ^ 32 / 8) (drop (sub64 start b.start / 8) b.bitmap))
  get_bitmap_range (bits64 b) start num =
      if is_64 b then ok (Ops.get_bmap_range ops b start num) else err euclean

  pub find_first_zero_bitmap : Bitmap P → (start end : ℕ) → Result ℕ
  find_first_zero_bitmap null start end = err einval
  find_first_zero_bitmap (bits32 b) start end =
      if wide start || wide end
      then err euclean
      else if ltb start b.start || (ltb b.end end || ltb end start)
      then err euclean
      else zero_loop (λ i. test_bit b.bitmap (sub64 i b.start)) start (end + 1 - start)
  find_first_zero_bitmap (bits64 b) start end =
      let first = start / 2 ^ b.cluster_bits in
      let last = end / 2 ^ b.cluster_bits in
      if not (is_64 b)
      then err euclean
      else if ltb first b.start || (ltb b.end last || ltb end start)
      then err euclean
      else to_block b.cluster_bits start (elim (Ops.find_first_zero ops) [
        | none ↦ zero_loop (Ops.test_bmap ops b) first (last + 1 - first)
        | some f ↦ f b first last
      ])
