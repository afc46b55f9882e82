-- ===== src/Ext2/Bitmap/Span.antt =====
-- Marking a range of blocks in drivers/fs/ext2/bitmap.c.
use pml.Common.{
  ℕ, ◌+◌, ◌-◌, ◌/◌, ◌%◌, ◌^◌, ◌≤◌, ◌<◌, ◌≡◌, ◌∙◌, ap, Bool, true, false, ◌&&◌, ◌||◌, arith, ltb,
  leb, if◌then◌else◌, zero, suc, refl, some, List, length, ◌*◌,
}
use native.Mathlib.Nat.{add-div_right}
use pml.Common.Digits.{pow_pos}
use pml.Bitmap.{set_bit, test_bit}
use pml.Bitmap.Laws.{length-set_bit, set_bit-AllBytes, test-set_bit}
use pml.Ext2.{Ops, add64, sub64}
use pml.Ext2.Bitarray.{extent}
use pml.Ext2.Bitarray.Extent.{extent-kept, extent-test}
use pml.Ext2.Bitmap.{
  Bitmap, null, bits32, bits64, wide, outside32, write_bit, with_bits, mark_loop, rounds,
  mark_block_bitmap_range, test_bitmap,
}
use pml.Ext2.Bitmap.Laws.{Laws, IsValidBitmap, Within}
use pml.Ext2.Bitmap.Point.{inside, cluster, settle, changed64-test, offset32}
use pml.Ext2.Bitmap.Search.{has_magic, div_mono}

-- the numbers that share a bit
unfoldable pub cluster_size : {P : Type 0} → Bitmap P → ℕ
cluster_size null = 1
cluster_size (bits32 b) = 1
cluster_size (bits64 b) = 2 ^ b.cluster_bits

-- whether the bit for `j` is one of those for `num` blocks from `block` on
abbrev pub covered : {P : Type 0} → Bitmap P → (block num j : ℕ) → Bool
covered m block num j =
    leb (cluster m block) (cluster m j) && leb (cluster m j) (cluster m (block + num - 1))

write_bit_inside :
    (bs : List ℕ) (i : ℕ) → i < 8 * length bs → write_bit set_bit bs i ≡ some (set_bit bs i)
unfolding write_bit
write_bit_inside bs i h = ground arith

-- The loop that stays in the array, and whose counter does not overflow, is the loop without checks.
mark_loop-extent :
    (bs : List ℕ) (block start i n : ℕ)
    → start ≤ block
    → block + i + n < 2 ^ 64
    → block + i - start + n ≤ 8 * length bs
    → i + n < 2 ^ 31
    → mark_loop bs block start i n ≡ some (extent set_bit bs block start i n)
unfolding mark_loop extent
mark_loop-extent bs block start i zero l m o t = refl
mark_loop-extent bs block start i (suc n) l m o t =
    let k : ℕ = sub64 (add64 block i) start in
    let e : k ≡ block + i - start = omega arith in
    let h = write_bit_inside bs k (omega arith) in
    let c : ltb (i + 1) (2 ^ 31) ≡ true = ground arith in
    rw (h, c, mark_loop)
      (mark_loop-extent (set_bit bs k) block start (i + 1) n l (omega arith)
        (omega (arith, length-set_bit bs k)) (omega arith))

-- The `int` values of mark_block_bitmap_range fit: the counter of the loop, `1 << b->cluster_bits`.
unfoldable pub IntFits : {P : Type 0} → Bitmap P → (num : ℕ) → Type 0
IntFits null num = Unit
IntFits (bits32 b) num = num < 2 ^ 31
IntFits (bits64 b) num = b.cluster_bits < 31

module _ {P : Type 0} (ops : Ops P) (laws : Laws ops) where
  -- mark_block_bitmap_range writes within the array, sets the bits of the clusters that the blocks
  -- lie in and leaves the others, and the bitmap stays well-formed. The bitmap is well-formed with a
  -- good magic number, the range is not empty, its first and last block are in the bounds, it is fewer
  -- than 2 ^ 32 clusters long, and its end, rounded up to a cluster, does not wrap. A 32-bit bitmap has
  -- fewer than 2 ^ 31 blocks in the range, and a cluster of a 64-bit one fewer than 2 ^ 31 blocks. The
  -- operations have the laws.
  pub mark_block_bitmap_range-covered :
      (m : Bitmap P) (block num : ℕ)
      → IsValidBitmap laws m
      → has_magic m ≡ true
      → IntFits m num
      → 0 < num
      → block + num + cluster_size m ≤ 2 ^ 64
      → inside m block ≡ true
      → inside m (block + num - 1) ≡ true
      → cluster m (block + num - 1) - cluster m block < 2 ^ 32 - 1
      → (m' : Bitmap P) × (mark_block_bitmap_range ops m block num ≡ some m')
        × IsValidBitmap laws m'
        × ((j : ℕ)
            → test_bitmap ops m' j ≡ (if covered m block num j then true else test_bitmap ops m j))
  unfolding mark_block_bitmap_range test_bitmap inside cluster cluster_size IsValidBitmap has_magic
      IntFits with_bits
  mark_block_bitmap_range-covered null block num v g f p w i k c = absurd (ground arith)
  mark_block_bitmap_range-covered (bits32 b) block num v g f p w i k c =
      let x = v.small in
      let y = v.ordered in
      let z = v.size in
      let last : sub64 (add64 block num) 1 ≡ block + num - 1 = omega arith in
      let a : (wide block || wide (block + num - 1)) ≡ false = ground arith in
      let d : (ltb block b.start || (ltb b.end block || ltb b.end (block + num - 1))) ≡ false =
        ground arith in
      let (e, s) =
        extent-kept set_bit true length-set_bit set_bit-AllBytes test-set_bit b.bitmap block b.start
          0 num v.bytes in
      let r : rounds num ≡ num = ground arith in
      let q =
        mark_loop-extent b.bitmap block b.start 0 num (ground arith) (omega arith) (ground arith)
          (omega arith) in
      rw (last, a, d, r, q)
        (
          bits32 (record b { bitmap = extent set_bit b.bitmap block b.start 0 num }),
          refl,
          record { bytes = e; size = s ∙ z; ordered = y; small = x },
          λ j.
              settle (outside32 b j) (leb block j && leb j (block + num - 1)) true _ _
                (λ o. ground arith)
                (λ o.
                  extent-test set_bit true length-set_bit set_bit-AllBytes test-set_bit b.bitmap
                    block b.start 0 num (sub64 j b.start) v.bytes (ground arith) (ground arith)
                    (ground arith)
                  ∙ ap (λ (q : Bool). if q then true else test_bit b.bitmap (sub64 j b.start))
                      (rw (offset32 b j j v o).0 (ground arith))),
        )
  mark_block_bitmap_range-covered (bits64 b) block num v g f p w i k c =
      let u : ℕ = 2 ^ b.cluster_bits in
      let first : ℕ = block / u in
      let last : ℕ = (block + num - 1) / u in
      let pos = pow_pos b.cluster_bits in
      let up : first ≤ last = div_mono block (block + num - 1) u pos (omega arith) in
      let sum : add64 (add64 block num) (u - 1) ≡ block + num - 1 + u = omega arith in
      let end : (block + num - 1 + u) / u ≡ last + 1 = add-div_right (block + num - 1) pos in
      let o = Laws.bounds laws b v in
      let n : ℕ = last + 1 - first in
      let count : sub64 (last + 1) first ≡ n = ground arith in
      let final : sub64 (add64 first n) 1 ≡ last = ground arith in
      let short : n % 2 ^ 32 ≡ n = omega arith in
      let d : (ltb first b.start || (ltb b.end first || ltb b.end last)) ≡ false = ground arith in
      let mark = λ (l : ℕ) (h : Within b l).
        Laws.mark_extent laws b first n l v (ground arith) (ground arith) h in
      let (s, w, t) = mark first (ground arith, ground arith) in
      let fit : leb 31 b.cluster_bits ≡ false = ground arith in
      rw (sum, end, count, final, g, fit, d, short)
        (
          bits64 (Ops.mark_bmap_extent ops b first n),
          refl,
          w,
          λ j.
              changed64-test ops true (leb first (j / u) && leb (j / u) last) b
                (Ops.mark_bmap_extent ops b first n) j s (λ q. ground arith)
                (λ h.
                  (mark (j / u) h).2
                  ∙ ap (λ (q : Bool). if q then true else Ops.test_bmap ops b (j / u))
                      (ground arith)),
        )
