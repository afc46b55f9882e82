-- ===== src/Ext2/Bitarray/Extent.antt =====
-- The extents of drivers/fs/ext2/bitarray.c change their own bits and no other.
use pml.Common.{
  ℕ, zero, suc, ◌+◌, ◌-◌, ◌*◌, ◌^◌, ◌≤◌, ◌<◌, ◌≡◌, ◌∙◌, refl, Bool, true, false, ◌&&◌, List, arith,
  ◌==◌, leb, ltb, if◌then◌else◌, length,
}
use pml.Bitmap.{set_bit, clear_bit, test_bit}
use pml.Bitmap.Laws.{
  AllBytes, length-set_bit, length-clear_bit, set_bit-AllBytes, clear_bit-AllBytes, test-set_bit,
  test-clear_bit,
}
use pml.Ext2.{add64, sub64}
use pml.Ext2.Bitarray.{Bitarray, extent, mark_bmap_extent, unmark_bmap_extent, test_bmap}
use pml.Ext2.Bitarray.Valid.{IsValid, Inside, Inside-sub64}

-- whether `j` is one of `n` numbers from `lo` on
abbrev pub among : (lo n j : ℕ) → Bool
among lo n j = leb lo j && ltb j (lo + n)

-- A change of one bit, to the value `x`.
module _ (change : List ℕ → ℕ → List ℕ) (x : Bool)
    (kept : (bs : List ℕ) (i : ℕ) → length (change bs i) ≡ length bs)
    (bytes : (bs : List ℕ) (i : ℕ) → AllBytes bs → AllBytes (change bs i))
    (changed : (bs : List ℕ) (i j : ℕ)
      → AllBytes bs
      → i < 8 * length bs
      → test_bit (change bs i) j ≡ (if i == j then x else test_bit bs j)) where
  pub extent-kept :
      (bs : List ℕ) (arg start i n : ℕ)
      → AllBytes bs
      → AllBytes (extent change bs arg start i n)
        × (length (extent change bs arg start i n) ≡ length bs)
  unfolding extent
  extent-kept bs arg start i zero h = (h, refl)
  extent-kept bs arg start i (suc n) h =
      let k = sub64 (add64 arg i) start in
      let (a, b) = extent-kept (change bs k) arg start (i + 1) n (bytes bs k h) in
      (a, b ∙ kept bs k)

  pub extent-test :
      (bs : List ℕ) (arg start i n j : ℕ)
      → AllBytes bs
      → start ≤ arg
      → arg + i + n < 2 ^ 64
      → arg + i - start + n ≤ 8 * length bs
      → test_bit (extent change bs arg start i n) j
        ≡ (if among (arg + i - start) n j then x else test_bit bs j)
  unfolding extent
  extent-test bs arg start i zero j h l m o = ground arith
  extent-test bs arg start i (suc n) j h l m o =
      let k : ℕ = arg + i - start in
      let e : sub64 (add64 arg i) start ≡ k = omega arith in
      let f : arg + (i + 1) - start ≡ suc k = omega arith in
      rw e (
        extent-test (change bs k) arg start (i + 1) n j (bytes bs k h) l (omega arith)
          (omega (arith, kept bs k))
        ∙ rw (f, changed bs k j h (omega arith)) (ground arith))

module _ (b : Bitarray) (arg num j : ℕ) (v : IsValid b) (l : b.start ≤ arg)
    (m : arg + num ≤ b.real_end + 1) (h : Inside b j) where
  shifted : among (arg + 0 - b.start) num (sub64 j b.start) ≡ among arg num j
  shifted = rw (Inside-sub64 b j v h).0 (ground arith)

  -- mark_bmap_extent sets the bits of the extent and unmark_bmap_extent clears them; both leave the
  -- other bits, and leave the bitmap well-formed.
  pub mark_bmap_extent-test :
      IsValid (mark_bmap_extent b arg num)
      × (test_bmap (mark_bmap_extent b arg num) j
          ≡ (if among arg num j then true else test_bmap b j))
  unfolding mark_bmap_extent test_bmap
  mark_bmap_extent-test =
      let (a, s) =
        extent-kept set_bit true length-set_bit set_bit-AllBytes test-set_bit b.private arg b.start
          0 num v.bytes in
      (
        record { bytes = a; size = s ∙ v.size; ordered = v.ordered; small = v.small },
        extent-test set_bit true length-set_bit set_bit-AllBytes test-set_bit b.private arg b.start
              0 num (sub64 j b.start) v.bytes l (omega (arith, v.small))
              (omega (arith, v.size, v.ordered))
            ∙ rw shifted,
      )

  pub unmark_bmap_extent-test :
      IsValid (unmark_bmap_extent b arg num)
      × (test_bmap (unmark_bmap_extent b arg num) j
          ≡ (if among arg num j then false else test_bmap b j))
  unfolding unmark_bmap_extent test_bmap
  unmark_bmap_extent-test =
      let (a, s) =
        extent-kept clear_bit false length-clear_bit clear_bit-AllBytes test-clear_bit b.private arg
          b.start 0 num v.bytes in
      (
        record { bytes = a; size = s ∙ v.size; ordered = v.ordered; small = v.small },
        extent-test clear_bit false length-clear_bit clear_bit-AllBytes test-clear_bit b.private arg
              b.start 0 num (sub64 j b.start) v.bytes l (omega (arith, v.small))
              (omega (arith, v.size, v.ordered))
            ∙ rw shifted,
      )
