-- ===== src/Ext2/Bitmap/Point.antt =====
-- Marking, unmarking and testing one block or inode of a bitmap, in drivers/fs/ext2/bitmap.c.
use pml.Common.{
  ℕ, ◌-◌, ◌*◌, ◌/◌, ◌^◌, ◌<◌, ◌≡◌, refl, ◌∙◌, Bool, true, false, not, List, ◌&&◌, arith, ◌==◌,
  if◌then◌else◌, inl, inr, Bool-cases, length, Option, some, ltb,
}
use pml.Bitmap.{set_bit, clear_bit, test_bit}
use pml.Bitmap.Laws.{
  AllBytes, length-set_bit, length-clear_bit, set_bit-AllBytes, clear_bit-AllBytes, test-set_bit,
  test-clear_bit,
}
use pml.Ext2.{Bitmap32, Bitmap64, Ops, sub64}
use pml.Ext2.Bitmap.{
  Bitmap, null, bits32, bits64, outside32, outside64, write_bit, with_bits, mark_bitmap,
  unmark_bitmap, test_bitmap,
}
use pml.Ext2.Bitmap.Laws.{Laws, IsValid32, IsValidBitmap, Same, Within}

-- whether a bitmap has a bit for a number
unfoldable pub inside : {P : Type 0} → Bitmap P → ℕ → Bool
inside null i = false
inside (bits32 b) i = not (outside32 b i)
inside (bits64 b) i = not (outside64 b (i / 2 ^ b.cluster_bits))

-- the number that a bit stands for
unfoldable pub cluster : {P : Type 0} → Bitmap P → ℕ → ℕ
cluster null i = i
cluster (bits32 b) i = i
cluster (bits64 b) i = i / 2 ^ b.cluster_bits

module _ (b : Bitmap32) (i j : ℕ) (v : IsValid32 b) (h : outside32 b i ≡ false) where
  pub offset32 : (sub64 i b.start ≡ i - b.start) × (i - b.start < 8 * length b.bitmap)
  offset32 = let s = v.small in let o = v.ordered in let z = v.size in (ground arith, ground arith)

  same32 : outside32 b j ≡ false → (sub64 i b.start == sub64 j b.start) ≡ (i == j)
  same32 k = let s = v.small in let o = v.ordered in ground arith

-- A change of one bit of an array, to the value `x`.
module _ (change : List ℕ → ℕ → List ℕ) (x : Bool)
    (kept : (bs : List ℕ) (i : ℕ) → length (change bs i) ≡ length bs)
    (bytes : (bs : List ℕ) (i : ℕ) → AllBytes bs → AllBytes (change bs i))
    (changed : (bs : List ℕ) (i j : ℕ)
      → AllBytes bs
      → i < 8 * length bs
      → test_bit (change bs i) j ≡ (if i == j then x else test_bit bs j))
    (b : Bitmap32) (i j : ℕ) (v : IsValid32 b) (h : outside32 b i ≡ false) where
  changed32 : Bitmap32
  changed32 = record b { bitmap = change b.bitmap (sub64 i b.start) }

  changed32-IsValid32 : IsValid32 changed32
  unfolding changed32
  changed32-IsValid32 = record {
    bytes = bytes b.bitmap (sub64 i b.start) v.bytes;
    size = kept b.bitmap (sub64 i b.start) ∙ v.size;
    ordered = v.ordered;
    small = v.small;
  }

  changed32_written :
      {P : Type 0}
      → with_bits {P = P} b (write_bit change b.bitmap (sub64 i b.start)) ≡ some (bits32 changed32)
  unfolding with_bits write_bit changed32
  changed32_written =
      let o : ltb (sub64 i b.start) (8 * length b.bitmap) ≡ true =
        ground (arith, (offset32 b i j v h).0, (offset32 b i j v h).1) in
      rw o refl

  changed32-test :
      outside32 b j ≡ false
      → test_bit (change b.bitmap (sub64 i b.start)) (sub64 j b.start)
        ≡ (if i == j then x else test_bit b.bitmap (sub64 j b.start))
  changed32-test k =
      changed b.bitmap (sub64 i b.start) (sub64 j b.start) v.bytes
        (omega (arith, (offset32 b i j v h).0, (offset32 b i j v h).1))
      ∙ rw (same32 b i j v h k)

-- The tests of a bitmap whose bit for `i` changed: `out` says that `j` is out of the bounds and `same`
-- that it has the bit that changed.
pub settle :
    (out same x old new : Bool)
    → (out ≡ true → same ≡ false)
    → (out ≡ false → new ≡ (if same then x else old))
    → (if out then false else new) ≡ (if same then x else (if out then false else old))
settle true same x old new h k = rw (h refl) refl
settle false same x old new h k = k refl

pub outside64-Within : {P : Type 0} → (b : Bitmap64 P) (k : ℕ) → outside64 b k ≡ false → Within b k
outside64-Within b k h = (ground arith, ground arith)

-- A change of bits in the bounds by an operation, to the value `x`: `same` says whether the bit for
-- `j` is one of them.
pub changed64-test :
    {P : Type 0}
    → (ops : Ops P) (x same : Bool) (b c : Bitmap64 P) (j : ℕ) → Same b c
    → (let l = j / 2 ^ b.cluster_bits in outside64 b l ≡ true → same ≡ false)
    → (let l = j / 2 ^ b.cluster_bits in
        Within b l → Ops.test_bmap ops c l ≡ (if same then x else Ops.test_bmap ops b l))
    → test_bitmap ops (bits64 c) j ≡ (if same then x else test_bitmap ops (bits64 b) j)
unfolding test_bitmap
changed64-test ops x same b c j (s0, s1, s2, s3) h t =
    let l : ℕ = j / 2 ^ b.cluster_bits in
    simp (s1, s2, s3) (settle (outside64 b l) same x _ _ h (λ o. t (outside64-Within b l o)))

module _ {P : Type 0} (ops : Ops P) (laws : Laws ops) where
  -- What a call that gives the bit of `i` the value `x` does to a bitmap: it is defined, keeps the
  -- bitmap well-formed, gives the value to the numbers that share the bit and to no other, and leaves
  -- the whole bitmap as it is when there is no bit for `i`.
  abbrev pub Sets : (x : Bool) → Bitmap P → ℕ → Option (Bitmap P) → Type 0
  Sets x m i r =
      (m' : Bitmap P) × (r ≡ some m')
      × IsValidBitmap laws m'
      × ((j : ℕ)
          → test_bitmap ops m' j
            ≡ (if inside m i && (cluster m i == cluster m j) then x else test_bitmap ops m j))
      × (inside m i ≡ false → m' ≡ m)

  -- mark_bitmap on a well-formed bitmap writes within the array. After it the bit of its argument, and
  -- of the others of its cluster, is set, and the bits of other clusters are as before; for a number
  -- out of the bounds the bitmap itself is as before. The bitmap stays well-formed. The operations
  -- have the laws.
  pub test_bitmap-mark_bitmap :
      (m : Bitmap P) (i : ℕ) → IsValidBitmap laws m → Sets true m i (mark_bitmap ops m i)
  unfolding mark_bitmap test_bitmap inside cluster IsValidBitmap changed32
  test_bitmap-mark_bitmap null i v = (null, refl, tt, (λ j. refl), (λ e. refl))
  test_bitmap-mark_bitmap (bits32 b) i v = elim (Bool-cases (outside32 b i)) [
    | inl e ↦ rw e (bits32 b, refl, v, (λ j. refl), (λ k. refl))
    | inr e ↦ rw e (
      bits32 (changed32 set_bit true length-set_bit set_bit-AllBytes test-set_bit b i i v e),
      changed32_written set_bit true length-set_bit set_bit-AllBytes test-set_bit b i i v e,
      changed32-IsValid32 set_bit true length-set_bit set_bit-AllBytes test-set_bit b i i v e,
      (λ j.
          settle (outside32 b j) (i == j) true _ _ (λ k. ground arith)
            (changed32-test set_bit true length-set_bit set_bit-AllBytes test-set_bit b i j v e)),
      (λ k. absurd (ground arith)),
    )
  ]
  test_bitmap-mark_bitmap (bits64 b) i v =
      elim (Bool-cases (outside64 b (i / 2 ^ b.cluster_bits))) [
        | inl e ↦ rw e (bits64 b, refl, v, (λ j. refl), (λ k. refl))
        | inr e ↦
            let k : ℕ = i / 2 ^ b.cluster_bits in
            let w = outside64-Within b k e in
            rw e (
              bits64 (Ops.mark_bmap ops b k),
              refl,
              (Laws.mark laws b k k v w w).1,
              (λ j.
                  changed64-test ops true (k == j / 2 ^ b.cluster_bits) b (Ops.mark_bmap ops b k) j
                    (Laws.mark laws b k k v w w).0 (λ o. ground arith)
                    (λ h. (Laws.mark laws b k _ v w h).2)),
              (λ o. absurd (ground arith)),
            )
      ]

  -- unmark_bitmap is the same for clearing a bit.
  pub test_bitmap-unmark_bitmap :
      (m : Bitmap P) (i : ℕ) → IsValidBitmap laws m → Sets false m i (unmark_bitmap ops m i)
  unfolding unmark_bitmap test_bitmap inside cluster IsValidBitmap changed32
  test_bitmap-unmark_bitmap null i v = (null, refl, tt, (λ j. refl), (λ e. refl))
  test_bitmap-unmark_bitmap (bits32 b) i v = elim (Bool-cases (outside32 b i)) [
    | inl e ↦ rw e (bits32 b, refl, v, (λ j. refl), (λ k. refl))
    | inr e ↦ rw e (
      bits32
          (changed32 clear_bit false length-clear_bit clear_bit-AllBytes test-clear_bit b i i v e),
      changed32_written clear_bit false length-clear_bit clear_bit-AllBytes test-clear_bit b i i v
          e,
      changed32-IsValid32 clear_bit false length-clear_bit clear_bit-AllBytes test-clear_bit b i i v
          e,
      (λ j.
          settle (outside32 b j) (i == j) false _ _ (λ k. ground arith)
            (changed32-test clear_bit false length-clear_bit clear_bit-AllBytes test-clear_bit b i j
              v e)),
      (λ k. absurd (ground arith)),
    )
  ]
  test_bitmap-unmark_bitmap (bits64 b) i v =
      elim (Bool-cases (outside64 b (i / 2 ^ b.cluster_bits))) [
        | inl e ↦ rw e (bits64 b, refl, v, (λ j. refl), (λ k. refl))
        | inr e ↦
            let k : ℕ = i / 2 ^ b.cluster_bits in
            let w = outside64-Within b k e in
            rw e (
              bits64 (Ops.unmark_bmap ops b k),
              refl,
              (Laws.unmark laws b k k v w w).1,
              (λ j.
                  changed64-test ops false (k == j / 2 ^ b.cluster_bits) b (Ops.unmark_bmap ops b k)
                    j (Laws.unmark laws b k k v w w).0 (λ o. ground arith)
                    (λ h. (Laws.unmark laws b k _ v w h).2)),
              (λ o. absurd (ground arith)),
            )
      ]
