-- ===== src/Ext2/Bitmap/Laws.antt =====
-- What bitmap.c needs of the operations in `struct ext2_bitmap_ops`, and the proof that those of
-- bitarray.c have it.
use pml.Common.{
  ℕ, ◌+◌, ◌-◌, ◌/◌, ◌^◌, ◌≤◌, ◌<◌, ◌≡◌, refl, Bool, true, false, Option, none, some, arith, ◌==◌,
  if◌then◌else◌, length,
}
use pml.Errno.{Result, ok, err, enoent}
use pml.Bitmap.Laws.{AllBytes}
use pml.Ext2.{Bitmap32, Bitmap64, Ops}
use pml.Ext2.Bitarray.{
  Bitarray, bitarray_ops, mark_bmap, unmark_bmap, mark_bmap_extent, find_first_zero,
}
use pml.Ext2.Bitarray.Valid.{IsValid, test-mark_bmap, test-unmark_bmap}
use pml.Ext2.Bitarray.Extent.{among, mark_bmap_extent-test}
use pml.Ext2.Bitarray.Least.{Answers, find_first-Answers}
use pml.Ext2.Bitmap.{Bitmap, null, bits32, bits64}

-- The bounds stay as they are.
abbrev pub Same : {P : Type 0} → Bitmap64 P → Bitmap64 P → Type 0
Same b c =
    (c.magic ≡ b.magic) × (c.start ≡ b.start) × (c.end ≡ b.end) × (c.cluster_bits ≡ b.cluster_bits)

-- The answer to a search for the least number from `s` to `e` that fails a test.
unfoldable pub LeastZero : (ℕ → Bool) → (s e : ℕ) → Result ℕ → Type 0
LeastZero test s e (ok r) =
    (s ≤ r) × (r ≤ e) × (test r ≡ false) × ((j : ℕ) → s ≤ j → j < r → test j ≡ true)
LeastZero test s e (err x) = (x ≡ enoent) × ((j : ℕ) → s ≤ j → j ≤ e → test j ≡ true)

abbrev pub Within : {P : Type 0} → Bitmap64 P → ℕ → Type 0
Within b j = (b.start ≤ j) × (j ≤ b.end)

-- The search may be missing.
unfoldable pub Searches :
    {P : Type 0} → Ops P → Bitmap64 P → (s e : ℕ) → Option (Bitmap64 P → ℕ → ℕ → Result ℕ) → Type 0
Searches ops b s e none = Unit
Searches ops b s e (some f) = LeastZero (Ops.test_bmap ops b) s e (f b s e)

pub record Laws {P : Type 0} (ops : Ops P) : Type 1 where
  pub Valid : Bitmap64 P → Type 0
  pub bounds : (b : Bitmap64 P) → Valid b → (b.start ≤ b.end) × (b.end < 2 ^ 64 - 1)
  pub mark :
      (b : Bitmap64 P) (i j : ℕ)
      → Valid b
      → Within b i
      → Within b j
      → let c = Ops.mark_bmap ops b i in
        Same b c
        × Valid c
        × (Ops.test_bmap ops c j ≡ (if i == j then true else Ops.test_bmap ops b j))
  pub unmark :
      (b : Bitmap64 P) (i j : ℕ)
      → Valid b
      → Within b i
      → Within b j
      → let c = Ops.unmark_bmap ops b i in
        Same b c
        × Valid c
        × (Ops.test_bmap ops c j ≡ (if i == j then false else Ops.test_bmap ops b j))
  pub mark_extent :
      (b : Bitmap64 P) (s n j : ℕ)
      → Valid b
      → b.start ≤ s
      → s + n ≤ b.end + 1
      → Within b j
      → let c = Ops.mark_bmap_extent ops b s n in
        Same b c
        × Valid c
        × (Ops.test_bmap ops c j ≡ (if among s n j then true else Ops.test_bmap ops b j))
  pub search :
      (b : Bitmap64 P) (s e : ℕ)
      → Valid b
      → b.start ≤ s
      → s ≤ e
      → e ≤ b.end
      → Searches ops b s e (Ops.find_first_zero ops)

pub Answers→LeastZero :
    (addr : ℕ) (b : Bitarray) (s e : ℕ) (r : Result ℕ)
    → Answers false b s e r
    → LeastZero (Ops.test_bmap (bitarray_ops addr) b) s e r
unfolding Answers bitarray_ops LeastZero
Answers→LeastZero addr b s e (ok r) h = h
Answers→LeastZero addr b s e (err x) h = h

-- The bit array has the laws, at any address.
unfoldable pub bitarray_ops-Laws : (addr : ℕ) → Laws (bitarray_ops addr)
unfolding bitarray_ops Searches mark_bmap unmark_bmap mark_bmap_extent
bitarray_ops-Laws addr = record {
  Valid = IsValid;
  bounds = λ b v. (v.ordered.0, omega (arith, v.ordered.1, v.small));
  mark = λ b i j v h k.
      let r =
        test-mark_bmap b i j v (h.0, omega (arith, h.1, v.ordered.1))
          (k.0, omega (arith, k.1, v.ordered.1)) in
      ((refl, refl, refl, refl), r.0, r.1);
  unmark = λ b i j v h k.
      let r =
        test-unmark_bmap b i j v (h.0, omega (arith, h.1, v.ordered.1))
          (k.0, omega (arith, k.1, v.ordered.1)) in
      ((refl, refl, refl, refl), r.0, r.1);
  mark_extent = λ b s n j v l m k.
      let r =
        mark_bmap_extent-test b s n j v l (omega (arith, v.ordered.1))
          (k.0, omega (arith, k.1, v.ordered.1)) in
      ((refl, refl, refl, refl), r.0, r.1);
  search = λ b s e v l m n.
      Answers→LeastZero addr b s e (find_first_zero addr b s e)
        (find_first-Answers addr b s e v l m n).0;
}

-- the array of a 32-bit bitmap
pub record IsValid32 (b : Bitmap32) : Type 0 where
  pub bytes : AllBytes b.bitmap
  pub size : length b.bitmap ≡ (b.real_end - b.start) / 8 + 1
  pub ordered : (b.start ≤ b.end) × (b.end ≤ b.real_end)
  pub small : b.real_end < 2 ^ 32

module _ {P : Type 0} {ops : Ops P} (laws : Laws ops) where
  unfoldable pub IsValidBitmap : Bitmap P → Type 0
  IsValidBitmap null = Unit
  IsValidBitmap (bits32 b) = IsValid32 b
  IsValidBitmap (bits64 b) = Laws.Valid laws b
