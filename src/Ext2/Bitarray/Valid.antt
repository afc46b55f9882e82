-- ===== src/Ext2/Bitarray/Valid.antt =====
-- The well-formed arrays of drivers/fs/ext2/bitarray.c, and the changes of one bit of them.
use pml.Common.{
  ℕ, ◌+◌, ◌-◌, ◌*◌, ◌/◌, ◌%◌, ◌^◌, ◌≤◌, ◌<◌, ◌≡◌, ◌∙◌, ap, true, false, not, arith, ◌==◌,
  if◌then◌else◌, length, replicate, length-replicate, get_or-replicate,
}
use Prim.Native.Nat.{zero, suc, bit_and, bit_and-bitwise}
use mathlib.Core.Path.{subst}
use pml.Errno.{Result, ok, err}
use pml.Bitmap.{test_bit}
use pml.Bitmap.Laws.{
  AllBytes, length-set_bit, length-clear_bit, set_bit-AllBytes, clear_bit-AllBytes, test-set_bit,
  test-clear_bit,
}
use pml.Ext2.{sub64}
use pml.Ext2.Bitarray.{Bitarray, new_bmap, mark_bmap, unmark_bmap, test_bmap}

-- The array has a bit for each number from `start` to `real_end`.
pub record IsValid (b : Bitarray) : Type 0 where
  pub bytes : AllBytes b.private
  pub size : length b.private ≡ (b.real_end - b.start) / 8 + 1
  pub ordered : (b.start ≤ b.end) × (b.end ≤ b.real_end)
  pub small : b.real_end < 2 ^ 64 - 1

-- a number that has a bit
abbrev pub Inside : Bitarray → ℕ → Type 0
Inside b j = (b.start ≤ j) × (j ≤ b.real_end)

pub Inside-sub64 :
    (b : Bitarray) (j : ℕ)
    → IsValid b
    → Inside b j
    → (sub64 j b.start ≡ j - b.start) × (j - b.start < 8 * length b.private)
Inside-sub64 b j v h = (omega (arith, v.small), omega (arith, v.size))

pub Inside-sub64_eq :
    (b : Bitarray) (i j : ℕ)
    → IsValid b
    → Inside b i
    → Inside b j
    → (sub64 i b.start == sub64 j b.start) ≡ (i == j)
Inside-sub64_eq b i j v h k = rw ((Inside-sub64 b i v h).0, (Inside-sub64 b j v k).0) (ground arith)

replicate-AllBytes : (n : ℕ) → AllBytes (replicate n 0)
replicate-AllBytes zero = tt
replicate-AllBytes (suc n) = (omega arith, replicate-AllBytes n)

module _ (b : Bitarray) (i j : ℕ) (v : IsValid b) (h : Inside b i) (k : Inside b j) where
  -- Marking a number sets its bit and no other.
  pub test-mark_bmap :
      IsValid (mark_bmap b i)
      × (test_bmap (mark_bmap b i) j ≡ (if i == j then true else test_bmap b j))
  unfolding mark_bmap test_bmap
  test-mark_bmap =
      let (e, l) = Inside-sub64 b i v h in
      (
        record {
          bytes = set_bit-AllBytes b.private (sub64 i b.start) v.bytes;
          size = length-set_bit b.private (sub64 i b.start) ∙ v.size;
          ordered = v.ordered;
          small = v.small;
        },
        test-set_bit b.private (sub64 i b.start) (sub64 j b.start) v.bytes (omega arith)
            ∙ rw (Inside-sub64_eq b i j v h k),
      )

  -- Unmarking a number clears its bit and no other.
  pub test-unmark_bmap :
      IsValid (unmark_bmap b i)
      × (test_bmap (unmark_bmap b i) j ≡ (if i == j then false else test_bmap b j))
  unfolding unmark_bmap test_bmap
  test-unmark_bmap =
      let (e, l) = Inside-sub64 b i v h in
      (
        record {
          bytes = clear_bit-AllBytes b.private (sub64 i b.start) v.bytes;
          size = length-clear_bit b.private (sub64 i b.start) ∙ v.size;
          ordered = v.ordered;
          small = v.small;
        },
        test-clear_bit b.private (sub64 i b.start) (sub64 j b.start) v.bytes (omega arith)
            ∙ rw (Inside-sub64_eq b i j v h k),
      )

abbrev given : Result Bitarray → Bitarray → Bitarray
given (ok b) d = b
given (err x) d = d

no_bit : (i : ℕ) → not (bit_and 0 (2 ^ i) == 0) ≡ false
no_bit i = ground (arith, bit_and-bitwise 0 (2 ^ i))

-- A new bitmap is well-formed and has no bit set.
pub new_bmap-IsValid :
    (b c : Bitarray) (j : ℕ)
    → (b.start ≤ b.end) × (b.end ≤ b.real_end)
    → b.real_end < 2 ^ 64 - 1
    → new_bmap true b ≡ ok c
    → IsValid c × (test_bmap c j ≡ false)
unfolding new_bmap test_bmap test_bit
new_bmap-IsValid b c j o l e =
    let size : ℕ = sub64 b.real_end b.start / 8 + 1 in
    let f : size ≡ (b.real_end - b.start) / 8 + 1 = omega arith in
    subst (λ d. IsValid d × (test_bmap d j ≡ false)) (ap (λ r. given r b) e)
      (
        record {
          bytes = replicate-AllBytes size;
          size = length-replicate size 0 ∙ f;
          ordered = o;
          small = l;
        },
        rw (get_or-replicate {A = ℕ} size (sub64 j b.start / 8) 0) (no_bit (sub64 j b.start % 8)),
      )
