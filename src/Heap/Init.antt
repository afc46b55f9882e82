-- ===== src/Heap/Init.antt =====
-- The heap that `init` makes.
use pml.Common.{ℕ, ◌+◌, ◌-◌, ◌%◌, ◌^◌, ◌≤◌, ◌<◌, ◌≡◌, refl, [], ◌∷◌, arith, ==_refl}
use pml.Heap.{Heap, init}
use pml.Heap.Blocks.{IsValid}
use pml.Heap.Edit.{free_block}

-- The new heap is well-formed, with one free block. Its start and its size are multiples of 16, and it
-- has room for a header and a tail, above address 0 and below 2 ^ 64.
pub init-IsValid :
    (memory : Heap) (base size : ℕ)
    → base % 16 ≡ 0
    → size % 16 ≡ 0
    → 16 ≤ base
    → 32 ≤ size
    → base + size < 2 ^ 64
    → IsValid (init memory base size) (free_block (size - 32) ∷ [])
unfolding init
init-IsValid memory base size b s p l small =
    let e : base + 16 + (size - 32) ≡ base + size - 16 = omega arith in
    record {
      row = (
        record {
          head = rw (==_refl base) refl;
          magic = rw (e, ==_refl (base + size - 16)) refl;
          owner = rw (e, ==_refl (base + size - 16)) refl;
          aligned = omega arith;
        },
        tt,
      );
      ends = omega arith;
      base = b;
      positive = p;
      small = small;
    }
