-- ===== src/Heap/Edit.antt =====
-- Two ways to rewrite a part of a heap: as one block, or as a block in use with a free one behind it.
use pml.Common.{
  ℕ, ◌+◌, ◌-◌, ◌%◌, ◌≤◌, ◌≡◌, true, false, List, [], ◌∷◌, ◌++◌, arith, ◌==◌, if◌then◌else◌,
}
use pml.Heap.{Heap, tail_magic, new_tail}
use pml.Heap.Blocks.{Block, header_of, Stands, after, after_le, IsValid, replace}

abbrev pub used_block : ℕ → Block
used_block n = record { used = true; size = n }

abbrev pub free_block : ℕ → Block
free_block n = record { used = false; size = n }

-- The part has room for `n` bytes in one block, and its last tail is good.
module _ (h g : Heap) (pre mid post : List Block) (n : ℕ) (v : IsValid h (pre ++ (mid ++ post)))
    (bounds : (g.base_addr ≡ h.base_addr) × (g.end_addr ≡ h.end_addr))
    (room : let m = after h.base_addr pre in after m mid ≡ m + 32 + n)
    (magic : (h.tails (after h.base_addr pre + 16 + n)).magic ≡ tail_magic) (al : n % 16 ≡ 0) where
  pub whole-IsValid :
      (b : Block)
      → b.size ≡ n
      → ((i : ℕ)
          → let m = after h.base_addr pre in
            (g.headers i ≡ (if m == i then header_of b else h.headers i))
            × (g.tails i
                ≡ (if m + 16 + n == i then record (h.tails i) { header = m } else h.tails i)))
      → IsValid g (pre ++ (b ∷ post))
  whole-IsValid b e w =
      let m : ℕ = after h.base_addr pre in
      let low : h.base_addr ≤ m = after_le h.base_addr pre in
      replace h g pre mid (b ∷ []) post v bounds (omega (arith, room, e)) (
        λ i p q. (ground (arith, (w i).0), ground (arith, (w i).1)),
        (
          record {
            head = ground (arith, (w m).0);
            magic = rw e (ground (arith, (w (m + 16 + n)).1));
            owner = rw e (ground (arith, (w (m + 16 + n)).1));
            aligned = rw e al;
          },
          tt,
        ),
        λ i p q. (ground (arith, room, (w i).0), ground (arith, room, (w i).1)),
      )

  pub cut-IsValid :
      (size : ℕ)
      → size + 64 ≤ n
      → size % 16 ≡ 0
      → ((i : ℕ)
          → let m = after h.base_addr pre in
            (g.headers i ≡ (
              if m == i
              then header_of (used_block size)
              else if m + 16 + size + 16 == i
              then header_of (free_block (n - size - 32))
              else h.headers i))
            × (g.tails i ≡ (
                if m + 16 + n == i
                then record (h.tails i) { header = m + 16 + size + 16 }
                else if m + 16 + size == i
                then new_tail m
                else h.tails i)))
      → IsValid g (pre ++ (used_block size ∷ (free_block (n - size - 32) ∷ post)))
  cut-IsValid size fits sal w =
      let m : ℕ = after h.base_addr pre in
      let low : h.base_addr ≤ m = after_le h.base_addr pre in
      let k : m + 32 + size + 16 + (n - size - 32) ≡ m + 16 + n = omega arith in
      let first : Stands g m (used_block size) = record {
        head = ground (arith, (w m).0);
        magic = ground (arith, (w (m + 16 + size)).1);
        owner = ground (arith, (w (m + 16 + size)).1);
        aligned = sal;
      } in
      let second : Stands g (m + 32 + size) (free_block (n - size - 32)) = record {
        head = ground (arith, (w (m + 32 + size)).0);
        magic = rw k (ground (arith, (w (m + 16 + n)).1));
        owner = rw k (ground (arith, (w (m + 16 + n)).1));
        aligned = omega arith;
      } in
      replace h g pre mid (used_block size ∷ (free_block (n - size - 32) ∷ [])) post v bounds
        (omega (arith, room))
        (
          λ i p q. (ground (arith, (w i).0), ground (arith, (w i).1)),
          (first, (second, tt)),
          λ i p q. (ground (arith, room, (w i).0), ground (arith, room, (w i).1)),
        )
