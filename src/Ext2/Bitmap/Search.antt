-- ===== src/Ext2/Bitmap/Search.antt =====
-- The search for an unset bit in drivers/fs/ext2/bitmap.c: from clusters back to blocks.
use pml.Common.{
  ℕ, zero, suc, ◌+◌, ◌-◌, ◌*◌, ◌/◌, ◌%◌, ◌^◌, ◌≤◌, ◌<◌, ◌≡◌, refl, ◌∙◌, Bool, true, false, ◌||◌,
  Option, none, some, arith, ltb, leb, inl, inr, Bool-cases,
}
use native.Mathlib.Decide.{ℕ_discrete}
use native.Mathlib.Nat.{le-div_iff_mul-le, div-lt_iff_lt-mul, div-mul-le_self, mul-div_cancel}
use mathlib.Core.Path.{subst}
use pml.Common.Digits.{pow_pos}
use pml.Errno.{Result, ok, err}
use pml.Bitmap.{test_bit}
use pml.Ext2.{Bitmap64, Ops, sub64}
use pml.Ext2.Bitmap.{
  Bitmap, null, bits32, bits64, is_64, wide, outside32, outside64, zero_loop, to_block, test_bitmap,
  find_first_zero_bitmap,
}
use pml.Ext2.Bitmap.Laws.{Laws, IsValidBitmap, LeastZero, Searches}
use pml.Ext2.Bitmap.Point.{inside}

LeastZero-later :
    (test : ℕ → Bool) (s e : ℕ) (r : Result ℕ)
    → test s ≡ true
    → LeastZero test (s + 1) e r
    → LeastZero test s e r
unfolding LeastZero
LeastZero-later test s e (ok r) t (a, b, c, h) = (
  omega arith,
  b,
  c,
  λ j l u. elim (ℕ_discrete s j) [
    | yes p ↦ subst (λ k. test k ≡ true) p t
    | no n ↦ h j (omega arith) u
  ],
)
LeastZero-later test s e (err x) t (a, h) = (
  a,
  λ j l u. elim (ℕ_discrete s j) [
    | yes p ↦ subst (λ k. test k ≡ true) p t
    | no n ↦ h j (omega arith) u
  ],
)

-- The loops look at every number in turn.
zero_loop-LeastZero :
    (test : ℕ → Bool) (s e n : ℕ) → e + 1 ≡ s + n → LeastZero test s e (zero_loop test s n)
unfolding zero_loop LeastZero
zero_loop-LeastZero test s e zero h = (refl, λ j l u. absurd (omega arith))
zero_loop-LeastZero test s e (suc n) h = elim (Bool-cases (test s)) [
  | inl t ↦ rw t (
      LeastZero-later test s e (zero_loop test (s + 1) n) t
        (zero_loop-LeastZero test (s + 1) e n (omega arith)))
  | inr t ↦ rw t (omega arith, omega arith, t, λ j l u. absurd (omega arith))
]

-- Tests that agree on the range give the same answers.
LeastZero-agree :
    (test other : ℕ → Bool) (s e : ℕ) (r : Result ℕ)
    → ((j : ℕ) → s ≤ j → j ≤ e → other j ≡ test j)
    → LeastZero test s e r
    → LeastZero other s e r
unfolding LeastZero
LeastZero-agree test other s e (ok r) g (a, b, c, h) =
    (a, b, g r a b ∙ c, λ j l u. g j l (omega arith) ∙ h j l u)
LeastZero-agree test other s e (err x) g (a, h) = (a, λ j l u. g j l u ∙ h j l u)

pub div_mono : (x y k : ℕ) → 0 < k → x ≤ y → x / k ≤ y / k
div_mono x y k h l = (le-div_iff_mul-le {x = x / k} h).1 (omega (arith, div-mul-le_self x k))

-- The least cluster, as a block.
to_block-LeastZero :
    (test : ℕ → Bool) (cb s e : ℕ) (r : Result ℕ)
    → s ≤ e
    → e < 2 ^ 64
    → LeastZero test (s / 2 ^ cb) (e / 2 ^ cb) r
    → LeastZero (λ j. test (j / 2 ^ cb)) s e (to_block cb s r)
unfolding LeastZero to_block
to_block-LeastZero test cb s e (err x) l m (a, h) = (
  a,
  λ j p q.
      h (j / 2 ^ cb) (div_mono s j (2 ^ cb) (pow_pos cb) p) (div_mono j e (2 ^ cb) (pow_pos cb) q),
)
to_block-LeastZero test cb s e (ok q) l m (a, b, c, h) =
    let w = pow_pos cb in
    let top : q * 2 ^ cb ≤ e = (le-div_iff_mul-le w).0 b in
    let fits : q * 2 ^ cb % 2 ^ 64 ≡ q * 2 ^ cb = omega arith in
    let back : q * 2 ^ cb / 2 ^ cb ≡ q = mul-div_cancel q w in
    rw fits (elim (Bool-cases (leb s (q * 2 ^ cb))) [
      | inl t ↦ rw t (
        ground arith,
        top,
        rw back c,
        λ j p u. h (j / 2 ^ cb) (div_mono s j (2 ^ cb) w p) ((div-lt_iff_lt-mul w).1 u),
      )
      | inr t ↦
          let low : q ≤ s / 2 ^ cb = (le-div_iff_mul-le w).1 (ground arith) in
          let same : s / 2 ^ cb ≡ q = omega arith in
          rw t (omega arith, l, rw same c, λ j p u. absurd (omega arith))
    ])

-- the bitmaps that the search takes: 32-bit ones, and 64-bit ones with a good magic number
unfoldable pub has_magic : {P : Type 0} → Bitmap P → Bool
has_magic null = false
has_magic (bits32 b) = true
has_magic (bits64 b) = is_64 b

module _ {P : Type 0} (ops : Ops P) (laws : Laws ops) where
  clusters :
      (b : Bitmap64 P) (s e : ℕ)
      → Laws.Valid laws b
      → b.start ≤ s
      → s ≤ e
      → e ≤ b.end
      → (o : Option (Bitmap64 P → ℕ → ℕ → Result ℕ)) → Searches ops b s e o
      → LeastZero
          (Ops.test_bmap ops b)
          s
          e
          (elim o [ none ↦ zero_loop (Ops.test_bmap ops b) s (e + 1 - s) | some f ↦ f b s e ])
  unfolding Searches
  clusters b s e v l m n none h =
      zero_loop-LeastZero (Ops.test_bmap ops b) s e (e + 1 - s) (omega arith)
  clusters b s e v l m n (some f) h = h

  -- find_first_zero_bitmap answers with the least number of the range whose bit is unset, and with
  -- ENOENT when there is none. The bitmap is well-formed and has a good magic number, the range is
  -- not empty, and its ends are within the bounds and below 2 ^ 64. The operations have the laws,
  -- with or without a search of their own.
  pub find_first_zero_bitmap-LeastZero :
      (m : Bitmap P) (s e : ℕ)
      → IsValidBitmap laws m
      → has_magic m ≡ true
      → s ≤ e
      → e < 2 ^ 64
      → inside m s ≡ true
      → inside m e ≡ true
      → LeastZero (test_bitmap ops m) s e (find_first_zero_bitmap ops m s e)
  unfolding find_first_zero_bitmap test_bitmap inside IsValidBitmap has_magic
  find_first_zero_bitmap-LeastZero null s e v g l u i j = absurd (ground arith)
  find_first_zero_bitmap-LeastZero (bits32 b) s e v g l u i j =
      let a : (wide s || wide e) ≡ false = ground arith in
      let c : (ltb s b.start || (ltb b.end e || ltb e s)) ≡ false = ground arith in
      rw (a, c)
        (LeastZero-agree (λ k. test_bit b.bitmap (sub64 k b.start)) _ s e _
          (λ k p q. let o : outside32 b k ≡ false = ground arith in rw o refl)
          (zero_loop-LeastZero (λ k. test_bit b.bitmap (sub64 k b.start)) s e (e + 1 - s)
            (omega arith)))
  find_first_zero_bitmap-LeastZero (bits64 b) s e v g l u i j =
      let first : ℕ = s / 2 ^ b.cluster_bits in
      let last : ℕ = e / 2 ^ b.cluster_bits in
      let up : first ≤ last = div_mono s e (2 ^ b.cluster_bits) (pow_pos b.cluster_bits) l in
      let c : (ltb first b.start || (ltb b.end last || ltb e s)) ≡ false = ground arith in
      rw (g, c)
        (LeastZero-agree (λ k. Ops.test_bmap ops b (k / 2 ^ b.cluster_bits)) _ s e _
          (λ k p q.
            let x = div_mono s k (2 ^ b.cluster_bits) (pow_pos b.cluster_bits) p in
            let y = div_mono k e (2 ^ b.cluster_bits) (pow_pos b.cluster_bits) q in
            let o : outside64 b (k / 2 ^ b.cluster_bits) ≡ false = ground arith in rw o refl)
          (to_block-LeastZero (Ops.test_bmap ops b) b.cluster_bits s e _ l u (
            clusters b first last v (ground arith) up (ground arith) (Ops.find_first_zero ops)
              (Laws.search laws b first last v (ground arith) up (ground arith)))))
