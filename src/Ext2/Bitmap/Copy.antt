-- ===== src/Ext2/Bitmap/Copy.antt =====
-- Bitmaps are written to a block and read from it as bytes, in drivers/fs/ext2/bitmap.c.
use pml.Common.{
  ℕ, zero, suc, ◌+◌, ◌-◌, ◌/◌, ◌%◌, ◌^◌, ◌≤◌, ◌<◌, ◌≡◌, ◌∙◌, ap, ◌||◌, List, [], ◌∷◌, arith, ltb,
  inl, inr, Bool-cases, length, take, drop, take-append, length-take, take_all,
}
use mathlib.Core.Path.{subst}
use pml.Errno.{Result, ok, err}
use pml.Ext2.{add64, sub64}
use pml.Ext2.Bitarray.{bitarray_ops, set_bmap_range, get_bmap_range, copy}
use pml.Ext2.Bitmap.{Bitmap, null, bits32, bits64, is_64, wide, set_bitmap_range, get_bitmap_range}
use pml.Ext2.Bitmap.Laws.{IsValid32}

-- What was copied is there.
take-drop-copy :
    (to : List ℕ) (o : ℕ) (bytes : List ℕ) (n : ℕ)
    → o ≤ length to
    → length bytes ≡ n
    → take n (drop o (copy to o bytes n)) ≡ bytes
take-drop-copy to zero bytes n h e =
    take-append n (take n bytes) (drop (0 + n) to) (length-take n bytes (omega arith))
    ∙ take_all n bytes (omega arith)
take-drop-copy (x ∷ to) (suc o) bytes n h e =
    let f : suc o + n ≡ suc (o + n) = omega arith in
    rw f (take-drop-copy to o bytes n (omega arith) e)
take-drop-copy [] (suc o) bytes n h e = absurd (omega arith)

-- the bitmaps and ranges for which the copies stay in the array: a 64-bit bitmap has its first byte
-- at the number 0, whatever its bounds
unfoldable pub Fits : Bitmap (List ℕ) → (start num : ℕ) → Type 0
Fits null start num = Unit
Fits (bits32 b) start num = IsValid32 b × (start < 2 ^ 32)
Fits (bits64 b) start num = start / 8 + (num + 7) / 8 ≤ length b.private

stored : Result (Bitmap (List ℕ)) → Bitmap (List ℕ)
stored (ok n) = n
stored (err x) = null

-- What set_bitmap_range stores get_bitmap_range reads back: when a call of set_bitmap_range with the
-- bytes for `num` bits succeeds, a call of get_bitmap_range for the same range succeeds with the same
-- bytes. The range fits, and `num` and its rounding are below 2 ^ 32.
pub get_bitmap_range-set_bitmap_range :
    (addr : ℕ) (m n : Bitmap (List ℕ)) (start num : ℕ) (bytes : List ℕ)
    → Fits m start num
    → 0 < num
    → num + 7 < 2 ^ 32
    → length bytes ≡ (num + 7) / 8
    → set_bitmap_range (bitarray_ops addr) m start num bytes ≡ ok n
    → get_bitmap_range (bitarray_ops addr) n start num ≡ ok bytes
unfolding set_bitmap_range get_bitmap_range Fits bitarray_ops set_bmap_range get_bmap_range stored
get_bitmap_range-set_bitmap_range addr null n start num bytes f p w l e = absurd (ground arith)
get_bitmap_range-set_bitmap_range addr (bits32 b) n start num bytes (v, h) p w l e =
    let last : sub64 (add64 start num) 1 ≡ start + num - 1 = omega arith in
    let k : (num + 7) % 2 ^ 32 ≡ num + 7 = omega arith in
    elim (Bool-cases (wide (start + num - 1))) [
      | inl t ↦ absurd (let f = rw (last, t) at e in ground arith)
      | inr t ↦ elim (Bool-cases (ltb start b.start || ltb b.real_end (start + num - 1))) [
        | inl u ↦ absurd (let f = rw (last, t, u) at e in ground arith)
        | inr u ↦
            let x = v.size in
            let y = v.small in
            let z = v.ordered in
            let o : sub64 start b.start ≡ start - b.start = ground arith in
            subst (λ c. get_bitmap_range (bitarray_ops addr) c start num ≡ ok bytes)
              (ap stored (rw (last, t, u, k, o) at e))
              (rw (last, t, u, k, o)
                (ap ok (
                  take-drop-copy b.bitmap ((start - b.start) / 8) bytes ((num + 7) / 8)
                    (ground arith) l)))
      ]
    ]
get_bitmap_range-set_bitmap_range addr (bits64 b) n start num bytes f p w l e =
    let k : add64 num 7 ≡ num + 7 = omega arith in
    elim (Bool-cases (is_64 b)) [
      | inr t ↦ absurd (let g = rw t at e in ground arith)
      | inl t ↦
          subst (λ c. get_bitmap_range (bitarray_ops addr) c start num ≡ ok bytes)
            (ap stored (rw (t, k) at e))
            (rw (t, k)
              (ap ok (take-drop-copy b.private (start / 8) bytes ((num + 7) / 8) (omega arith) l)))
    ]
