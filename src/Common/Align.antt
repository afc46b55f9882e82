-- ===== src/Common/Align.antt =====
-- `x | 15`: the arithmetic of alignment to 16 bytes.
use Prim.Native.Nat.{ℕ, zero, suc, ◌+◌, ◌*◌, ◌/◌, ◌^◌, ◌<◌, bit_or}
use mathlib.Core.Path.{◌≡◌, ◌∙◌, ap}
use native.Mathlib.Nat.{pow-succ'}
use native.Mathlib.Omega.{arith}
use pml.Common.Tests.{ltb, if◌then◌else◌}
use pml.Common.Digits.{digit, digit-lt, digit-bit_or, digit_zero, bit_or-lt}

-- Numbers with the same digits are the same.
pub digit-ext : (w x y : ℕ) → x < 2 ^ w → y < 2 ^ w → ((j : ℕ) → digit x j ≡ digit y j) → x ≡ y
digit-ext zero x y h k e = omega arith
digit-ext (suc w) x y h k e =
    let r =
      digit-ext w (x / 2) (y / 2) (omega (arith, pow-succ' 2 w)) (omega (arith, pow-succ' 2 w))
        (λ j. e (suc j)) in
    omega (arith, r, e 0)

-- the low `k` digits set
fill : ℕ → ℕ → ℕ
fill zero x = x
fill (suc k) x = fill k (x / 2) * 2 + 1

digit-fill : (k x j : ℕ) → digit (fill k x) j ≡ (if ltb j k then 1 else digit x j)
unfolding fill
digit-fill zero x j = ground arith
digit-fill (suc k) x zero = ground arith
digit-fill (suc k) x (suc j) =
    let half : (fill k (x / 2) * 2 + 1) / 2 ≡ fill k (x / 2) = omega arith in
    ap (λ m. digit m j) half ∙ digit-fill k (x / 2) j ∙ ground arith

pub or_fifteen : (x : ℕ) → x < 2 ^ 64 → bit_or x 15 ≡ x / 16 * 16 + 15
unfolding fill
or_fifteen x h =
    let filled : fill 4 x ≡ x / 16 * 16 + 15 = omega arith in
    digit-ext 64 (bit_or x 15) (x / 16 * 16 + 15) (bit_or-lt 64 x 15 h (omega arith)) (omega arith)
      (λ j.
        let a = digit-bit_or x 15 j in
        let b = digit-fill 4 0 j in
        let c = digit-fill 4 x j in
        let d = ap (λ m. digit m j) filled in ground (arith, digit_zero j, digit-lt x j))
