-- ===== src/Common/Bits.antt =====
-- `x & (1 << k)` in arithmetic: the digit of weight `2 ^ k`, in its place.
use Prim.Native.Nat.{ℕ, zero, suc, ◌*◌, ◌/◌, ◌%◌, ◌^◌, ◌≤◌, min, bit_and, digits, bit_and-bitwise}
use mathlib.Core.Path.{◌≡◌, refl, ◌∙◌, ap, sym}
use native.Mathlib.Nat.{zero-div, div-div-eq-div-mul, pow-succ'}
use native.Mathlib.Omega.{arith}

-- what `bit_and` stands for, with the fuel of its recursion
abbrev common : ℕ → ℕ → ℕ → ℕ
common n a m = digits (λ b. zero) min n a m

common_zero : (n a : ℕ) → common n a 0 ≡ 0
common_zero zero zero = refl
common_zero zero (suc a) = refl
common_zero (suc n) zero = refl
common_zero (suc n) (suc a) = omega (arith, common_zero n (suc a / 2))

zero_digit : (m : ℕ) → 0 / m % 2 * m ≡ 0
zero_digit m = rw zero-div (omega arith)

common_pow : (k n a : ℕ) → a ≤ n → common n a (2 ^ k) ≡ a / 2 ^ k % 2 * 2 ^ k
common_pow k zero zero h = sym (zero_digit (2 ^ k))
common_pow k (suc n) zero h = sym (zero_digit (2 ^ k))
common_pow k zero (suc a) h = absurd (omega arith)
common_pow zero (suc n) (suc a) h = omega (arith, common_zero n (suc a / 2))
common_pow (suc k) (suc n) (suc a) h =
    let ih = common_pow k n (suc a / 2) (omega arith) in
    let e : 2 ^ suc k ≡ 2 * 2 ^ k = pow-succ' 2 k in
    let half : 2 ^ suc k / 2 ≡ 2 ^ k = omega arith in
    let even : 2 ^ suc k % 2 ≡ 0 = omega arith in
    let q : suc a / 2 / 2 ^ k ≡ suc a / 2 ^ suc k =
      div-div-eq-div-mul (suc a) 2 (2 ^ k) ∙ ap (λ m. suc a / m) (sym e) in
    rw (half, even, ih, q) (omega (arith, ap (λ m. suc a / 2 ^ suc k % 2 * m) e))

pub bit_and-pow : (a k : ℕ) → bit_and a (2 ^ k) ≡ a / 2 ^ k % 2 * 2 ^ k
bit_and-pow a k = bit_and-bitwise a (2 ^ k) ∙ common_pow k a a (omega arith)
