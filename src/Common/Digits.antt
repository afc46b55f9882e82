-- ===== src/Common/Digits.antt =====
-- The binary digits of a number, and what the operations of C on bits do to each of them.
use Prim.Native.Nat.{
  ℕ, zero, suc, ◌+◌, ◌-◌, ◌*◌, ◌/◌, ◌%◌, ◌^◌, ◌≤◌, ◌<◌, min, max, bit_and, bit_or, digits,
  bit_and-bitwise, bit_or-bitwise,
}
use mathlib.Core.Path.{◌≡◌, refl, ◌∙◌, ap, sym, subst}
use mathlib.Core.Bool.{not}
use native.Mathlib.Nat.{div-div-eq-div-mul, pow-succ'}
use native.Mathlib.Omega.{arith}
use pml.Common.Tests.{◌==◌, if◌then◌else◌}
use pml.Common.Bits.{bit_and-pow}

-- the digit of weight `2 ^ j`
abbrev pub digit : ℕ → ℕ → ℕ
digit x zero = x % 2
digit x (suc j) = digit (x / 2) j

pub digit_div : (x j : ℕ) → digit x j ≡ x / 2 ^ j % 2
digit_div x zero = omega arith
digit_div x (suc j) =
    digit_div (x / 2) j
    ∙ ap (λ m. m % 2) (div-div-eq-div-mul x 2 (2 ^ j) ∙ ap (λ m. x / m) (sym (pow-succ' 2 j)))

pub digit-lt : (x j : ℕ) → digit x j < 2
digit-lt x zero = omega arith
digit-lt x (suc j) = digit-lt (x / 2) j

pub digit_zero : (j : ℕ) → digit 0 j ≡ 0
digit_zero zero = refl
digit_zero (suc j) = digit_zero j

pub digit-pow : (k j : ℕ) → digit (2 ^ k) j ≡ (if k == j then 1 else 0)
digit-pow zero zero = refl
digit-pow zero (suc j) = digit_zero j ∙ ground arith
digit-pow (suc k) zero = ground (arith, pow-succ' 2 k)
digit-pow (suc k) (suc j) =
    let half : 2 ^ suc k / 2 ≡ 2 ^ k = omega (arith, pow-succ' 2 k) in
    rw half (digit-pow k j ∙ ground arith)

-- Each digit of the result is the operation on the two digits.
module _ (z : ℕ → ℕ) (f : ℕ → ℕ → ℕ) (small : (x y : ℕ) → x < 2 → y < 2 → f x y < 2)
    (ended : (b j : ℕ) → digit (z b) j ≡ f 0 (digit b j)) where
  digit-digits : (j n a b : ℕ) → a ≤ n → digit (digits z f n a b) j ≡ f (digit a j) (digit b j)
  digit-digits j zero zero b h = ended b j ∙ ap (λ d. f d (digit b j)) (sym (digit_zero j))
  digit-digits j (suc n) zero b h = ended b j ∙ ap (λ d. f d (digit b j)) (sym (digit_zero j))
  digit-digits j zero (suc a) b h = absurd (omega arith)
  digit-digits zero (suc n) (suc a) b h =
      omega (arith, small (suc a % 2) (b % 2) (omega arith) (omega arith))
  digit-digits (suc j) (suc n) (suc a) b h =
      let rest : ℕ = digits z f n (suc a / 2) (b / 2) in
      let half : (rest * 2 + f (suc a % 2) (b % 2)) / 2 ≡ rest =
        omega (arith, small (suc a % 2) (b % 2) (omega arith) (omega arith)) in
      ap (λ m. digit m j) half ∙ digit-digits j n (suc a / 2) (b / 2) (omega arith)

pub digit-bit_and : (a b j : ℕ) → digit (bit_and a b) j ≡ min (digit a j) (digit b j)
digit-bit_and a b j =
    ap (λ m. digit m j) (bit_and-bitwise a b)
    ∙ digit-digits (λ _. 0) min (λ x y p q. omega arith) (λ c i. digit_zero i ∙ omega arith) j a a b
        (omega arith)

pub digit-bit_or : (a b j : ℕ) → digit (bit_or a b) j ≡ max (digit a j) (digit b j)
digit-bit_or a b j =
    ap (λ m. digit m j) (bit_or-bitwise a b)
    ∙ digit-digits (λ c. c) max (λ x y p q. omega arith) (λ c i. omega arith) j a a b (omega arith)

-- `~x` in a word of `n` bits
pub digit-complement : (n j x : ℕ) → x < 2 ^ n → j < n → digit (2 ^ n - 1 - x) j ≡ 1 - digit x j
digit-complement zero j x h l = absurd (omega arith)
digit-complement (suc n) zero x h l = omega (arith, pow-succ' 2 n)
digit-complement (suc n) (suc j) x h l =
    let half : (2 ^ suc n - 1 - x) / 2 ≡ 2 ^ n - 1 - x / 2 = omega (arith, pow-succ' 2 n) in
    ap (λ m. digit m j) half
    ∙ digit-complement n j (x / 2) (omega (arith, pow-succ' 2 n)) (omega arith)

pub pow_pos : (i : ℕ) → 0 < 2 ^ i
pow_pos zero = omega arith
pow_pos (suc i) = omega (arith, pow-succ' 2 i, pow_pos i)

pub pow_lt : (k n : ℕ) → k < n → 2 ^ k < 2 ^ n
pow_lt k zero h = absurd (omega arith)
pow_lt zero (suc n) h = omega (arith, pow-succ' 2 n, pow_pos n)
pow_lt (suc k) (suc n) h = omega (arith, pow-succ' 2 k, pow-succ' 2 n, pow_lt k n (omega arith))

-- `x & (1 << k)`, as a test
pub bit_and_pow-digit : (x k : ℕ) → not (bit_and x (2 ^ k) == 0) ≡ (digit x k == 1)
bit_and_pow-digit x k =
    let e : bit_and x (2 ^ k) ≡ digit x k * 2 ^ k =
      bit_and-pow x k ∙ ap (λ d. d * 2 ^ k) (sym (digit_div x k)) in
    rw e (go (digit x k) (2 ^ k) (digit-lt x k) (pow_pos k))
  where
    go : (d p : ℕ) → d < 2 → 0 < p → not (d * p == 0) ≡ (d == 1)
    go zero p h l = ground arith
    go (suc zero) p h l = ground arith
    go (suc (suc d)) p h l = absurd (omega arith)

-- A result is as wide as its arguments.
digits-lt :
    (z : ℕ → ℕ) (f : ℕ → ℕ → ℕ)
    → ((x y : ℕ) → x < 2 → y < 2 → f x y < 2)
    → ((b w : ℕ) → b < 2 ^ w → z b < 2 ^ w)
    → (w n a b : ℕ) → a < 2 ^ w
    → b < 2 ^ w
    → digits z f n a b < 2 ^ w
digits-lt z f small ended w zero a b ha hb = ended b w hb
digits-lt z f small ended w (suc n) zero b ha hb = ended b w hb
digits-lt z f small ended zero (suc n) (suc a) b ha hb = absurd (omega arith)
digits-lt z f small ended (suc w) (suc n) (suc a) b ha hb = omega (
  arith,
  pow-succ' 2 w,
  small (suc a % 2) (b % 2) (omega arith) (omega arith),
  digits-lt z f small ended w n (suc a / 2) (b / 2) (omega (arith, pow-succ' 2 w))
      (omega (arith, pow-succ' 2 w)),
)

pub bit_or-lt : (w a b : ℕ) → a < 2 ^ w → b < 2 ^ w → bit_or a b < 2 ^ w
bit_or-lt w a b ha hb =
    subst (λ m. m < 2 ^ w) (sym (bit_or-bitwise a b))
      (digits-lt (λ c. c) max (λ x y p q. omega arith) (λ c u h. h) w a a b ha hb)

pub bit_and-lt : (w a b : ℕ) → a < 2 ^ w → b < 2 ^ w → bit_and a b < 2 ^ w
bit_and-lt w a b ha hb =
    subst (λ m. m < 2 ^ w) (sym (bit_and-bitwise a b))
      (digits-lt (λ _. 0) min (λ x y p q. omega arith) (λ c u h. omega arith) w a a b ha hb)
