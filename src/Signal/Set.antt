-- ===== src/Signal/Set.antt =====
-- Sets of signals as 64-bit words: what the operations do to each of the signals 1 to 64.
use pml.Common.{
  ℕ, ◌-◌, ◌%◌, ◌^◌, ◌≤◌, ◌<◌, ◌≡◌, ◌∙◌, ap, Bool, true, false, not, ◌&&◌, ◌||◌, arith, bit_and,
  bit_or, ◌==◌, if◌then◌else◌,
}
use Prim.Native.Nat.{min, max}
use pml.Common.Digits.{
  digit, digit-lt, digit-pow, digit-bit_or, digit-bit_and, digit-complement, bit_and_pow-digit,
  pow_lt,
}
use pml.Signal.{mask, sigaddset, sigdelset, sigismember}

-- the bit of a signal
abbrev place : ℕ → ℕ
place sig = (64 - sig % 64) % 64

place-lt : (sig : ℕ) → place sig < 64
place-lt sig = omega arith

-- a signal number
abbrev pub IsSig : ℕ → Type 0
IsSig sig = (1 ≤ sig) × (sig ≤ 64)

place-injective : (i j : ℕ) → IsSig i → IsSig j → (place i == place j) ≡ (i == j)
place-injective i j h k = ground arith

member-digit : (s sig : ℕ) → sigismember s sig ≡ (digit s (place sig) == 1)
unfolding sigismember
member-digit s sig = bit_and_pow-digit s (place sig)

pow_small : (k : ℕ) → k < 64 → 2 ^ k < 2 ^ 64
pow_small k h = pow_lt k 64 h

max_one :
    (d : ℕ) (b : Bool) → d < 2 → (max d (if b then 1 else 0) == 1) ≡ (if b then true else d == 1)
max_one d true h = ground arith
max_one d false h = ground arith

min_one :
    (d : ℕ) (b : Bool)
    → d < 2
    → (min d (1 - (if b then 1 else 0)) == 1) ≡ (if b then false else d == 1)
min_one d true h = ground arith
min_one d false h = ground arith

module _ (s i j : ℕ) (h : IsSig i) (k : IsSig j) where
  -- `sigaddset` adds one signal.
  pub member-add : sigismember (sigaddset s i) j ≡ (if i == j then true else sigismember s j)
  unfolding sigaddset
  member-add =
      member-digit (bit_or s (mask i)) j
      ∙ ap (λ d. d == 1)
          (digit-bit_or s (mask i) (place j)
            ∙ ap (λ d. max (digit s (place j)) d) (digit-pow (place i) (place j)))
      ∙ max_one (digit s (place j)) (place i == place j) (digit-lt s (place j))
      ∙ rw (place-injective i j h k, member-digit s j)

  -- `sigdelset` takes one signal away.
  pub member-del : sigismember (sigdelset s i) j ≡ (if i == j then false else sigismember s j)
  unfolding sigdelset
  member-del =
      member-digit (bit_and s (2 ^ 64 - 1 - mask i)) j
      ∙ ap (λ d. d == 1)
          (digit-bit_and s (2 ^ 64 - 1 - mask i) (place j)
            ∙ ap (λ d. min (digit s (place j)) d)
                (digit-complement 64 (place j) (mask i) (pow_small (place i) (place-lt i))
                    (place-lt j)
                  ∙ ap (λ d. 1 - d) (digit-pow (place i) (place j))))
      ∙ min_one (digit s (place j)) (place i == place j) (digit-lt s (place j))
      ∙ rw (place-injective i j h k, member-digit s j)

digit_or : (d e : ℕ) → d < 2 → e < 2 → (max d e == 1) ≡ ((d == 1) || (e == 1))
digit_or d e h k = ground arith

digit_without : (d e : ℕ) → d < 2 → e < 2 → (min d (1 - e) == 1) ≡ ((d == 1) && not (e == 1))
digit_without d e h k = ground arith

-- `a | b` is the union.
pub member-or : (a b j : ℕ) → sigismember (bit_or a b) j ≡ (sigismember a j || sigismember b j)
member-or a b j =
    member-digit (bit_or a b) j
    ∙ ap (λ d. d == 1) (digit-bit_or a b (place j))
    ∙ digit_or (digit a (place j)) (digit b (place j)) (digit-lt a (place j)) (digit-lt b (place j))
    ∙ rw (member-digit a j, member-digit b j)

-- `a & ~b` is the difference.
pub member-without :
    (a b j : ℕ)
    → b < 2 ^ 64
    → sigismember (bit_and a (2 ^ 64 - 1 - b)) j ≡ (sigismember a j && not (sigismember b j))
member-without a b j h =
    member-digit (bit_and a (2 ^ 64 - 1 - b)) j
    ∙ ap (λ d. d == 1)
        (digit-bit_and a (2 ^ 64 - 1 - b) (place j)
          ∙ ap (λ d. min (digit a (place j)) d) (digit-complement 64 (place j) b h (place-lt j)))
    ∙ digit_without (digit a (place j)) (digit b (place j)) (digit-lt a (place j))
        (digit-lt b (place j))
    ∙ rw (member-digit a j, member-digit b j)
