-- ===== src/Bitmap/Bytes.antt =====
-- The masks of one bit of a byte, by evaluation of all bytes and positions.
use native.Mathlib.Decide.{ℕ_discrete}
use pml.Common.{
  ℕ, zero, suc, ◌-◌, ◌^◌, ◌<◌, ◌≡◌, refl, Bool, true, false, not, ◌&&◌, arith, bit_and, bit_or,
  ◌==◌, ltb, if◌then◌else◌,
}

-- whether a test passes at every number under the bound
every : (ℕ → Bool) → ℕ → Bool
every test zero = true
every test (suc bound) = if test bound then every test bound else false

every→test : (test : ℕ → Bool) (bound i : ℕ) → i < bound → every test bound ≡ true → test i ≡ true
unfolding every
every→test test zero i l h = absurd (omega arith)
every→test test (suc bound) i l h = elim (ℕ_discrete i bound) [
  | yes e ↦ rw e (ground arith)
  | no n ↦ every→test test bound i (omega arith) (ground arith)
]

-- the bit `k` of the byte `b`
abbrev pub bit : ℕ → ℕ → Bool
bit b k = not (bit_and b (2 ^ k) == 0)

abbrev same_bool : Bool → Bool → Bool
same_bool true b = b
same_bool false b = not b

same_bool→eq : (a b : Bool) → same_bool a b ≡ true → a ≡ b
same_bool→eq true b h = ground arith
same_bool→eq false b h = ground arith

abbrev set_law : ℕ → ℕ → ℕ → Bool
set_law b k j = same_bool (bit (bit_or b (2 ^ k)) j) (if k == j then true else bit b j)

abbrev clear_law : ℕ → ℕ → ℕ → Bool
clear_law b k j = same_bool (bit (bit_and b (255 - 2 ^ k)) j) (if k == j then false else bit b j)

abbrev small_law : ℕ → ℕ → ℕ → Bool
small_law b k j = ltb (bit_or b (2 ^ k)) 256 && ltb (bit_and b (255 - 2 ^ k)) 256

-- a test of a byte and two positions in it
abbrev for_bytes : (ℕ → ℕ → ℕ → Bool) → Bool
for_bytes p = every (λ b. every (λ k. every (p b k) 8) 8) 256

set_table : for_bytes set_law ≡ true
unfolding every
set_table = refl

clear_table : for_bytes clear_law ≡ true
unfolding every
clear_table = refl

small_table : for_bytes small_law ≡ true
unfolding every
small_table = refl

module _ (p : ℕ → ℕ → ℕ → Bool) (b k j : ℕ) where
  for_bytes→test : for_bytes p ≡ true → b < 256 → k < 8 → j < 8 → p b k j ≡ true
  for_bytes→test h hb hk hj = every→test (p b k) 8 j hj (
      every→test (λ l. every (p b l) 8) 8 k hk
        (every→test (λ a. every (λ l. every (p a l) 8) 8) 256 b hb h))

module _ (b k j : ℕ) (hb : b < 256) (hk : k < 8) (hj : j < 8) where
  pub bit-set : bit (bit_or b (2 ^ k)) j ≡ (if k == j then true else bit b j)
  bit-set = same_bool→eq _ _ (for_bytes→test set_law b k j set_table hb hk hj)

  pub bit-clear : bit (bit_and b (255 - 2 ^ k)) j ≡ (if k == j then false else bit b j)
  bit-clear = same_bool→eq _ _ (for_bytes→test clear_law b k j clear_table hb hk hj)

module _ (b k : ℕ) (hb : b < 256) (hk : k < 8) where
  pub byte_small : (bit_or b (2 ^ k) < 256) × (bit_and b (255 - 2 ^ k) < 256)
  byte_small =
      let h = for_bytes→test small_law b k 0 small_table hb hk (omega arith) in ground arith

-- every bit of a byte of ones
pub full_bits : (i : ℕ) → i < 8 → bit 255 i ≡ true
unfolding every
full_bits i h = every→test (bit 255) 8 i h refl
