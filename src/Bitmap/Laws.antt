-- ===== src/Bitmap/Laws.antt =====
-- Setting or clearing one bit of a bitmap changes that bit and no other.
use pml.Common.{
  ℕ, zero, suc, ◌*◌, ◌/◌, ◌%◌, ◌^◌, ◌<◌, ◌≡◌, ◌≢◌, ap, ◌∙◌, true, false, not, List, [], ◌∷◌, arith,
  bit_and, ◌==◌, ==_ne, if◌then◌else◌, get_or, set, length, All, get_or-set_self, get_or-set_ne,
  length-set, get_or_out,
}
use native.Mathlib.Decide.{ℕ_discrete, dec_lt}
use Prim.Native.Nat.{bit_and-bitwise}
use pml.Bitmap.{set_bit, clear_bit, test_bit}
use pml.Bitmap.Bytes.{bit-set, bit-clear, byte_small}

-- an array of `unsigned char`
abbrev pub AllBytes : List ℕ → Type 0
AllBytes bs = All (λ b. b < 256) bs

pub get_or-lt : (bs : List ℕ) (i : ℕ) → AllBytes bs → get_or bs i 0 < 256
get_or-lt [] i h = omega arith
get_or-lt (b ∷ bs) zero h = h.0
get_or-lt (b ∷ bs) (suc i) h = get_or-lt bs i h.1

AllBytes-set : (bs : List ℕ) (i v : ℕ) → AllBytes bs → v < 256 → AllBytes (set bs i v)
AllBytes-set [] i v h l = tt
AllBytes-set (b ∷ bs) zero v h l = (l, h.1)
AllBytes-set (b ∷ bs) (suc i) v h l = (h.0, AllBytes-set bs i v h.1 l)

pub length-set_bit : (bs : List ℕ) (i : ℕ) → length (set_bit bs i) ≡ length bs
unfolding set_bit
length-set_bit bs i = length-set bs (i / 8) _

pub length-clear_bit : (bs : List ℕ) (i : ℕ) → length (clear_bit bs i) ≡ length bs
unfolding clear_bit
length-clear_bit bs i = length-set bs (i / 8) _

pub set_bit-AllBytes : (bs : List ℕ) (i : ℕ) → AllBytes bs → AllBytes (set_bit bs i)
unfolding set_bit
set_bit-AllBytes bs i h =
    AllBytes-set bs (i / 8) _ h
      (byte_small (get_or bs (i / 8) 0) (i % 8) (get_or-lt bs (i / 8) h) (omega arith)).0

pub clear_bit-AllBytes : (bs : List ℕ) (i : ℕ) → AllBytes bs → AllBytes (clear_bit bs i)
unfolding clear_bit
clear_bit-AllBytes bs i h =
    AllBytes-set bs (i / 8) _ h
      (byte_small (get_or bs (i / 8) 0) (i % 8) (get_or-lt bs (i / 8) h) (omega arith)).1

-- In one byte, equal positions are equal indices.
position_eq : (i j : ℕ) → i / 8 ≡ j / 8 → (i % 8 == j % 8) ≡ (i == j)
position_eq i j e = elim (ℕ_discrete i j) [
  | yes p ↦ ground (arith, ap (λ (k : ℕ). k % 8) p)
  | no n ↦ let d : i % 8 ≢ j % 8 = λ q. n (omega arith) in rw (==_ne i j n, ==_ne (i % 8) (j % 8) d)
]

module _ (bs : List ℕ) (i j : ℕ) (h : AllBytes bs) (inside : i < 8 * length bs) where
  -- `set_bit` in range sets the bit at its index and leaves the others.
  pub test-set_bit : test_bit (set_bit bs i) j ≡ (if i == j then true else test_bit bs j)
  unfolding test_bit set_bit
  test-set_bit = elim (ℕ_discrete (i / 8) (j / 8)) [
    | yes e ↦
        rw (← e, get_or-set_self bs (i / 8) _ 0 (omega arith))
          (bit-set (get_or bs (i / 8) 0) (i % 8) (j % 8) (get_or-lt bs (i / 8) h) (omega arith)
              (omega arith)
            ∙ rw (position_eq i j e))
    | no n ↦ rw (get_or-set_ne bs (i / 8) (j / 8) _ 0 n, ==_ne i j (λ p. n (ap (λ k. k / 8) p)))
  ]

  -- `clear_bit` in range clears the bit at its index and leaves the others.
  pub test-clear_bit : test_bit (clear_bit bs i) j ≡ (if i == j then false else test_bit bs j)
  unfolding test_bit clear_bit
  test-clear_bit = elim (ℕ_discrete (i / 8) (j / 8)) [
    | yes e ↦
        rw (← e, get_or-set_self bs (i / 8) _ 0 (omega arith))
          (bit-clear (get_or bs (i / 8) 0) (i % 8) (j % 8) (get_or-lt bs (i / 8) h) (omega arith)
              (omega arith)
            ∙ rw (position_eq i j e))
    | no n ↦ rw (get_or-set_ne bs (i / 8) (j / 8) _ 0 n, ==_ne i j (λ p. n (ap (λ k. k / 8) p)))
  ]

-- A bit that reads as set lies in the bitmap.
pub test_bit-inside : (bs : List ℕ) (i : ℕ) → test_bit bs i ≡ true → i < 8 * length bs
unfolding test_bit
test_bit-inside bs i h = elim (dec_lt (i / 8) (length bs)) [
  | yes l ↦ omega arith
  | no g ↦
      let e : get_or bs (i / 8) 0 ≡ 0 = get_or_out bs (i / 8) 0 (omega arith) in
      let f : not (bit_and 0 (2 ^ (i % 8)) == 0) ≡ true = rw e at h in
      let z : bit_and 0 (2 ^ (i % 8)) ≡ 0 = bit_and-bitwise 0 (2 ^ (i % 8)) in absurd (ground arith)
]
