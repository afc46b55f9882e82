-- ===== src/Pid/Grow.antt =====
-- Growing the bitmap by zero bytes changes no bit.
use pml.Common.{
  ℕ, zero, suc, ◌+◌, ◌-◌, ◌/◌, ◌%◌, ◌^◌, bit_and, ◌==◌, not, ◌<◌, ◌≡◌, refl, false, List, [], ◌∷◌,
  ◌++◌, arith, length, get_or, replicate, length-append, length-replicate,
}
use Prim.Native.Nat.{bit_and-bitwise}
use pml.Bitmap.{test_bit}
use pml.Bitmap.Laws.{AllBytes}
use pml.Pid.{grow}
use pml.Common.{All-append}

AllBytes-replicate : (n : ℕ) → AllBytes (replicate n 0)
AllBytes-replicate zero = tt
AllBytes-replicate (suc n) = (omega arith, AllBytes-replicate n)

get_or-replicate_zero : (n i : ℕ) → get_or {A = ℕ} (replicate n 0) i 0 ≡ 0
get_or-replicate_zero zero i = refl
get_or-replicate_zero (suc n) zero = refl
get_or-replicate_zero (suc n) (suc i) = get_or-replicate_zero n i

get_or-append_zeros : (bs : List ℕ) (n i : ℕ) → get_or (bs ++ replicate n 0) i 0 ≡ get_or bs i 0
get_or-append_zeros [] n i = get_or-replicate_zero n i
get_or-append_zeros (b ∷ bs) n zero = refl
get_or-append_zeros (b ∷ bs) n (suc i) = get_or-append_zeros bs n i

pub zeros-AllBytes : (n : ℕ) → AllBytes (replicate n 0)
zeros-AllBytes n = AllBytes-replicate n

zero_mask : (k : ℕ) → k < 8 → not (bit_and 0 (2 ^ k) == 0) ≡ false
zero_mask k h = rw (bit_and-bitwise 0 (2 ^ k))

pub test-zeros : (n i : ℕ) → test_bit (replicate n 0) i ≡ false
unfolding test_bit
test-zeros n i = rw (get_or-replicate_zero n (i / 8)) (zero_mask (i % 8) (omega arith))

module _ (junk : ℕ) (bs : List ℕ) (size more : ℕ) (h : length bs + more ≡ size) where
  -- With no gap there is no junk.
  grow_lem : grow junk bs size more ≡ bs ++ replicate more 0
  unfolding grow
  grow_lem = let e : size - more - length bs ≡ 0 = omega arith in rw e

  pub length-grow : length (grow junk bs size more) ≡ size
  length-grow =
      rw grow_lem
        (omega (arith, length-append bs (replicate more 0), length-replicate {A = ℕ} more 0))

  pub grow-AllBytes : AllBytes bs → AllBytes (grow junk bs size more)
  grow-AllBytes a =
      rw grow_lem (All-append (λ b. b < 256) bs (replicate more 0) a (AllBytes-replicate more))

  pub test-grow : (j : ℕ) → test_bit (grow junk bs size more) j ≡ test_bit bs j
  unfolding test_bit
  test-grow j = rw (grow_lem, get_or-append_zeros)
