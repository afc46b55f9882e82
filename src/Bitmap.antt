-- ===== src/Bitmap.antt =====
-- The bitmap helpers of include/stdlib.h over an array of bytes. A read out of range gives 0 and a
-- write out of range changes nothing; the code checks no range, and its callers keep in it.
pub mod Bytes
pub mod Laws
mod Tests
use pml.Common.{ℕ, ◌-◌, ◌/◌, ◌%◌, ◌^◌, Bool, not, List, bit_and, bit_or, ◌==◌, get_or, set}

unfoldable pub set_bit : List ℕ → ℕ → List ℕ
set_bit bitmap index =
    set bitmap (index / 8) (bit_or (get_or bitmap (index / 8) 0) (2 ^ (index % 8)))

-- `~(1 << k)` cut to an `unsigned char`
unfoldable pub clear_bit : List ℕ → ℕ → List ℕ
clear_bit bitmap index =
    set bitmap (index / 8) (bit_and (get_or bitmap (index / 8) 0) (255 - 2 ^ (index % 8)))

unfoldable pub test_bit : List ℕ → ℕ → Bool
test_bit bitmap index = not (bit_and (get_or bitmap (index / 8) 0) (2 ^ (index % 8)) == 0)
