-- ===== src/Bitmap/Tests.antt =====
-- A bitmap of two bytes.
use pml.Common.{◌≡◌, refl, true, false, List, [], ◌∷◌, ℕ, ◌==◌, if◌then◌else◌, arith}
use pml.Bitmap.{set_bit, clear_bit, test_bit}
use pml.Bitmap.Laws.{test-set_bit, test-clear_bit}

abbrev two_bytes : List ℕ
two_bytes = 255 ∷ 5 ∷ []

sets_nine : set_bit two_bytes 9 ≡ 255 ∷ 7 ∷ []
unfolding set_bit
sets_nine = refl

test-set_bit_example :
    test_bit (set_bit two_bytes 9) 10 ≡ (if 9 == 10 then true else test_bit two_bytes 10)
test-set_bit_example = test-set_bit two_bytes 9 10 (omega arith) (omega arith)

test-clear_bit_example :
    test_bit (clear_bit two_bytes 8) 8 ≡ (if 8 == 8 then false else test_bit two_bytes 8)
test-clear_bit_example = test-clear_bit two_bytes 8 8 (omega arith) (omega arith)
