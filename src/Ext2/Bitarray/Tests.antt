-- ===== src/Ext2/Bitarray/Tests.antt =====
-- An array for the numbers from 1 to 24, of which the first twelve are marked.
use pml.Common.{◌≡◌, ◌<◌, refl, true, false, some, [], ◌∷◌, arith, replicate, ◌++◌}
use pml.Errno.{ok, err, enoent}
use pml.Bitmap.{set_bit, test_bit}
use pml.Ext2.Bitarray.{
  Bitarray, find_first_zero, find_first_set, mark_bmap, locate, head_loop, from_byte, align_loop,
  skip_words, skip_bytes, word_loop, byte_loop, last_loop, read_word, find,
}
use pml.Ext2.Bitarray.Valid.{IsValid}
use pml.Ext2.Bitarray.Least.{Answers, find_first-Answers, find_first_zero-mark_bmap}

abbrev sample : Bitarray
sample = record {
  magic = 4;
  start = 1;
  end = 20;
  real_end = 24;
  cluster_bits = 1;
  private = 255 ∷ 15 ∷ 0 ∷ [];
}

sample-IsValid : IsValid sample
sample-IsValid = record {
  bytes = (omega arith, (omega arith, (omega arith, tt)));
  size = refl;
  ordered = (omega arith, omega arith);
  small = omega arith;
}

find_first-Answers_example :
    Answers false sample 2 20 (find_first_zero 4096 sample 2 20)
    × Answers true sample 2 20 (find_first_set 4096 sample 2 20)
find_first-Answers_example =
    find_first-Answers 4096 sample 2 20 sample-IsValid (omega arith) (omega arith) (omega arith)

zero_at_thirteen : find_first_zero 4099 sample 2 20 ≡ ok 13
unfolding find_first_zero find locate head_loop from_byte align_loop skip_words skip_bytes word_loop
    byte_loop last_loop read_word test_bit
zero_at_thirteen = refl

zero_after_thirteen : find_first_zero 4099 (mark_bmap sample 13) 2 20 ≡ ok 14
unfolding find_first_zero mark_bmap set_bit find locate head_loop from_byte align_loop skip_words
    skip_bytes word_loop byte_loop last_loop read_word test_bit
zero_after_thirteen = refl

none_set : find_first_set 4096 sample 13 20 ≡ err enoent
unfolding find_first_set find locate head_loop from_byte align_loop skip_words skip_bytes word_loop
    byte_loop last_loop read_word test_bit
none_set = refl

-- past an unaligned byte, two words and a byte
past_words : locate false 4095 (replicate 18 255 ++ (127 ∷ [])) 3 150 ≡ some 151
unfolding locate head_loop from_byte align_loop skip_words skip_bytes word_loop byte_loop last_loop
    read_word test_bit
past_words = refl

find_first_zero-mark_bmap_example : 13 < 14
find_first_zero-mark_bmap_example =
    find_first_zero-mark_bmap 4099 sample 2 20 13 14 sample-IsValid (omega arith) (omega arith)
      (omega arith) zero_at_thirteen zero_after_thirteen
