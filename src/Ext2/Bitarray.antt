-- ===== src/Ext2/Bitarray.antt =====
-- The bitmap of drivers/fs/ext2/bitarray.c: an array of bytes, allocated for the numbers from `start`
-- to `real_end`. `private` is that array.
pub mod Last
pub mod Search
pub mod Valid
pub mod Least
pub mod Extent
mod Tests
use pml.Common.{
  ℕ, zero, suc, ◌+◌, ◌-◌, ◌*◌, ◌/◌, ◌%◌, ◌^◌, Bool, true, false, not, ◌&&◌, Option, none, some,
  List, ◌++◌, ◌==◌, leb, if◌then◌else◌, get_or, replicate, take, drop,
}
use pml.Errno.{Result, ok, err, enomem, enoent}
use pml.Bitmap.{set_bit, clear_bit, test_bit}
use pml.Ext2.{Bitmap64, Ops, add64, sub64}

abbrev pub Bitarray : Type 0
Bitarray = Bitmap64 (List ℕ)

-- `memory`: whether both calls of `malloc` succeed
pub new_bmap : (memory : Bool) → Bitarray → Result Bitarray
new_bmap memory b =
    let size = sub64 b.real_end b.start / 8 + 1 in
    if memory then ok (record b { private = replicate size 0 }) else err enomem

unfoldable pub mark_bmap : Bitarray → ℕ → Bitarray
mark_bmap b arg = record b { private = set_bit b.private (sub64 arg b.start) }

unfoldable pub unmark_bmap : Bitarray → ℕ → Bitarray
unmark_bmap b arg = record b { private = clear_bit b.private (sub64 arg b.start) }

unfoldable pub test_bmap : Bitarray → ℕ → Bool
test_bmap b arg = test_bit b.private (sub64 arg b.start)

-- The loop over an extent, with `set_bit` or `clear_bit`: the index `i` and the rounds left.
unfoldable pub extent : (List ℕ → ℕ → List ℕ) → List ℕ → (arg start i : ℕ) → ℕ → List ℕ
extent change bytes arg start i zero = bytes
extent change bytes arg start i (suc n) =
    extent change (change bytes (sub64 (add64 arg i) start)) arg start (i + 1) n

unfoldable pub mark_bmap_extent : Bitarray → ℕ → ℕ → Bitarray
mark_bmap_extent b arg num = record b { private = extent set_bit b.private arg b.start 0 num }

pub unmark_bmap_extent : Bitarray → ℕ → ℕ → Bitarray
unmark_bmap_extent b arg num = record b { private = extent clear_bit b.private arg b.start 0 num }

-- `memcpy (to + offset, from, n)`
abbrev pub copy : (to : List ℕ) → (offset : ℕ) → (from : List ℕ) → (n : ℕ) → List ℕ
copy to offset from n = take offset to ++ (take n from ++ drop (offset + n) to)

unfoldable pub set_bmap_range : Bitarray → (start num : ℕ) → List ℕ → Bitarray
set_bmap_range b start num bytes = record b {
  private = copy b.private (start / 8) bytes (add64 num 7 / 8);
}

unfoldable pub get_bmap_range : Bitarray → (start num : ℕ) → List ℕ
get_bmap_range b start num = take (add64 num 7 / 8) (drop (start / 8) b.private)

-- The two searches differ in the bit they want, so both are `find` with that bit. `bitpos + count`
-- never grows in them and is at most `end - bmap->start + 1`, so no sum of them wraps. `hit` is the
-- test of a bit, `passed` and `passed_word` are the tests to go on past a byte and past a word.
abbrev pub hit : Bool → Bool → Bool
hit true bit = bit
hit false bit = not bit

abbrev pub passed : Bool → ℕ → Bool
passed wanted byte = byte == (if wanted then 0 else 255)

-- `n` bytes from the byte `pos`, in the order of the machine: `*((uint64_t *) pos)` for `n = 8`
pub read_word : List ℕ → (pos n : ℕ) → ℕ
read_word bytes pos zero = 0
read_word bytes pos (suc n) = get_or bytes pos 0 + 256 * read_word bytes (pos + 1) n

abbrev pub passed_word : Bool → ℕ → Bool
passed_word wanted word = word == (if wanted then 0 else 2 ^ 64 - 1)

-- How the first loop ends: it returns, or stops at an index with a count left.
pub data Head : Type 0 where
  at : ℕ → Head
  rest : (bitpos count : ℕ) → Head

pub head_loop : Bool → List ℕ → (bitpos count : ℕ) → Head
head_loop wanted bytes bitpos zero = rest bitpos 0
head_loop wanted bytes bitpos (suc count) =
    let next = head_loop wanted bytes (bitpos + 1) count in
    if bitpos % 8 == 0
    then rest bitpos (suc count)
    else if hit wanted (test_bit bytes bitpos)
    then at bitpos
    else next

-- `pos`, as the index of a byte, `bitpos`, `count` and `found`
pub record Cursor : Type 0 where
  pub pos : ℕ
  pub bitpos : ℕ
  pub count : ℕ
  pub found : Bool

-- The loop up to an aligned address; `addr` is the address of the array. A round takes 8 off the
-- count, so `count / 8` rounds are enough.
pub align_loop : Bool → List ℕ → (addr fuel : ℕ) → Cursor → Cursor
align_loop wanted bytes addr zero c = c
align_loop wanted bytes addr (suc f) c =
    let next =
      align_loop wanted bytes addr f
        (record c { pos = c.pos + 1; bitpos = c.bitpos + 8; count = c.count - 8 }) in
    if leb 8 c.count && not ((addr + c.pos) % 8 == 0)
    then (if passed wanted (get_or bytes c.pos 0) then next else record c { found = true })
    else c

-- The loops over words and over bytes: the byte where they stop, and `i`.
pub word_loop : Bool → List ℕ → (pos i : ℕ) → ℕ × ℕ
word_loop wanted bytes pos zero = (pos, 0)
word_loop wanted bytes pos (suc i) =
    let next = word_loop wanted bytes (pos + 8) i in
    if passed_word wanted (read_word bytes pos 8) then next else (pos, suc i)

pub byte_loop : Bool → List ℕ → (pos i : ℕ) → ℕ × ℕ
byte_loop wanted bytes pos zero = (pos, 0)
byte_loop wanted bytes pos (suc i) =
    let next = byte_loop wanted bytes (pos + 1) i in
    if passed wanted (get_or bytes pos 0) then next else (pos, suc i)

-- The block under `if (!found)`, whose last assignment of `found` nothing reads.
pub skip_words : Bool → List ℕ → Cursor → Cursor
skip_words wanted bytes c =
    let max_loop = c.count / 64 in
    let (pos, i) = word_loop wanted bytes c.pos max_loop in
    record c {
      pos = pos;
      bitpos = c.bitpos + 64 * (max_loop - i);
      count = c.count - 64 * (max_loop - i);
    }

pub skip_bytes : Bool → List ℕ → Cursor → Cursor
skip_bytes wanted bytes c =
    let max_loop = c.count / 8 in
    let (pos, i) = byte_loop wanted bytes c.pos max_loop in
    record c {
      pos = pos;
      bitpos = c.bitpos + 8 * (max_loop - i);
      count = c.count - 8 * (max_loop - i);
    }

pub last_loop : Bool → List ℕ → (bitpos count : ℕ) → Option ℕ
last_loop wanted bytes bitpos zero = none
last_loop wanted bytes bitpos (suc count) =
    let next = last_loop wanted bytes (bitpos + 1) count in
    if hit wanted (test_bit bytes bitpos) then some bitpos else next

-- what follows the first loop, from an index at the start of a byte
pub from_byte : Bool → (addr : ℕ) → List ℕ → (bitpos count : ℕ) → Option ℕ
from_byte wanted addr bytes bitpos count =
    let c =
      align_loop wanted bytes addr (count / 8)
        (record { pos = bitpos / 8; bitpos = bitpos; count = count; found = false }) in
    let d = if c.found then c else skip_bytes wanted bytes (skip_words wanted bytes c) in
    last_loop wanted bytes d.bitpos d.count

pub locate : Bool → (addr : ℕ) → List ℕ → (bitpos count : ℕ) → Option ℕ
locate wanted addr bytes bitpos count = elim (head_loop wanted bytes bitpos count) [
  | at p ↦ some p
  | rest p c ↦ if c == 0 then none else from_byte wanted addr bytes p c
]

pub find : Bool → (addr : ℕ) → Bitarray → (start end : ℕ) → Result ℕ
find wanted addr b start end =
    elim (locate wanted addr b.private (sub64 start b.start) (add64 (sub64 end start) 1)) [
      | none ↦ err enoent
      | some p ↦ ok (add64 p b.start)
    ]

pub find_first_zero : (addr : ℕ) → Bitarray → (start end : ℕ) → Result ℕ
find_first_zero = find false

pub find_first_set : (addr : ℕ) → Bitarray → (start end : ℕ) → Result ℕ
find_first_set = find true

-- `ext2_bitarray_ops`
unfoldable pub bitarray_ops : (addr : ℕ) → Ops (List ℕ)
bitarray_ops addr = record {
  mark_bmap = mark_bmap;
  unmark_bmap = unmark_bmap;
  test_bmap = test_bmap;
  mark_bmap_extent = mark_bmap_extent;
  set_bmap_range = set_bmap_range;
  get_bmap_range = get_bmap_range;
  find_first_zero = some (find_first_zero addr);
}
