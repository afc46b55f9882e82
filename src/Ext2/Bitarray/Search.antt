-- ===== src/Ext2/Bitarray/Search.antt =====
-- The searches of drivers/fs/ext2/bitarray.c skip bytes and words, and find what a loop over the bits
-- finds.
use pml.Common.{
  ℕ, zero, suc, ◌+◌, ◌-◌, ◌*◌, ◌/◌, ◌%◌, ◌≤◌, ◌≡◌, ◌≢◌, refl, ◌∙◌, sym, ap, Bool, true, false, not,
  ◌&&◌, Option, none, some, List, ◌==◌, leb, if◌then◌else◌, get_or, arith, inl, inr, Bool-cases,
  ==_iff,
}
use pml.Bitmap.{test_bit}
use pml.Bitmap.Laws.{AllBytes}
use pml.Ext2.Bitarray.{
  hit, passed, passed_word, read_word, Head, at, rest, head_loop, Cursor, align_loop, word_loop,
  byte_loop, skip_words, skip_bytes, last_loop, from_byte, locate,
}
use pml.Ext2.Bitarray.Last.{last_loop_skip, passed-Without, passed_word-Without}

-- what the last loop would say at a cursor
abbrev at_cursor : Bool → List ℕ → Cursor → Option ℕ
at_cursor w bs c = last_loop w bs c.bitpos c.count

-- The step from one cursor to another skips only bits that are not wanted.
abbrev Moved : Bool → List ℕ → Cursor → Cursor → Type 0
Moved w bs c d = (d.bitpos ≡ 8 * d.pos) × (at_cursor w bs c ≡ at_cursor w bs d)

skip_byte :
    (w : Bool) (bs : List ℕ) (c : Cursor)
    → c.bitpos ≡ 8 * c.pos
    → 8 ≤ c.count
    → passed w (get_or bs c.pos 0) ≡ true
    → at_cursor w bs c
      ≡ at_cursor w bs (record c { pos = c.pos + 1; bitpos = c.bitpos + 8; count = c.count - 8 })
skip_byte w bs c e l p =
    let n : c.count ≡ 8 + (c.count - 8) = omega arith in
    ap (last_loop w bs c.bitpos) n
    ∙ last_loop_skip w bs 8 c.bitpos (c.count - 8) (rw e (passed-Without w bs c.pos p))

align_loop-Moved :
    (w : Bool) (bs : List ℕ) (addr f : ℕ) (c : Cursor)
    → c.bitpos ≡ 8 * c.pos
    → Moved w bs c (align_loop w bs addr f c)
unfolding align_loop
align_loop-Moved w bs addr zero c e = (e, refl)
align_loop-Moved w bs addr (suc f) c e =
    elim (Bool-cases (leb 8 c.count && not ((addr + c.pos) % 8 == 0))) [
      | inr g ↦ rw g (e, refl)
      | inl g ↦ elim (Bool-cases (passed w (get_or bs c.pos 0))) [
        | inr p ↦ rw (g, p) (e, refl)
        | inl p ↦
            let d : Cursor = record c {
              pos = c.pos + 1;
              bitpos = c.bitpos + 8;
              count = c.count - 8;
            } in
            let r = align_loop-Moved w bs addr f d (omega arith) in
            rw (g, p) (r.0, skip_byte w bs c e (ground arith) p ∙ r.1)
      ]
    ]

-- A loop over blocks of `k` bytes stops in front of a block with `j` blocks left.
abbrev Skipped : Bool → List ℕ → (k pos i q j : ℕ) → Type 0
Skipped w bs k pos i q j =
    (j ≤ i)
    × (q + k * j ≡ pos + k * i)
    × ((r : ℕ) → last_loop w bs (8 * pos) (8 * k * i + r) ≡ last_loop w bs (8 * q) (8 * k * j + r))

word_loop-Skipped :
    (w : Bool) (bs : List ℕ) (pos i : ℕ)
    → AllBytes bs
    → let (q, j) = word_loop w bs pos i in Skipped w bs 8 pos i q j
unfolding word_loop
word_loop-Skipped w bs pos zero h = (omega arith, refl, λ r. refl)
word_loop-Skipped w bs pos (suc i) h = elim (Bool-cases (passed_word w (read_word bs pos 8))) [
  | inr p ↦ rw p (omega arith, refl, λ r. refl)
  | inl p ↦
      let (a, b, s) = word_loop-Skipped w bs (pos + 8) i h in
      rw p (
        omega arith,
        omega arith,
        λ r.
            let n : 8 * 8 * suc i + r ≡ 64 + (8 * 8 * i + r) = omega arith in
            let m : 8 * pos + 64 ≡ 8 * (pos + 8) = omega arith in
            ap (last_loop w bs (8 * pos)) n
            ∙ last_loop_skip w bs 64 (8 * pos) (8 * 8 * i + r) (passed_word-Without w bs pos h p)
            ∙ ap (λ k. last_loop w bs k (8 * 8 * i + r)) m
            ∙ s r,
      )
]

byte_loop-Skipped :
    (w : Bool) (bs : List ℕ) (pos i : ℕ)
    → let (q, j) = byte_loop w bs pos i in Skipped w bs 1 pos i q j
unfolding byte_loop
byte_loop-Skipped w bs pos zero = (omega arith, refl, λ r. refl)
byte_loop-Skipped w bs pos (suc i) = elim (Bool-cases (passed w (get_or bs pos 0))) [
  | inr p ↦ rw p (omega arith, refl, λ r. refl)
  | inl p ↦
      let (a, b, s) = byte_loop-Skipped w bs (pos + 1) i in
      rw p (
        omega arith,
        omega arith,
        λ r.
            let n : 8 * 1 * suc i + r ≡ 8 + (8 * 1 * i + r) = omega arith in
            let m : 8 * pos + 8 ≡ 8 * (pos + 1) = omega arith in
            ap (last_loop w bs (8 * pos)) n
            ∙ last_loop_skip w bs 8 (8 * pos) (8 * 1 * i + r) (passed-Without w bs pos p)
            ∙ ap (λ k. last_loop w bs k (8 * 1 * i + r)) m
            ∙ s r,
      )
]

skip_words-Moved :
    (w : Bool) (bs : List ℕ) (c : Cursor)
    → AllBytes bs
    → c.bitpos ≡ 8 * c.pos
    → Moved w bs c (skip_words w bs c)
unfolding skip_words
skip_words-Moved w bs c h e =
    let n : ℕ = c.count / 64 in
    let (a, b, s) = word_loop-Skipped w bs c.pos n h in
    let (q, j) = word_loop w bs c.pos n in
    let whole : c.count ≡ 8 * 8 * n + c.count % 64 = omega arith in
    let moved : 8 * q ≡ c.bitpos + 64 * (n - j) = omega arith in
    let left : 8 * 8 * j + c.count % 64 ≡ c.count - 64 * (n - j) = omega arith in
    (
      sym moved,
      ap (λ m. last_loop w bs m c.count) e
          ∙ ap (last_loop w bs (8 * c.pos)) whole
          ∙ s (c.count % 64)
          ∙ ap (λ m. last_loop w bs m (8 * 8 * j + c.count % 64)) moved
          ∙ ap (last_loop w bs (c.bitpos + 64 * (n - j))) left,
    )

skip_bytes-Moved :
    (w : Bool) (bs : List ℕ) (c : Cursor) → c.bitpos ≡ 8 * c.pos → Moved w bs c (skip_bytes w bs c)
unfolding skip_bytes
skip_bytes-Moved w bs c e =
    let n : ℕ = c.count / 8 in
    let (a, b, s) = byte_loop-Skipped w bs c.pos n in
    let (q, j) = byte_loop w bs c.pos n in
    let whole : c.count ≡ 8 * 1 * n + c.count % 8 = omega arith in
    let moved : 8 * q ≡ c.bitpos + 8 * (n - j) = omega arith in
    let left : 8 * 1 * j + c.count % 8 ≡ c.count - 8 * (n - j) = omega arith in
    (
      sym moved,
      ap (λ m. last_loop w bs m c.count) e
          ∙ ap (last_loop w bs (8 * c.pos)) whole
          ∙ s (c.count % 8)
          ∙ ap (λ m. last_loop w bs m (8 * 1 * j + c.count % 8)) moved
          ∙ ap (last_loop w bs (c.bitpos + 8 * (n - j))) left,
    )

from_byte-last_loop :
    (w : Bool) (addr : ℕ) (bs : List ℕ) (p c : ℕ)
    → AllBytes bs
    → p % 8 ≡ 0
    → from_byte w addr bs p c ≡ last_loop w bs p c
unfolding from_byte align_loop
from_byte-last_loop w addr bs p c h e =
    let start : Cursor = record { pos = p / 8; bitpos = p; count = c; found = false } in
    let (b, m) = align_loop-Moved w bs addr (c / 8) start (omega arith) in
    let d : Cursor = align_loop w bs addr (c / 8) start in
    let (b1, m1) = skip_words-Moved w bs d h b in
    let (b2, m2) = skip_bytes-Moved w bs (skip_words w bs d) b1 in
    elim (Bool-cases d.found) [ inl f ↦ rw f (sym m) | inr f ↦ rw f (sym (m ∙ m1 ∙ m2)) ]

-- How the first loop ends, by what the last loop would say.
Headed : Bool → List ℕ → (p c : ℕ) → Head → Type 0
Headed w bs p c (at q) = last_loop w bs p c ≡ some q
Headed w bs p c (rest q d) = (last_loop w bs p c ≡ last_loop w bs q d) × (d ≢ 0 → q % 8 ≡ 0)

Headed-later :
    (w : Bool) (bs : List ℕ) (p c : ℕ) (r : Head)
    → hit w (test_bit bs p) ≡ false
    → Headed w bs (p + 1) c r
    → Headed w bs p (suc c) r
unfolding Headed last_loop
Headed-later w bs p c (at q) f h = rw f h
Headed-later w bs p c (rest q d) f (h, z) = (rw f h, z)

head_loop-Headed : (w : Bool) (bs : List ℕ) (p c : ℕ) → Headed w bs p c (head_loop w bs p c)
unfolding head_loop Headed last_loop
head_loop-Headed w bs p zero = (refl, λ n. absurd (n refl))
head_loop-Headed w bs p (suc c) = elim (Bool-cases (p % 8 == 0)) [
  | inl e ↦ rw e (refl, λ _. ground arith)
  | inr e ↦ elim (Bool-cases (hit w (test_bit bs p))) [
    | inl t ↦ rw (e, t) (ap (λ (b : Bool). if b then some p else last_loop w bs (p + 1) c) t)
    | inr t ↦ rw (e, t) (Headed-later w bs p c _ t (head_loop-Headed w bs (p + 1) c))
  ]
]

pub locate-last_loop :
    (w : Bool) (addr : ℕ) (bs : List ℕ) (p c : ℕ)
    → AllBytes bs
    → locate w addr bs p c ≡ last_loop w bs p c
unfolding locate Headed last_loop
locate-last_loop w addr bs p c h = go (head_loop w bs p c) (head_loop-Headed w bs p c)
  where
    go :
        (r : Head)
        → Headed w bs p c r
        → elim r [ at q ↦ some q | rest q d ↦ if d == 0 then none else from_byte w addr bs q d ]
          ≡ last_loop w bs p c
    go (at q) e = sym e
    go (rest q d) (e, z) = elim (Bool-cases (d == 0)) [
      | inl t ↦ rw t (sym (e ∙ ap (last_loop w bs q) ((==_iff d 0).0 t)))
      | inr t ↦ rw t (from_byte-last_loop w addr bs q d h (z (ground arith)) ∙ sym e)
    ]
