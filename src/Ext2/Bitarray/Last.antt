-- ===== src/Ext2/Bitarray/Last.antt =====
-- The last loop of the searches of drivers/fs/ext2/bitarray.c: what it finds, and what may be skipped
-- before it.
use pml.Common.{
  ℕ, zero, suc, ◌+◌, ◌*◌, ◌/◌, ◌%◌, ◌^◌, ◌-◌, ◌<◌, ◌≤◌, ◌≡◌, refl, Bool, true, false, not, Option,
  none, some, List, arith, bit_and, ◌==◌, if◌then◌else◌, get_or, Bool-cases, inl, inr, ==_iff,
}
use native.Mathlib.Decide.{ℕ_discrete, dec_lt}
use native.Mathlib.Nat.{pow-succ'}
use mathlib.Core.Path.{subst}
use Prim.Native.Nat.{bit_and-bitwise}
use pml.Bitmap.{test_bit}
use pml.Bitmap.Laws.{AllBytes, get_or-lt}
use pml.Bitmap.Bytes.{full_bits}
use pml.Ext2.Bitarray.{hit, passed, passed_word, read_word, last_loop}

-- No index from `lo` on, up to `hi`, has the bit.
abbrev pub Without : Bool → List ℕ → ℕ → ℕ → Type 0
Without w bs lo hi = (i : ℕ) → lo ≤ i → i < hi → hit w (test_bit bs i) ≡ false

-- what a search of the indices from `lo` on, up to `hi`, should say
unfoldable pub Finds : Bool → List ℕ → (lo hi : ℕ) → Option ℕ → Type 0
Finds w bs lo hi none = Without w bs lo hi
Finds w bs lo hi (some p) = (lo ≤ p) × (p < hi) × (hit w (test_bit bs p) ≡ true) × Without w bs lo p

Without-extend :
    (w : Bool) (bs : List ℕ) (lo hi : ℕ)
    → hit w (test_bit bs lo) ≡ false
    → Without w bs (lo + 1) hi
    → Without w bs lo hi
Without-extend w bs lo hi e h i l u = elim (ℕ_discrete lo i) [
  | yes p ↦ subst (λ j. hit w (test_bit bs j) ≡ false) p e
  | no n ↦ h i (omega arith) u
]

-- The loop looks at every index in turn.
pub last_loop-Finds : (w : Bool) (bs : List ℕ) (p c : ℕ) → Finds w bs p (p + c) (last_loop w bs p c)
unfolding last_loop Finds
last_loop-Finds w bs p zero = λ i l u. absurd (omega arith)
last_loop-Finds w bs p (suc c) =
    let e : p + suc c ≡ p + 1 + c = omega arith in
    elim (Bool-cases (hit w (test_bit bs p))) [
      | inl t ↦ rw t (omega arith, omega arith, t, λ i l u. absurd (omega arith))
      | inr f ↦ rw (f, e) (later (last_loop w bs (p + 1) c) f (last_loop-Finds w bs (p + 1) c))
    ]
  where
    later :
        (o : Option ℕ)
        → hit w (test_bit bs p) ≡ false
        → Finds w bs (p + 1) (p + 1 + c) o
        → Finds w bs p (p + 1 + c) o
    later none f h = Without-extend w bs p (p + 1 + c) f h
    later (some q) f (a, b, d, h) = (omega arith, b, d, Without-extend w bs p q f h)

-- Indices without the bit may be skipped.
pub last_loop_skip :
    (w : Bool) (bs : List ℕ) (k p c : ℕ)
    → Without w bs p (p + k)
    → last_loop w bs p (k + c) ≡ last_loop w bs (p + k) c
unfolding last_loop
last_loop_skip w bs zero p c h =
    let e : 0 + c ≡ c = omega arith in let f : p + 0 ≡ p = omega arith in rw (e, f) refl
last_loop_skip w bs (suc k) p c h =
    let e : suc k + c ≡ suc (k + c) = omega arith in
    let f : p + suc k ≡ p + 1 + k = omega arith in
    rw (e, f, h p (omega arith) (omega arith))
      (last_loop_skip w bs k (p + 1) c (λ i l u. h i (omega arith) (omega arith)))

-- A byte that a search passes has no bit that it wants.
pub passed-Without :
    (w : Bool) (bs : List ℕ) (pos : ℕ)
    → passed w (get_or bs pos 0) ≡ true
    → Without w bs (8 * pos) (8 * pos + 8)
unfolding test_bit
passed-Without w bs pos h i l u =
    let e : i / 8 ≡ pos = omega arith in
    let v : get_or bs pos 0 ≡ (if w then 0 else 255) = (==_iff _ _).0 h in rw (e, v) (go w)
  where
    go : (b : Bool) → hit b (not (bit_and (if b then 0 else 255) (2 ^ (i % 8)) == 0)) ≡ false
    go true = ground (arith, bit_and-bitwise 0 (2 ^ (i % 8)))
    go false = rw (full_bits (i % 8) (omega arith))

-- `n` bytes that a search passes, as a number
abbrev blank : Bool → ℕ → ℕ
blank w n = if w then 0 else 256 ^ n - 1

AllBytes-read_word : (bs : List ℕ) (n pos : ℕ) → AllBytes bs → read_word bs pos n < 256 ^ n
unfolding read_word
AllBytes-read_word bs zero pos h = omega arith
AllBytes-read_word bs (suc n) pos h =
    omega (arith, pow-succ' 256 n, get_or-lt bs pos h, AllBytes-read_word bs n (pos + 1) h)

-- So is a word that a search passes.
read_word-Without :
    (w : Bool) (bs : List ℕ) (n pos : ℕ)
    → AllBytes bs
    → read_word bs pos n ≡ blank w n
    → Without w bs (8 * pos) (8 * pos + 8 * n)
unfolding read_word
read_word-Without w bs zero pos h e = λ i l u. absurd (omega arith)
read_word-Without w bs (suc n) pos h e =
    let small = get_or-lt bs pos h in
    let rest = AllBytes-read_word bs n (pos + 1) h in
    let (a, b) = parts w e in
    λ i l u. elim (dec_lt i (8 * pos + 8)) [
      | yes s ↦ passed-Without w bs pos a i l s
      | no g ↦ read_word-Without w bs n (pos + 1) h b i (omega arith) (omega arith)
    ]
  where
    parts :
        (v : Bool)
        → get_or bs pos 0 + 256 * read_word bs (pos + 1) n ≡ blank v (suc n)
        → (passed v (get_or bs pos 0) ≡ true) × (read_word bs (pos + 1) n ≡ blank v n)
    parts true p = (ground arith, omega arith)
    parts false p =
        let small = get_or-lt bs pos h in
        let rest = AllBytes-read_word bs n (pos + 1) h in
        let q = pow-succ' 256 n in
        let z : get_or bs pos 0 ≡ 255 = omega arith in ((==_iff _ _).1 z, omega arith)

pub passed_word-Without :
    (w : Bool) (bs : List ℕ) (pos : ℕ)
    → AllBytes bs
    → passed_word w (read_word bs pos 8) ≡ true
    → Without w bs (8 * pos) (8 * pos + 64)
passed_word-Without true bs pos h e = read_word-Without true bs 8 pos h ((==_iff _ _).0 e)
passed_word-Without false bs pos h e = read_word-Without false bs 8 pos h ((==_iff _ _).0 e)
