-- ===== src/Ext2/Bitarray/Least.antt =====
-- The searches of drivers/fs/ext2/bitarray.c find the least number whose bit they want.
use pml.Common.{
  ℕ, ◌+◌, ◌-◌, ◌≤◌, ◌<◌, ◌≡◌, ◌∙◌, ap, sym, Bool, true, false, not, Option, none, some, arith,
}
use mathlib.Core.Path.{refl, subst}
use native.Mathlib.Decide.{ℕ_discrete, dec_lt}
use pml.Errno.{Result, ok, err, enoent}
use pml.Bitmap.{test_bit}
use pml.Ext2.{add64, sub64}
use pml.Ext2.Bitarray.{
  Bitarray, test_bmap, hit, last_loop, locate, find, find_first_zero, find_first_set, mark_bmap,
}
use pml.Ext2.Bitarray.Last.{Finds, last_loop-Finds}
use pml.Ext2.Bitarray.Search.{locate-last_loop}
use pml.Ext2.Bitarray.Valid.{IsValid, Inside, Inside-sub64, test-mark_bmap}

-- The answer to a search of the numbers from `s` to `e` for a bit: the least number that has it, or
-- ENOENT when there is none.
unfoldable pub Answers : Bool → Bitarray → (s e : ℕ) → Result ℕ → Type 0
Answers w b s e (ok r) =
    (s ≤ r) × (r ≤ e) × (test_bmap b r ≡ w) × ((j : ℕ) → s ≤ j → j < r → test_bmap b j ≡ not w)
Answers w b s e (err x) = (x ≡ enoent) × ((j : ℕ) → s ≤ j → j ≤ e → test_bmap b j ≡ not w)

hit→eq : (w x : Bool) → hit w x ≡ true → x ≡ w
hit→eq true x h = h
hit→eq false x h = ground arith

miss→eq : (w x : Bool) → hit w x ≡ false → x ≡ not w
miss→eq true x h = h
miss→eq false x h = ground arith

module _ (w : Bool) (addr : ℕ) (b : Bitarray) (s e : ℕ) (v : IsValid b) (l : b.start ≤ s)
    (m : s ≤ e) (n : e ≤ b.end) where
  bit-at : (j : ℕ) → s ≤ j → j ≤ e → test_bit b.private (j - b.start) ≡ test_bmap b j
  unfolding test_bmap
  bit-at j p q =
      ap (test_bit b.private) (sym (Inside-sub64 b j v (omega arith, omega (arith, v.ordered.1))).0)

  answer :
      (o : Option ℕ)
      → Finds w b.private (s - b.start) (s - b.start + (e - s + 1)) o
      → Answers w b s e (elim o [ none ↦ err enoent | some p ↦ ok (add64 p b.start) ])
  unfolding Finds Answers
  answer none h = (
    refl,
    λ j p q. sym (bit-at j p q) ∙ miss→eq w _ (h (j - b.start) (omega arith) (omega arith)),
  )
  answer (some p) (lo, hi, t, h) =
      let r : add64 p b.start ≡ p + b.start = omega (arith, v.small, v.ordered.1) in
      let back : p + b.start - b.start ≡ p = omega arith in
      rw r (
        omega arith,
        omega arith,
        sym (bit-at (p + b.start) (omega arith) (omega arith)) ∙ rw back (hit→eq w _ t),
        λ j q u.
            sym (bit-at j q (omega arith))
            ∙ miss→eq w _ (h (j - b.start) (omega arith) (omega arith)),
      )

  pub find-Answers : Answers w b s e (find w addr b s e)
  unfolding find
  find-Answers =
      let x : sub64 s b.start ≡ s - b.start = omega (arith, v.small, v.ordered.1) in
      let y : add64 (sub64 e s) 1 ≡ e - s + 1 = omega (arith, v.small, v.ordered.1) in
      let found : locate w addr b.private (sub64 s b.start) (add64 (sub64 e s) 1)
          ≡ last_loop w b.private (s - b.start) (e - s + 1) =
        rw (x, y) (locate-last_loop w addr b.private (s - b.start) (e - s + 1) v.bytes) in
      subst
        (λ (o : Option ℕ).
          Answers w b s e (elim o [ none ↦ err enoent | some p ↦ ok (add64 p b.start) ]))
        (sym found)
        (answer (last_loop w b.private (s - b.start) (e - s + 1))
          (last_loop-Finds w b.private (s - b.start) (e - s + 1)))

-- find_first_zero and find_first_set answer with the least number of the range whose bit is unset, or
-- set, and with ENOENT when there is none, whatever the address of the array. The bitmap is
-- well-formed and the range is within its bounds.
pub find_first-Answers :
    (addr : ℕ) (b : Bitarray) (s e : ℕ)
    → IsValid b
    → b.start ≤ s
    → s ≤ e
    → e ≤ b.end
    → Answers false b s e (find_first_zero addr b s e)
      × Answers true b s e (find_first_set addr b s e)
unfolding find_first_zero find_first_set
find_first-Answers addr b s e v l m n =
    (find-Answers false addr b s e v l m n, find-Answers true addr b s e v l m n)

-- After find_first_zero and the marking of what it found, a search of the same range finds a larger
-- number or none: no number is given out twice. The bitmap is well-formed and the range is within
-- its bounds.
pub find_first_zero-mark_bmap :
    (addr : ℕ) (b : Bitarray) (s e r q : ℕ)
    → IsValid b
    → b.start ≤ s
    → s ≤ e
    → e ≤ b.end
    → find_first_zero addr b s e ≡ ok r
    → find_first_zero addr (mark_bmap b r) s e ≡ ok q
    → r < q
unfolding Answers mark_bmap
find_first_zero-mark_bmap addr b s e r q v l m n f g =
    let (a, c, t, u) = subst (Answers false b s e) f (find_first-Answers addr b s e v l m n).0 in
    let inside : Inside b r = (omega arith, omega (arith, v.ordered.1)) in
    let w = (test-mark_bmap b r r v inside inside).0 in
    let (a', c', t', u') =
      subst (Answers false (mark_bmap b r) s e) g
        (find_first-Answers addr (mark_bmap b r) s e w l m n).0 in
    let marked = (test-mark_bmap b r q v inside (omega arith, omega (arith, v.ordered.1))).1 in
    elim (dec_lt r q) [
      | yes p ↦ p
      | no p ↦ elim (ℕ_discrete q r) [
        | yes z ↦ absurd (ground arith)
        | no z ↦ absurd (ground (arith, u q a' (omega arith)))
      ]
    ]
