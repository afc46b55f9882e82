-- ===== src/Heap/Fit.antt =====
-- The search of `kh_alloc_aligned` for the default alignment finds the first free block that is large
-- enough.
use pml.Common.{
  ℕ, zero, suc, ◌+◌, ◌-◌, ◌*◌, ◌/◌, ◌%◌, ◌^◌, ◌≤◌, ◌<◌, ◌≡◌, refl, ap, sym, ◌∙◌, Bool, true, false,
  not, ◌&&◌, List, [], ◌∷◌, ◌++◌, arith, bit_and, bit_or, ◌==◌, ==_refl, ltb, leb, if◌then◌else◌,
  inl, inr, Bool-cases, All,
}
use mathlib.Core.Path.{subst}
use pml.Common.Align.{or_fifteen}
use pml.Heap.{Heap, align_up, search_fit, Search, fits, failed}
use pml.Heap.Blocks.{Block, Stands, Row, after, after_le}

pub align_up-sixteen : (x : ℕ) → x ≤ 2 ^ 64 - 16 → align_up x 16 ≡ (x + 15) / 16 * 16
unfolding align_up
align_up-sixteen x h =
    let y : ℕ = (x + (2 ^ 64 - 1)) % 2 ^ 64 in
    let e : bit_or y 15 ≡ y / 16 * 16 + 15 = or_fifteen y (omega arith) in rw e (omega arith)

-- a free block with room for `size` bytes
abbrev pub fitting : ℕ → Block → Bool
fitting size b = not b.used && (ltb 0 b.size && leb size b.size)

abbrev pub Unfit : ℕ → Block → Type 0
Unfit size b = fitting size b ≡ false

-- The outcomes of the search among the blocks from `a` on.
pub data FirstFit (size a : ℕ) (bs : List Block) : Search → Type 0 where
  hit :
      (pre post : List Block) (b : Block)
      → bs ≡ pre ++ (b ∷ post)
      → All (Unfit size) pre
      → fitting size b ≡ true
      → FirstFit size a bs (fits (after a pre) (after a pre + b.size + 16) (after a pre + 16))
  miss : All (Unfit size) bs → FirstFit size a bs failed

search_step :
    (h : Heap) (size r a : ℕ) (b : Block)
    → Stands h a b
    → a % 16 ≡ 0
    → a + 32 + b.size ≤ h.end_addr
    → h.end_addr < 2 ^ 64
    → search_fit (suc r) size 16 a h ≡ (
        if fitting size b
        then fits a (a + b.size + 16) (a + 16)
        else search_fit r size 16 (a + 32 + b.size) h)
unfolding search_fit
search_step h size r a b s al inside small =
    let p : leb h.end_addr a ≡ false = ground arith in
    let q : a + b.size + 16 ≡ a + 16 + b.size = omega arith in
    let n : a + 16 + b.size + 16 ≡ a + 32 + b.size = omega arith in
    let u : align_up (a + 16) 16 ≡ a + 16 = align_up-sixteen (a + 16) (omega arith) ∙ omega arith in
    rw (p, s.head, q, s.magic, s.owner, ==_refl a, u, n) (tests b.used)
  where
    tests :
        (used : Bool)
        → (if bit_and (if used then 1 else 0) 1 == 0
              && (ltb (a + 16) (a + 16 + b.size) && leb size (a + 16 + b.size - (a + 16)))
            then fits a (a + 16 + b.size) (a + 16)
            else search_fit r size 16 (a + 32 + b.size) h)
          ≡ (if not used && (ltb 0 b.size && leb size b.size)
              then fits a (a + 16 + b.size) (a + 16)
              else search_fit r size 16 (a + 32 + b.size) h)
    tests true = refl
    tests false =
        let x : ltb (a + 16) (a + 16 + b.size) ≡ ltb 0 b.size = ground arith in
        let y : a + 16 + b.size - (a + 16) ≡ b.size = omega arith in rw (x, y)

pub search_fit-FirstFit :
    (h : Heap) (size r a : ℕ) (bs : List Block)
    → Row h a bs
    → after a bs ≡ h.end_addr
    → a % 16 ≡ 0
    → h.end_addr < 2 ^ 64
    → h.end_addr - a < r
    → FirstFit size a bs (search_fit r size 16 a h)
unfolding search_fit
search_fit-FirstFit h size zero a bs row e al small fuel = absurd (omega arith)
search_fit-FirstFit h size (suc r) a [] row e al small fuel =
    let p : leb h.end_addr a ≡ true = ground arith in rw p (miss tt)
search_fit-FirstFit h size (suc r) a (b ∷ bs) (s, row) e al small fuel =
    let l = after_le (a + 32 + b.size) bs in
    let step = search_step h size r a b s al (omega arith) small in
    elim (Bool-cases (fitting size b)) [
      | inl f ↦ subst (FirstFit size a (b ∷ bs)) (sym (step ∙ rw f)) (hit [] bs b refl tt f)
      | inr f ↦
          let ih =
            search_fit-FirstFit h size r (a + 32 + b.size) bs row e (omega (arith, s.aligned)) small
              (omega arith) in
          subst (FirstFit size a (b ∷ bs)) (sym (step ∙ rw f)) (behind f ih)
    ]
  where
    behind :
        {x : Search}
        → Unfit size b
        → FirstFit size (a + 32 + b.size) bs x
        → FirstFit size a (b ∷ bs) x
    behind f (hit pre post c q u g) = hit (b ∷ pre) post c (ap (λ l. b ∷ l) q) (f, u) g
    behind f (miss u) = miss (f, u)
