-- ===== src/Heap/Malloc.antt =====
-- `malloc` gives a pointer that was not in use, and keeps the blocks in use.
use pml.Common.{
  ℕ, ◌+◌, ◌-◌, ◌*◌, ◌/◌, ◌%◌, ◌^◌, ◌≤◌, ◌<◌, ◌≡◌, refl, ap, sym, ◌∙◌, Bool, true, false, none, some,
  List, ◌∷◌, ◌++◌, arith, ◌==◌, leb, if◌then◌else◌, inl, inr, Bool-cases, All,
}
use mathlib.Core.Path.{subst}
use pml.Errno.{enomem, euclean}
use pml.Heap.{
  Heap, Header, is_p2, split_front, split_back, mark, fits, failed, broken, endless, Search,
  search_fit, kh_alloc_aligned, malloc, given, null, out_of_rounds, Outcome,
}
use pml.Heap.Blocks.{
  Block, Stands, after, IsValid, IsValid-Around, live, live_before, live_behind, live_changed,
}
use pml.Heap.Fit.{align_up-sixteen, fitting, Unfit, FirstFit, hit, miss, search_fit-FirstFit}
use pml.Heap.Edit.{free_block}
use pml.Heap.Alloc.{carve, split_front_none, allocated, allocated_bounds, allocated-IsValid}

-- `size` rounded up to the default alignment
abbrev pub rounded : ℕ → ℕ
rounded size = (size + 15) / 16 * 16

-- The outcomes of `malloc`. It gives an aligned pointer that was not in use, to a block of at least
-- `size` bytes; no other pointer gets in or out of use. Or it fails with ENOMEM and changes nothing,
-- when no free block is large enough.
pub data Mallocs (h : Heap) (bs : List Block) (size : ℕ) : Outcome × Heap → Type 0 where
  got :
      (p n : ℕ) (new : List Block) (g : Heap)
      → IsValid g new
      → g.base_addr ≡ h.base_addr
      → p % 16 ≡ 0
      → size ≤ n
      → live p h.base_addr bs ≡ none
      → ((q : ℕ) → live q h.base_addr new ≡ (if p == q then some n else live q h.base_addr bs))
      → Mallocs h bs size (given p, g)
  full : All (Unfit (rounded size)) bs → Mallocs h bs size (null enomem, h)

fitting→free :
    (size : ℕ) (b : Block) → fitting size b ≡ true → (b ≡ free_block b.size) × (size ≤ b.size)
fitting→free size b f =
    let u : b.used ≡ false = ground arith in
    (ap (λ (x : Bool). record b { used = x }) u, ground arith)

-- the pointers in use where a free block was carved
live-carve :
    (q m n size : ℕ) (post : List Block)
    → size ≤ n
    → live q m (carve size (free_block n) ++ post) ≡ (
        if m + 16 == q
        then some (if leb (size + 32 + 32) n then size else n)
        else live q m (free_block n ∷ post))
live-carve q m n size post l = elim (Bool-cases (leb (size + 32 + 32) n)) [
  | inl c ↦
      let k : m + 32 + size + 32 + (n - size - 32) ≡ m + 32 + n = ground arith in rw (c, k) refl
  | inr c ↦ rw c refl
]

module _ (h : Heap) (bs : List Block) (size0 : ℕ) (v : IsValid h bs)
    (small : size0 ≤ 2 ^ 64 - 16) where
  carved :
      (pre post : List Block) (n : ℕ)
      → bs ≡ pre ++ (free_block n ∷ post)
      → rounded size0 ≤ n
      → let m = after h.base_addr pre in
        Mallocs h bs size0 (given (m + 16), allocated m (m + n + 16) (rounded size0) h)
  carved pre post n e l =
      let w = subst (IsValid h) e v in
      let a = IsValid-Around h pre (free_block n) post w in
      let m : ℕ = after h.base_addr pre in
      let size : ℕ = rounded size0 in
      got (m + 16) (if leb (size + 32 + 32) n then size else n)
        (pre ++ (carve size (free_block n) ++ post)) (allocated m (m + n + 16) size h)
        (allocated-IsValid h pre post n size w l (omega arith))
        (allocated_bounds h m (m + n + 16) size).0 (omega (arith, a.aligned, a.place))
        (ground arith)
        (ap (live (m + 16) h.base_addr) e
          ∙ live_behind (m + 16) h.base_addr pre (free_block n ∷ post) (omega arith)
          ∙ live_before (m + 16) (m + 32 + n) post (omega arith))
        (λ q.
          live_changed q h.base_addr (m + 16) _ pre _ (free_block n ∷ post) refl
            (live-carve q m n size post l)
          ∙ ap
              (λ (xs : List Block).
                if m + 16 == q
                then some (if leb (size + 32 + 32) n then size else n)
                else live q h.base_addr xs)
              (sym e))

  finish :
      (x : Search)
      → FirstFit (rounded size0) h.base_addr bs x
      → Mallocs h bs size0 (elim x [
        | failed ↦ (null enomem, h)
        | broken ↦ (null euclean, h)
        | endless ↦ (out_of_rounds, h)
        | fits header tail block ↦
            let (aligned, h1) = split_front header tail block 16 h in
            (given block, mark aligned (split_back aligned tail (rounded size0) h1))
      ])
  finish _ (miss u) = full u
  finish _ (hit pre post b e u f) =
      let (eb, l) = fitting→free (rounded size0) b f in
      let e' : bs ≡ pre ++ (free_block b.size ∷ post) = e ∙ ap (λ c. pre ++ (c ∷ post)) eb in
      let a = IsValid-Around h pre b post (subst (IsValid h) e v) in
      let m : ℕ = after h.base_addr pre in
      let s : Stands h m b = subst (λ x. Stands h x b) a.place a.stands in
      let sz : (h.headers m).size < 2 ^ 64 = omega (arith, ap Header.size s.head, a.to, v.small) in
      rw (split_front_none h m (m + b.size + 16) sz) (carved pre post b.size e' l)

  -- malloc on a well-formed heap gives an aligned pointer that was not in use, to a block of at least the
  -- size, and the heap stays well-formed with every other pointer in use as before; or it fails with
  -- ENOMEM and changes nothing, when no free block is large enough. The size is at most 2 ^ 64 - 16.
  -- A well-formed heap may lie anywhere from address 1 up to an end below 2 ^ 64.
  pub malloc-Mallocs : Mallocs h bs size0 (malloc size0 h)
  unfolding malloc kh_alloc_aligned is_p2
  malloc-Mallocs =
      let r : ℕ = h.end_addr - h.base_addr + 1 in
      subst
        (λ (size : ℕ). Mallocs h bs size0 (elim (search_fit r size 16 h.base_addr h) [
          | failed ↦ (null enomem, h)
          | broken ↦ (null euclean, h)
          | endless ↦ (out_of_rounds, h)
          | fits header tail block ↦
              let (aligned, h1) = split_front header tail block 16 h in
              (given block, mark aligned (split_back aligned tail size h1))
        ]))
        (sym (align_up-sixteen size0 small))
        (finish (search_fit r (rounded size0) 16 h.base_addr h) (
          search_fit-FirstFit h (rounded size0) r h.base_addr bs v.row v.ends v.base v.small
            (omega arith)))
