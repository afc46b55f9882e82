-- ===== src/Heap/Alloc.antt =====
-- What `malloc` does to the blocks of a heap.
use pml.Common.{
  ℕ, ◌+◌, ◌-◌, ◌%◌, ◌^◌, ◌≤◌, ◌<◌, ◌≡◌, refl, ap, ◌∙◌, true, false, List, [], ◌∷◌, ◌++◌, arith,
  ◌==◌, ==_refl, leb, if◌then◌else◌, inl, inr, Bool-cases,
}
use mathlib.Core.Path.{subst}
use pml.Heap.{Heap, new_tail, set_header, split_front, split_back, mark}
use pml.Heap.Blocks.{Block, header_of, Stands, after, IsValid, IsValid-Around}
use pml.Heap.Edit.{used_block, free_block, whole-IsValid, cut-IsValid}

-- what becomes of a block that is allocated
abbrev pub carve : ℕ → Block → List Block
carve size b =
    if leb (size + 32 + 32) b.size
    then used_block size ∷ free_block (b.size - size - 32) ∷ []
    else used_block b.size ∷ []

-- With the default alignment there is nothing in front of the aligned header.
pub split_front_none :
    (h : Heap) (m t : ℕ)
    → (h.headers m).size < 2 ^ 64
    → split_front m t (m + 16) 16 h ≡ (m, set_header m (h.headers m) h)
unfolding split_front
split_front_none h m t l =
    let d : m + 16 - 16 - m ≡ 0 = omega arith in
    let e : m + 16 - 16 ≡ m = omega arith in
    let s : ((h.headers m).size + 2 ^ 64 - 0) % 2 ^ 64 ≡ (h.headers m).size = omega arith in
    rw (d, e, s) refl

-- the heap after both halves and the mark
abbrev pub allocated : (m t size : ℕ) → Heap → Heap
allocated m t size h = mark m (split_back m t size (set_header m (h.headers m) h))

module _ (h : Heap) (m n size : ℕ) (head : h.headers m ≡ header_of (free_block n)) (i : ℕ) where
  cut_headers :
      leb (size + 32 + 32) n ≡ true
      → (allocated m (m + n + 16) size h).headers i ≡ (
          if m == i
          then header_of (used_block size)
          else if m + 16 + size + 16 == i
          then header_of (free_block (n - size - 32))
          else h.headers i)
  unfolding split_back
  cut_headers c = rw (==_refl m, head, c) (ground (arith, ==_refl m))

  cut_tails :
      leb (size + 32 + 32) n ≡ true
      → (allocated m (m + n + 16) size h).tails i ≡ (
          if m + n + 16 == i
          then record (h.tails i) { header = m + 16 + size + 16 }
          else if m + 16 + size == i
          then new_tail m
          else h.tails i)
  unfolding split_back
  cut_tails c = rw (==_refl m, head, c) (ground arith)

  whole_headers :
      leb (size + 32 + 32) n ≡ false
      → (allocated m (m + n + 16) size h).headers i
        ≡ (if m == i then header_of (used_block n) else h.headers i)
  unfolding split_back
  whole_headers c = rw (==_refl m, head, c) (ground (arith, ==_refl m))

  whole_tails :
      leb (size + 32 + 32) n ≡ false → (allocated m (m + n + 16) size h).tails i ≡ h.tails i
  unfolding split_back
  whole_tails c = rw (==_refl m, head, c) refl

pub same_tail :
    (h : Heap) (m n i : ℕ)
    → (h.tails (m + 16 + n)).header ≡ m
    → h.tails i ≡ (if m + 16 + n == i then record (h.tails i) { header = m } else h.tails i)
same_tail h m n i e = elim (Bool-cases (m + 16 + n == i)) [
  | inl q ↦
      let k : m + 16 + n ≡ i = ground arith in
      let o : (h.tails i).header ≡ m = subst (λ x. (h.tails x).header ≡ m) k e in
      rw q (ap (λ (x : ℕ). record (h.tails i) { header = x }) o)
  | inr q ↦ rw q refl
]

pub allocated_bounds :
    (h : Heap) (m t size : ℕ)
    → ((allocated m t size h).base_addr ≡ h.base_addr)
      × ((allocated m t size h).end_addr ≡ h.end_addr)
unfolding split_back
allocated_bounds h m t size = ground arith

module _ (h : Heap) (pre post : List Block) (n size : ℕ)
    (v : IsValid h (pre ++ (free_block n ∷ post))) (l : size ≤ n) (al : size % 16 ≡ 0) where
  pub allocated-IsValid :
      let m = after h.base_addr pre in
      IsValid (allocated m (m + n + 16) size h) (pre ++ (carve size (free_block n) ++ post))
  allocated-IsValid =
      let a = IsValid-Around h pre (free_block n) post v in
      let m : ℕ = after h.base_addr pre in
      let s : Stands h m (free_block n) = subst (λ x. Stands h x (free_block n)) a.place a.stands in
      let nal = s.aligned in
      let bounds = allocated_bounds h m (m + n + 16) size in
      let g : Heap = allocated m (m + n + 16) size h in
      let j : m + n + 16 ≡ m + 16 + n = omega arith in
      elim (Bool-cases (leb (size + 32 + 32) n)) [
        | inl c ↦ rw c (
            cut-IsValid h g pre (free_block n ∷ []) post n v bounds refl s.magic nal size
              (ground arith) al
              (λ i.
                (cut_headers h m n size s.head i c, rw (← j) (cut_tails h m n size s.head i c))))
        | inr c ↦
            let ts = λ (i : ℕ). whole_tails h m n size s.head i c in
            rw c (
              whole-IsValid h g pre (free_block n ∷ []) post n v bounds refl s.magic nal
                (used_block n) refl
                (λ i. (whole_headers h m n size s.head i c, ts i ∙ same_tail h m n i s.owner)))
      ]
