-- ===== src/Heap/Realloc.antt =====
-- `kh_realloc` keeps the other pointers in use, whether the block grows, shrinks or moves.
use pml.Common.{
  ℕ, ◌+◌, ◌-◌, ◌%◌, ◌≤◌, ◌<◌, ◌≡◌, ◌⊎◌, refl, ◌∙◌, true, false, none, some, List, [], ◌∷◌, ◌++◌,
  arith, ◌==◌, leb, if◌then◌else◌, inl, inr, Bool-cases,
}
use mathlib.Core.Path.{subst}
use pml.Errno.{enomem}
use pml.Heap.{Heap, new_tail, take_behind, give_back, Outcome, given, null}
use pml.Heap.Blocks.{Block, header_of, Stands, after, IsValid, IsValid-Around, live, live_changed}
use pml.Heap.Edit.{used_block, free_block, whole-IsValid, cut-IsValid}
use pml.Heap.Merge.{Stands-at}

module _ (h : Heap) (m n size : ℕ) (e : h.headers m ≡ header_of (used_block n)) (i : ℕ) where
  give_back_writes :
      64 ≤ n - size
      → ((give_back m size h).headers i ≡ (
          if m == i
          then header_of (used_block size)
          else if m + 16 + size + 16 == i
          then header_of (free_block (n - size - 32))
          else h.headers i))
        × ((give_back m size h).tails i ≡ (
            if m + 16 + n == i
            then record (h.tails i) { header = m + 16 + size + 16 }
            else if m + 16 + size == i
            then new_tail m
            else h.tails i))
  unfolding give_back
  give_back_writes l = rw e (ground arith, ground arith)

module _ (h : Heap) (m n k size : ℕ) (e : h.headers m ≡ header_of (used_block n))
    (f : h.headers (m + 32 + n) ≡ header_of (free_block k)) (i : ℕ) where
  take_cut_writes :
      leb 64 (32 + k - (size - n)) ≡ true
      → ((take_behind m size h).headers i ≡ (
          if m == i
          then header_of (used_block size)
          else if m + 16 + size + 16 == i
          then header_of (free_block (n + k - size))
          else h.headers i))
        × ((take_behind m size h).tails i ≡ (
            if m + 32 + n + 16 + k == i
            then record (h.tails i) { header = m + 16 + size + 16 }
            else if m + 16 + size == i
            then new_tail m
            else h.tails i))
  unfolding take_behind
  take_cut_writes c = rw (e, f, c) (ground arith, ground arith)

  take_whole_writes :
      leb 64 (32 + k - (size - n)) ≡ false
      → ((take_behind m size h).headers i
          ≡ (if m == i then header_of (used_block (n + (32 + k))) else h.headers i))
        × ((take_behind m size h).tails i
            ≡ (if m + 32 + n + 16 + k == i then record (h.tails i) { header = m } else h.tails i))
  unfolding take_behind
  take_whole_writes c = rw (e, f, c) (ground arith, ground arith)

take_behind_bounds :
    (h : Heap) (m size : ℕ)
    → ((take_behind m size h).base_addr ≡ h.base_addr)
      × ((take_behind m size h).end_addr ≡ h.end_addr)
unfolding take_behind
take_behind_bounds h m size = ground arith

-- The outcomes of `kh_realloc` of the pointer `p`. It gives a pointer to a block of at least `size`
-- bytes, either `p` or one that was not in use; `p` is in use no more, unless it is that pointer, and
-- the others are as before. Or it fails with ENOMEM and changes nothing.
pub data Reallocs (h : Heap) (bs : List Block) (p size : ℕ) : Outcome × Heap → Type 0 where
  resized :
      (r n : ℕ) (new : List Block) (g : Heap)
      → IsValid g new
      → g.base_addr ≡ h.base_addr
      → size ≤ n
      → (r ≡ p) ⊎ (live r h.base_addr bs ≡ none)
      → ((q : ℕ)
          → live q h.base_addr new
            ≡ (if r == q then some n else if p == q then none else live q h.base_addr bs))
      → Reallocs h bs p size (given r, g)
  refused : Reallocs h bs p size (null enomem, h)

-- a block in use whose room changes, with what is behind it
live-resized :
    (q a : ℕ) (pre old new : List Block) (n : ℕ)
    → let m = after a pre in
      live q m new ≡ (if m + 16 == q then some n else live q m old)
      → live q a (pre ++ new)
        ≡ (if m + 16 == q then some n else if m + 16 == q then none else live q a (pre ++ old))
live-resized q a pre old new n e =
    let m : ℕ = after a pre in
    live_changed q a (m + 16) (some n) pre new old refl e
    ∙ elim (Bool-cases (m + 16 == q)) [ inl t ↦ rw t refl | inr t ↦ rw t refl ]

module _ (h : Heap) (pre post : List Block) (n size : ℕ)
    (v : IsValid h (pre ++ (used_block n ∷ post))) (al : size % 16 ≡ 0) where
  pub given_back :
      64 ≤ n - size
      → let m = after h.base_addr pre in
        Reallocs h (pre ++ (used_block n ∷ post)) (m + 16) size (given (m + 16), give_back m size h)
  unfolding give_back
  given_back c =
      let m : ℕ = after h.base_addr pre in
      let s = Stands-at h pre post (used_block n) v in
      let k : m + 32 + size + 32 + (n - size - 32) ≡ m + 32 + n = omega arith in
      resized (m + 16) size (pre ++ (used_block size ∷ (free_block (n - size - 32) ∷ post)))
        (give_back m size h)
        (cut-IsValid h (give_back m size h) pre (used_block n ∷ []) post n v (refl, refl) refl
          s.magic s.aligned size (omega arith) al (λ i. give_back_writes h m n size s.head i c))
        refl (omega arith) (inl refl)
        (λ q.
          live-resized q h.base_addr pre (used_block n ∷ post) _ size
            (rw k (elim (Bool-cases (m + 16 == q)) [ inl t ↦ rw t refl | inr t ↦ rw t refl ])))

  pub left_alone :
      size ≤ n
      → let m = after h.base_addr pre in
        Reallocs h (pre ++ (used_block n ∷ post)) (m + 16) size (given (m + 16), h)
  left_alone l =
      let m : ℕ = after h.base_addr pre in
      resized (m + 16) n (pre ++ (used_block n ∷ post)) h v refl l (inl refl) (λ q.
        live-resized q h.base_addr pre (used_block n ∷ post) _ n
          (elim (Bool-cases (m + 16 == q)) [ inl t ↦ rw t refl | inr t ↦ rw t refl ]))

module _ (h : Heap) (pre post : List Block) (n k size : ℕ)
    (v : IsValid h (pre ++ (used_block n ∷ (free_block k ∷ post)))) (al : size % 16 ≡ 0)
    (more : n < size) (fits : size ≤ n + 32 + k) where
  pub taken :
      let m = after h.base_addr pre in
      Reallocs h
        (pre ++ (used_block n ∷ (free_block k ∷ post)))
        (m + 16)
        size
        (given (m + 16), take_behind m size h)
  taken =
      let m : ℕ = after h.base_addr pre in
      let a = IsValid-Around h pre (used_block n) (free_block k ∷ post) v in
      let s = Stands-at h pre (free_block k ∷ post) (used_block n) v in
      let t : Stands h (m + 32 + n) (free_block k) =
        subst (λ x. Stands h (x + 32 + n) (free_block k)) a.place a.behind.0 in
      let nal = s.aligned in
      let kal = t.aligned in
      let e : m + 16 + (n + 32 + k) ≡ m + 32 + n + 16 + k = omega arith in
      let room : m + 32 + n + 32 + k ≡ m + 32 + (n + 32 + k) = omega arith in
      let g : Heap = take_behind m size h in
      let bounds = take_behind_bounds h m size in
      elim (Bool-cases (leb 64 (32 + k - (size - n)))) [
        | inl c ↦
            let z : n + 32 + k - size - 32 ≡ n + k - size = ground arith in
            let j : m + 32 + size + 32 + (n + 32 + k - size - 32) ≡ m + 32 + n + 32 + k =
              ground arith in
            resized (m + 16) size
              (pre ++ (used_block size ∷ (free_block (n + 32 + k - size - 32) ∷ post))) g
              (cut-IsValid h g pre (used_block n ∷ (free_block k ∷ [])) post (n + 32 + k) v bounds
                room (rw e t.magic) (omega arith) size (ground arith) al
                (λ i. rw (e, z) (take_cut_writes h m n k size s.head t.head i c)))
              bounds.0 (omega arith) (inl refl)
              (λ q.
                live-resized q h.base_addr pre (used_block n ∷ (free_block k ∷ post)) _ size (
                  rw j (elim (Bool-cases (m + 16 == q)) [ inl t ↦ rw t refl | inr t ↦ rw t refl ])))
        | inr c ↦
            let z : n + (32 + k) ≡ n + 32 + k = omega arith in
            resized (m + 16) (n + 32 + k) (pre ++ (used_block (n + 32 + k) ∷ post)) g
              (whole-IsValid h g pre (used_block n ∷ (free_block k ∷ [])) post (n + 32 + k) v bounds
                room (rw e t.magic) (omega arith) (used_block (n + 32 + k)) refl
                (λ i. rw (e, ← z) (take_whole_writes h m n k size s.head t.head i c)))
              bounds.0 fits (inl refl)
              (λ q.
                live-resized q h.base_addr pre (used_block n ∷ (free_block k ∷ post)) _ (n + 32 + k)
                  (rw (← room)
                    (elim (Bool-cases (m + 16 == q)) [ inl t ↦ rw t refl | inr t ↦ rw t refl ])))
      ]
