-- ===== src/Heap/Resize.antt =====
-- The branches of `kh_realloc`, put together.
use pml.Common.{
  ℕ, ◌+◌, ◌-◌, ◌%◌, ◌^◌, ◌≤◌, ◌<◌, ◌≡◌, ◌≢◌, refl, ap, sym, ◌∙◌, true, false, ◌&&◌, some, List, [],
  ◌∷◌, ◌++◌, arith, bit_and, ◌==◌, ==_refl, ==_ne, ltb, leb, if◌then◌else◌, inl, inr, Bool-cases,
}
use mathlib.Core.Path.{subst}
use pml.Heap.{Heap, malloc, kh_free, take_behind, give_back, kh_realloc, move, Outcome, given}
use pml.Heap.Blocks.{
  Block, header_of, Stands, after, after_le, IsValid, IsValid-Around, live, live_behind,
}
use pml.Heap.Edit.{used_block, free_block}
use pml.Heap.Fit.{align_up-sixteen}
use pml.Heap.Malloc.{Mallocs, got, full, rounded, malloc-Mallocs}
use pml.Heap.Merge.{Stands-at, by_mark}
use pml.Heap.Free.{find_live}
use pml.Heap.Release.{kh_free-Freed}
use pml.Heap.Realloc.{Reallocs, resized, refused, given_back, left_alone, taken}

-- A new block and the release of the old one.
move-Reallocs :
    (h : Heap) (bs : List Block) (p n size : ℕ)
    → live p h.base_addr bs ≡ some n
    → (r : Outcome × Heap) → Mallocs h bs size r
    → Reallocs h bs p size (move p r)
unfolding move
move-Reallocs h bs p n size e _ (full u) = refused
move-Reallocs h bs p n size e _ (got r k new g v b al l z same) =
    let apart : r ≢ p =
      λ q. absurd (ground (arith, sym z ∙ ap (λ x. live x h.base_addr bs) q ∙ e)) in
    let kept : live p g.base_addr new ≡ some n =
      ap (λ a. live p a new) b ∙ same p ∙ rw (==_ne r p apart) e in
    let f = kh_free-Freed g new p n v kept in
    resized r k f.left (kh_free p g).1 f.valid (f.based ∙ b) l (inr z) (λ q.
      let before = ap (λ a. live q a f.left) (sym b) ∙ f.same q in
      let during = ap (λ a. live q a new) b ∙ same q in ground arith)

-- The call, with what stands at the header.
kh_realloc_used :
    (h : Heap) (m n size0 : ℕ)
    → size0 ≤ 2 ^ 64 - 16
    → h.headers m ≡ header_of (used_block n)
    → kh_realloc (m + 16) size0 h ≡ (
        let size = rounded size0 in
        let y = h.headers (m + 32 + n) in
        if ltb n size
        then (if ltb (m + 32 + n) h.end_addr
              && (bit_and y.flags 1 == 0 && leb size (n + 32 + y.size))
            then (given (m + 16), take_behind m size h)
            else move (m + 16) (malloc size h))
        else if leb 64 (n - size)
        then (given (m + 16), give_back m size h)
        else (given (m + 16), h))
unfolding kh_realloc malloc
kh_realloc_used h m n size0 l e =
    let back : m + 16 - 16 ≡ m = omega arith in
    let z : (m + 16 == 0) ≡ false = ground arith in rw (z, back, align_up-sixteen size0 l, e) refl

pub live_here :
    (h : Heap) (pre post : List Block) (n : ℕ)
    → live (after h.base_addr pre + 16) h.base_addr (pre ++ (used_block n ∷ post)) ≡ some n
live_here h pre post n =
    let m : ℕ = after h.base_addr pre in
    live_behind (m + 16) h.base_addr pre (used_block n ∷ post) (omega arith)
    ∙ rw (==_refl (m + 16)) refl

module _ (h : Heap) (pre : List Block) (n size : ℕ) (al : size % 16 ≡ 0)
    (small : size ≤ 2 ^ 64 - 16) where
  moves :
      (post : List Block)
      → IsValid h (pre ++ (used_block n ∷ post))
      → let m = after h.base_addr pre in
        Reallocs h (pre ++ (used_block n ∷ post)) (m + 16) size (move (m + 16) (malloc size h))
  moves post v =
      let bs : List Block = pre ++ (used_block n ∷ post) in
      move-Reallocs h bs (after h.base_addr pre + 16) n size (live_here h pre post n)
        (malloc size h) (malloc-Mallocs h bs size v small)

  -- what the branch for a larger size gives, with the blocks behind
  abbrev Grown : List Block → Type 0
  Grown post =
      let m = after h.base_addr pre in
      let y = h.headers (m + 32 + n) in
      Reallocs h (pre ++ (used_block n ∷ post)) (m + 16) size (
        if ltb (m + 32 + n) h.end_addr && (bit_and y.flags 1 == 0 && leb size (n + 32 + y.size))
        then (given (m + 16), take_behind m size h)
        else move (m + 16) (malloc size h))

  behind :
      (post : List Block) (b : Block)
      → IsValid h (pre ++ (used_block n ∷ (b ∷ post)))
      → let m = after h.base_addr pre in
        (ltb (m + 32 + n) h.end_addr ≡ true) × (h.headers (m + 32 + n) ≡ header_of b)
  behind post b v =
      let m : ℕ = after h.base_addr pre in
      let a = IsValid-Around h pre (used_block n) (b ∷ post) v in
      let t : Stands h (m + 32 + n) b = subst (λ x. Stands h (x + 32 + n) b) a.place a.behind.0 in
      (ground (arith, a.ends, a.place, after_le (a.at + 32 + n + 32 + b.size) post), t.head)

  used_behind :
      (post : List Block) (k : ℕ)
      → IsValid h (pre ++ (used_block n ∷ (used_block k ∷ post)))
      → n < size
      → Grown (used_block k ∷ post)
  used_behind post k v more =
      let (c, t) = behind post (used_block k) v in rw (c, t) (moves (used_block k ∷ post) v)

  free_behind :
      (post : List Block) (k : ℕ)
      → IsValid h (pre ++ (used_block n ∷ (free_block k ∷ post)))
      → n < size
      → Grown (free_block k ∷ post)
  free_behind post k v more =
      let (c, t) = behind post (free_block k) v in
      elim (Bool-cases (leb size (n + 32 + k))) [
        | inl f ↦ rw (c, t, f) (taken h pre post n k size v al more (ground arith))
        | inr f ↦ rw (c, t, f) (moves (free_block k ∷ post) v)
      ]

  grown : (post : List Block) → IsValid h (pre ++ (used_block n ∷ post)) → n < size → Grown post
  grown [] v more =
      let m : ℕ = after h.base_addr pre in
      let a = IsValid-Around h pre (used_block n) [] v in
      let c : ltb (m + 32 + n) h.end_addr ≡ false = ground (arith, a.ends, a.place) in
      rw c (moves [] v)
  grown (b ∷ post) v more = elim (Bool-cases b.used) [
    | inl u ↦ subst Grows (sym (by_mark b true u)) (used_behind post b.size) v more
    | inr u ↦ subst Grows (sym (by_mark b false u)) (free_behind post b.size) v more
  ]
    where
      Grows : Block → Type 0
      Grows c = IsValid h (pre ++ (used_block n ∷ (c ∷ post))) → n < size → Grown (c ∷ post)

  -- all branches
  resizes :
      (post : List Block)
      → IsValid h (pre ++ (used_block n ∷ post))
      → let m = after h.base_addr pre in
        let y = h.headers (m + 32 + n) in
        Reallocs h (pre ++ (used_block n ∷ post)) (m + 16) size (
          if ltb n size
          then (if ltb (m + 32 + n) h.end_addr
                && (bit_and y.flags 1 == 0 && leb size (n + 32 + y.size))
              then (given (m + 16), take_behind m size h)
              else move (m + 16) (malloc size h))
          else if leb 64 (n - size)
          then (given (m + 16), give_back m size h)
          else (given (m + 16), h))
  resizes post v = elim (Bool-cases (ltb n size)) [
    | inl t ↦ rw t (grown post v (ground arith))
    | inr t ↦ elim (Bool-cases (leb 64 (n - size))) [
      | inl c ↦ rw (t, c) (given_back h pre post n size v al (ground arith))
      | inr c ↦ rw (t, c) (left_alone h pre post n size v al (ground arith))
    ]
  ]

-- kh_realloc of a pointer in use on a well-formed heap gives a pointer to a block of at least the size
-- rounded up to 16, which is the old pointer or one that was not in use; the heap stays well-formed, the
-- old pointer is in use no more unless it is the one given, and every other pointer is as before. Or it
-- fails with ENOMEM and changes nothing. The size is at most 2 ^ 64 - 16. A well-formed heap may lie
-- anywhere up to an end below 2 ^ 64.
pub kh_realloc-Reallocs :
    (h : Heap) (bs : List Block) (p n size : ℕ)
    → IsValid h bs
    → live p h.base_addr bs ≡ some n
    → size ≤ 2 ^ 64 - 16
    → Reallocs h bs p (rounded size) (kh_realloc p size h)
kh_realloc-Reallocs h bs p n size v e l =
    let (pre, post, f, g) = find_live p n h.base_addr bs e in
    let w = subst (IsValid h) f v in
    let m : ℕ = after h.base_addr pre in
    let s = Stands-at h pre post (used_block n) w in
    subst (λ x. Reallocs h bs x (rounded size) (kh_realloc x size h)) g
      (subst (λ xs. Reallocs h xs (m + 16) (rounded size) (kh_realloc (m + 16) size h)) (sym f)
        (subst (Reallocs h (pre ++ (used_block n ∷ post)) (m + 16) (rounded size))
          (sym (kh_realloc_used h m n size l s.head))
          (resizes h pre n (rounded size) (omega arith) (omega arith) post w)))
