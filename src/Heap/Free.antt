-- ===== src/Heap/Free.antt =====
-- `kh_free` takes one pointer out of use and keeps the others.
use pml.Common.{
  ℕ, ◌+◌, ◌-◌, ◌≤◌, ◌≡◌, ◌⊎◌, refl, ap, sym, ◌∙◌, true, false, ◌&&◌, some, List, [], ◌∷◌, ◌++◌,
  arith, ◌==◌, leb, if◌then◌else◌, inl, inr, Bool-cases,
}
use mathlib.Core.List.{append_assoc}
use mathlib.Core.Path.{subst}
use pml.Heap.{Heap, merge_front}
use pml.Heap.Blocks.{
  Block, header_of, Stands, after, after_le, after-append, IsValid, IsValid-Around, live,
}
use pml.Heap.Edit.{free_block, used_block}
use pml.Heap.Merge.{Merged, unchanged, by_mark, Stands-at, joined-Merged}

module _ (h : Heap) (m c n : ℕ) (e : h.headers (m + 32 + c) ≡ header_of (free_block n))
    (o : (h.tails (m + 16 + c)).header ≡ m) where
  behind : m + 32 + c - 16 ≡ m + 16 + c
  behind = omega arith

  merge_front_used :
      h.headers m ≡ header_of (used_block c) → merge_front (m + 32 + c) h ≡ (m + 32 + c, h)
  unfolding merge_front
  merge_front_used f = rw (behind, o, e, f) (ground arith)

  merge_front_free :
      h.headers m ≡ header_of (free_block c)
      → h.base_addr ≤ m
      → let (r, g) = merge_front (m + 32 + c) h in
        (r ≡ m)
        × (g.base_addr ≡ h.base_addr)
        × (g.end_addr ≡ h.end_addr)
        × ((i : ℕ)
            → (g.headers i ≡ (if m == i then header_of (free_block (c + n + 32)) else h.headers i))
              × (g.tails i ≡ (
                  if m + 32 + c + 16 + n == i
                  then record (h.tails i) { header = m }
                  else h.tails i)))
  unfolding merge_front
  merge_front_free f l =
      let t : leb h.base_addr (m + 16 + c) ≡ true = ground arith in
      rw (behind, o, e, f, t) (refl, refl, refl, λ i. (ground arith, ground arith))

-- the block in front, if any
last_or :
    (pre : List Block)
    → (pre ≡ []) ⊎ ((front : List Block) × (c : Block) × (pre ≡ front ++ (c ∷ [])))
last_or [] = inl refl
last_or (b ∷ pre) = elim (last_or pre) [
  | inl e ↦ inr ([], b, ap (λ l. b ∷ l) e)
  | inr (front, c, e) ↦ inr (b ∷ front, c, ap (λ l. b ∷ l) e)
]

-- what `merge_front` leaves
abbrev MergedFront : Heap → List Block → ℕ × Heap → Type 0
MergedFront h bs r = Merged h bs r.0 r.1

merge_front_first : (h : Heap) (m : ℕ) → m ≡ h.base_addr → 16 ≤ m → merge_front m h ≡ (m, h)
unfolding merge_front
merge_front_first h m e l = let t : leb h.base_addr (m - 16) ≡ false = ground arith in rw t refl

-- The block in front counts to the blocks before.
kept_front :
    (h : Heap) (front post : List Block) (c : Block) (n : ℕ)
    → IsValid h (front ++ (c ∷ (free_block n ∷ post)))
    → Merged h (front ++ (c ∷ (free_block n ∷ post))) (after h.base_addr front + 32 + c.size) h
kept_front h front post c n v =
    let e = append_assoc front (c ∷ []) (free_block n ∷ post) in
    record {
      pre = front ++ (c ∷ []);
      post = post;
      size = n;
      valid = subst (IsValid h) (sym e) v;
      at = sym (after-append h.base_addr front (c ∷ []));
      based = refl;
      same = λ q. ap (live q h.base_addr) e;
    }

merge_front_behind :
    (h : Heap) (front post : List Block) (c : Block) (n : ℕ)
    → IsValid h (front ++ (c ∷ (free_block n ∷ post)))
    → MergedFront h
        (front ++ (c ∷ (free_block n ∷ post)))
        (merge_front (after h.base_addr front + 32 + c.size) h)
merge_front_behind h front post c n v =
    let m : ℕ = after h.base_addr front in
    let s = Stands-at h front (free_block n ∷ post) c v in
    let a = IsValid-Around h front c (free_block n ∷ post) v in
    let t : Stands h (m + 32 + c.size) (free_block n) =
      subst (λ x. Stands h (x + 32 + c.size) (free_block n)) a.place a.behind.0 in
    elim (Bool-cases c.used) [
      | inl u ↦
          let e =
            merge_front_used h m c.size n t.head s.owner
              (s.head ∙ ap header_of (by_mark c true u)) in
          subst (MergedFront h _) (sym e) (kept_front h front post c n v)
      | inr u ↦
          let f = by_mark c false u in
          let w = subst (λ x. IsValid h (front ++ (x ∷ (free_block n ∷ post)))) f v in
          let (r, x, y, z) =
            merge_front_free h m c.size n t.head s.owner (s.head ∙ ap header_of f)
              (after_le h.base_addr front) in
          let g : Heap = (merge_front (m + 32 + c.size) h).1 in
          subst
            (λ b.
              Merged h (front ++ (b ∷ (free_block n ∷ post))) (merge_front (m + 32 + c.size) h).0 g)
            (sym f)
            (subst (λ k. Merged h (front ++ (free_block c.size ∷ (free_block n ∷ post))) k g)
              (sym r) (joined-Merged h front post c.size n w g (x, y) z))
    ]

pub merge_front-Merged :
    (h : Heap) (pre post : List Block) (n : ℕ)
    → IsValid h (pre ++ (free_block n ∷ post))
    → MergedFront h (pre ++ (free_block n ∷ post)) (merge_front (after h.base_addr pre) h)
merge_front-Merged h pre post n v = elim (last_or pre) [
  | inl e ↦
      let first : after h.base_addr pre ≡ h.base_addr = ap (after h.base_addr) e in
      subst (MergedFront h _)
        (sym (merge_front_first h (after h.base_addr pre) first (omega (arith, v.positive))))
        (unchanged h pre post n v)
  | inr (front, c, e) ↦
      let joint = append_assoc front (c ∷ []) (free_block n ∷ post) in
      let f = ap (λ l. l ++ (free_block n ∷ post)) e ∙ joint in
      let at = ap (after h.base_addr) e ∙ after-append h.base_addr front (c ∷ []) in
      let r = merge_front_behind h front post c n (subst (IsValid h) f v) in
      subst (λ m. MergedFront h (pre ++ (free_block n ∷ post)) (merge_front m h)) (sym at)
        (subst (λ bs. MergedFront h bs (merge_front (after h.base_addr front + 32 + c.size) h))
          (sym f) r)
]

-- where a pointer leads
pub find_live :
    (p n a : ℕ) (bs : List Block)
    → live p a bs ≡ some n
    → (pre : List Block) × (post : List Block) × (bs ≡ pre ++ (used_block n ∷ post))
      × (after a pre + 16 ≡ p)
find_live p n a [] e = absurd (ground arith)
find_live p n a (b ∷ bs) e = elim (Bool-cases (b.used && (a + 16 == p))) [
  | inl t ↦
      let f : some b.size ≡ some n = rw t at e in
      let u : b.used ≡ true = ground arith in
      let s : b.size ≡ n = ground arith in
      ([], bs, ap (λ c. c ∷ bs) (by_mark b true u ∙ ap used_block s), ground arith)
  | inr t ↦
      let (pre, post, f, g) = find_live p n (a + 32 + b.size) bs (rw t at e) in
      (b ∷ pre, post, ap (λ l. b ∷ l) f, g)
]
