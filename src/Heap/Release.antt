-- ===== src/Heap/Release.antt =====
-- What `kh_free` does to the pointers in use, and how far apart they are.
use pml.Common.{
  ℕ, ◌+◌, ◌-◌, ◌≤◌, ◌<◌, ◌≡◌, refl, ap, sym, ◌∙◌, true, false, ◌&&◌, none, some, List, [], ◌∷◌,
  ◌++◌, arith, ◌==◌, if◌then◌else◌, inl, inr, Bool-cases,
}
use mathlib.Core.Path.{subst}
use pml.Errno.{Done, done}
use pml.Heap.{Heap, header_magic, merge_front, merge_back, unmark, kh_free}
use pml.Heap.Blocks.{
  Block, header_of, after, after_le, IsValid, live, live_before, live_changed, replace,
}
use pml.Heap.Edit.{free_block, used_block}
use pml.Heap.Merge.{Stands-at, merge_back-Merged}
use pml.Heap.Free.{merge_front-Merged, find_live}

module _ (h : Heap) (pre post : List Block) (n : ℕ)
    (v : IsValid h (pre ++ (used_block n ∷ post))) where
  unmark_headers :
      let m = after h.base_addr pre in
      (i : ℕ) → (unmark m h).headers i ≡ (if m == i then header_of (free_block n) else h.headers i)
  unmark_headers i = let s = Stands-at h pre post (used_block n) v in rw s.head (ground arith)

  unmark-IsValid : IsValid (unmark (after h.base_addr pre) h) (pre ++ (free_block n ∷ post))
  unmark-IsValid =
      let m : ℕ = after h.base_addr pre in
      let s = Stands-at h pre post (used_block n) v in
      let low : h.base_addr ≤ m = after_le h.base_addr pre in
      replace h (unmark m h) pre (used_block n ∷ []) (free_block n ∷ []) post v (refl, refl) refl
        (
          λ i p q. (ground (arith, unmark_headers i), refl),
          (
            record {
              head = ground (arith, unmark_headers m);
              magic = s.magic;
              owner = s.owner;
              aligned = s.aligned;
            },
            tt,
          ),
          λ i p q. (ground (arith, unmark_headers i), refl),
        )

  live-unmarked :
      (q : ℕ)
      → let p = after h.base_addr pre + 16 in
        live q h.base_addr (pre ++ (free_block n ∷ post))
        ≡ (if p == q then none else live q h.base_addr (pre ++ (used_block n ∷ post)))
  live-unmarked q =
      live_changed q h.base_addr (after h.base_addr pre + 16) none pre _ _ refl
        (elim (Bool-cases (after h.base_addr pre + 16 == q)) [
          | inl e ↦ rw e (live_before q (after h.base_addr pre + 32 + n) post (ground arith))
          | inr e ↦ rw e refl
        ])

-- What `kh_free` leaves behind when it takes a pointer out of use.
pub record Freed (h : Heap) (bs : List Block) (p : ℕ) (r : Done × Heap) : Type 0 where
  pub returned : r.0 ≡ done
  pub left : List Block
  pub valid : IsValid r.1 left
  pub based : r.1.base_addr ≡ h.base_addr
  pub same : (q : ℕ) → live q h.base_addr left ≡ (if p == q then none else live q h.base_addr bs)

kh_free_good :
    (h : Heap) (m : ℕ)
    → ((h.headers m).magic == header_magic) ≡ true
    → kh_free (m + 16) h ≡ (let (r, g) = merge_front m (unmark m h) in (done, merge_back r g))
unfolding kh_free
kh_free_good h m t =
    let back : m + 16 - 16 ≡ m = omega arith in
    let z : (m + 16 == 0) ≡ false = ground arith in rw (z, back, t) refl

freed_at :
    (h : Heap) (pre post : List Block) (n : ℕ)
    → IsValid h (pre ++ (used_block n ∷ post))
    → Freed h
        (pre ++ (used_block n ∷ post))
        (after h.base_addr pre + 16)
        (kh_free (after h.base_addr pre + 16) h)
freed_at h pre post n v =
    let m : ℕ = after h.base_addr pre in
    let s = Stands-at h pre post (used_block n) v in
    let good : ((h.headers m).magic == header_magic) ≡ true = rw s.head refl in
    let x = merge_front-Merged (unmark m h) pre post n (unmark-IsValid h pre post n v) in
    let r = merge_front m (unmark m h) in
    let y = merge_back-Merged r.1 x.pre x.post x.size x.valid in
    let at : r.0 ≡ after r.1.base_addr x.pre = x.at ∙ ap (λ a. after a x.pre) (sym x.based) in
    subst (Freed h (pre ++ (used_block n ∷ post)) (m + 16)) (sym (kh_free_good h m good)) (record {
      returned = refl;
      left = y.pre ++ (free_block y.size ∷ y.post);
      valid =
          subst (λ k. IsValid (merge_back k r.1) (y.pre ++ (free_block y.size ∷ y.post))) (sym at)
            y.valid;
      based = ap (λ k. (merge_back k r.1).base_addr) at ∙ y.based ∙ x.based;
      same = λ q.
          ap (λ a. live q a (y.pre ++ (free_block y.size ∷ y.post))) (sym x.based)
          ∙ y.same q
          ∙ ap (λ a. live q a (x.pre ++ (free_block x.size ∷ x.post))) x.based
          ∙ x.same q
          ∙ live-unmarked h pre post n v q;
    })

-- kh_free of a pointer in use on a well-formed heap returns; the heap stays well-formed, the pointer is
-- out of use and every other one is as before, with the same size. A well-formed heap may lie anywhere
-- up to an end below 2 ^ 64.
pub kh_free-Freed :
    (h : Heap) (bs : List Block) (p n : ℕ)
    → IsValid h bs
    → live p h.base_addr bs ≡ some n
    → Freed h bs p (kh_free p h)
kh_free-Freed h bs p n v e =
    let (pre, post, f, g) = find_live p n h.base_addr bs e in
    subst (λ x. Freed h bs x (kh_free x h)) g
      (subst
        (λ xs. Freed h xs (after h.base_addr pre + 16) (kh_free (after h.base_addr pre + 16) h))
        (sym f) (freed_at h pre post n (subst (IsValid h) f v)))

live_from :
    (p n a : ℕ) (bs : List Block) → live p a bs ≡ some n → (a + 16 ≤ p) × (p + n + 16 ≤ after a bs)
live_from p n a [] e = absurd (ground arith)
live_from p n a (b ∷ bs) e = elim (Bool-cases (b.used && (a + 16 == p))) [
  | inl t ↦
      let f : some b.size ≡ some n = rw t at e in
      let s : b.size ≡ n = ground arith in
      (ground arith, ground (arith, after_le (a + 32 + b.size) bs))
  | inr t ↦ let r = live_from p n (a + 32 + b.size) bs (rw t at e) in (omega arith, r.1)
]

-- Two pointers in use at a time lead to blocks that do not overlap: between them lie the tail of the one
-- and the header of the other.
pub live-apart :
    (a : ℕ) (bs : List Block) (p n q k : ℕ)
    → live p a bs ≡ some n
    → live q a bs ≡ some k
    → p < q
    → p + n + 32 ≤ q
live-apart a [] p n q k e f l = absurd (ground arith)
live-apart a (b ∷ bs) p n q k e f l = elim (Bool-cases (b.used && (a + 16 == p))) [
  | inl t ↦
      let g : some b.size ≡ some n = rw t at e in
      let s : b.size ≡ n = ground arith in
      let u : (b.used && (a + 16 == q)) ≡ false = ground arith in
      let r = live_from q k (a + 32 + b.size) bs (rw u at f) in ground arith
  | inr t ↦ elim (Bool-cases (b.used && (a + 16 == q))) [
    | inl u ↦ let r = live_from p n (a + 32 + b.size) bs (rw t at e) in absurd (ground arith)
    | inr u ↦ live-apart (a + 32 + b.size) bs p n q k (rw t at e) (rw u at f) l
  ]
]
