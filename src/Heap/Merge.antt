-- ===== src/Heap/Merge.antt =====
-- The merges of a free block with the blocks around it keep the pointers in use.
use pml.Common.{
  ℕ, ◌+◌, ◌≤◌, ◌<◌, ◌≡◌, refl, ap, sym, ◌∙◌, Bool, true, false, List, [], ◌∷◌, ◌++◌, arith, ◌==◌,
  ltb, if◌then◌else◌, inl, inr, Bool-cases,
}
use mathlib.Core.Path.{subst}
use pml.Heap.{Heap, merge_back}
use pml.Heap.Blocks.{
  Block, header_of, Stands, after, after_le, IsValid, IsValid-Around, live, live_prefix,
}
use pml.Heap.Edit.{free_block, used_block, whole-IsValid}

-- Two free blocks, one behind the other, as one.
live-joined :
    (q m n k : ℕ) (post : List Block)
    → live q m (free_block (n + k + 32) ∷ post) ≡ live q m (free_block n ∷ (free_block k ∷ post))
live-joined q m n k post =
    let e : m + 32 + (n + k + 32) ≡ m + 32 + n + 32 + k = omega arith in rw e refl

-- What a merge leaves: a free block at the header `m`, with the same pointers in use as before.
pub record Merged (h : Heap) (bs : List Block) (m : ℕ) (g : Heap) : Type 0 where
  pub pre : List Block
  pub post : List Block
  pub size : ℕ
  pub valid : IsValid g (pre ++ (free_block size ∷ post))
  pub at : m ≡ after h.base_addr pre
  pub based : g.base_addr ≡ h.base_addr
  pub same : (q : ℕ) → live q h.base_addr (pre ++ (free_block size ∷ post)) ≡ live q h.base_addr bs

module _ (h : Heap) (pre post : List Block) (n k : ℕ)
    (v : IsValid h (pre ++ (free_block n ∷ (free_block k ∷ post)))) where
  -- Joining takes two writes.
  pub joined-Merged :
      (g : Heap)
      → let m = after h.base_addr pre in
        (g.base_addr ≡ h.base_addr) × (g.end_addr ≡ h.end_addr)
        → ((i : ℕ)
            → (g.headers i ≡ (if m == i then header_of (free_block (n + k + 32)) else h.headers i))
              × (g.tails i ≡ (
                  if m + 32 + n + 16 + k == i
                  then record (h.tails i) { header = m }
                  else h.tails i)))
        → Merged h (pre ++ (free_block n ∷ (free_block k ∷ post))) m g
  joined-Merged g bounds w =
      let m : ℕ = after h.base_addr pre in
      let a = IsValid-Around h pre (free_block n) (free_block k ∷ post) v in
      let s : Stands h m (free_block n) = subst (λ x. Stands h x (free_block n)) a.place a.stands in
      let t : Stands h (m + 32 + n) (free_block k) =
        subst (λ x. Stands h (x + 32 + n) (free_block k)) a.place a.behind.0 in
      let e : m + 16 + (n + k + 32) ≡ m + 32 + n + 16 + k = omega arith in
      let nal = s.aligned in
      let kal = t.aligned in
      record {
        pre = pre;
        post = post;
        size = n + k + 32;
        valid =
            whole-IsValid h g pre (free_block n ∷ (free_block k ∷ [])) post (n + k + 32) v bounds
              (omega arith) (rw e t.magic) (omega arith) (free_block (n + k + 32)) refl
              (λ i. ((w i).0, rw e (w i).1));
        at = refl;
        based = bounds.0;
        same = λ q. live_prefix q h.base_addr pre _ _ (live-joined q m n k post);
      }

pub unchanged :
    (h : Heap) (pre post : List Block) (n : ℕ)
    → IsValid h (pre ++ (free_block n ∷ post))
    → Merged h (pre ++ (free_block n ∷ post)) (after h.base_addr pre) h
unchanged h pre post n v = record {
  pre = pre;
  post = post;
  size = n;
  valid = v;
  at = refl;
  based = refl;
  same = λ q. refl;
}

-- a block by its mark
pub by_mark : (b : Block) (x : Bool) → b.used ≡ x → b ≡ record { used = x; size = b.size }
by_mark b x e = ap (λ (u : Bool). record b { used = u }) e

-- the facts on a header, by the block that stands there
module _ (h : Heap) (pre post : List Block) (b : Block) (v : IsValid h (pre ++ (b ∷ post))) where
  pub Stands-at : Stands h (after h.base_addr pre) b
  Stands-at = let a = IsValid-Around h pre b post v in subst (λ x. Stands h x b) a.place a.stands

merge_back_end :
    (h : Heap) (m n : ℕ)
    → h.headers m ≡ header_of (free_block n)
    → h.end_addr ≤ m + 32 + n
    → merge_back m h ≡ h
unfolding merge_back
merge_back_end h m n e l =
    let c : ltb (m + 32 + n) h.end_addr ≡ false = ground arith in rw (e, c) refl

merge_back_used :
    (h : Heap) (m n k : ℕ)
    → h.headers m ≡ header_of (free_block n)
    → h.headers (m + 32 + n) ≡ header_of (used_block k)
    → merge_back m h ≡ h
unfolding merge_back
merge_back_used h m n k e f = rw (e, f) (ground arith)

module _ (h : Heap) (m n k : ℕ) (e : h.headers m ≡ header_of (free_block n))
    (f : h.headers (m + 32 + n) ≡ header_of (free_block k)) (l : m + 32 + n < h.end_addr) where
  merge_back_free :
      ((merge_back m h).base_addr ≡ h.base_addr)
      × ((merge_back m h).end_addr ≡ h.end_addr)
      × ((i : ℕ)
          → ((merge_back m h).headers i
              ≡ (if m == i then header_of (free_block (n + k + 32)) else h.headers i))
            × ((merge_back m h).tails i ≡ (
                if m + 32 + n + 16 + k == i then record (h.tails i) { header = m } else h.tails i)))
  unfolding merge_back
  merge_back_free =
      let c : ltb (m + 32 + n) h.end_addr ≡ true = ground arith in
      let z : n + 32 + k ≡ n + k + 32 = omega arith in
      rw (e, f, c, z) (refl, refl, λ i. (ground arith, ground arith))

pub merge_back-Merged :
    (h : Heap) (pre post : List Block) (n : ℕ)
    → IsValid h (pre ++ (free_block n ∷ post))
    → Merged h
        (pre ++ (free_block n ∷ post))
        (after h.base_addr pre)
        (merge_back (after h.base_addr pre) h)
merge_back-Merged h pre [] n v =
    let a = IsValid-Around h pre (free_block n) [] v in
    let s = Stands-at h pre [] (free_block n) v in
    let e = merge_back_end h (after h.base_addr pre) n s.head (omega (arith, a.ends, a.place)) in
    subst (Merged h _ _) (sym e) (unchanged h pre [] n v)
merge_back-Merged h pre (c ∷ post) n v =
    let s = Stands-at h pre (c ∷ post) (free_block n) v in
    let a = IsValid-Around h pre (free_block n) (c ∷ post) v in
    let m : ℕ = after h.base_addr pre in
    let t : Stands h (m + 32 + n) c = subst (λ x. Stands h (x + 32 + n) c) a.place a.behind.0 in
    elim (Bool-cases c.used) [
      | inl u ↦
          let e = merge_back_used h m n c.size s.head (t.head ∙ ap header_of (by_mark c true u)) in
          subst (Merged h _ _) (sym e) (unchanged h pre (c ∷ post) n v)
      | inr u ↦
          let f = by_mark c false u in
          let w = subst (λ x. IsValid h (pre ++ (free_block n ∷ (x ∷ post)))) f v in
          let l : m + 32 + n < h.end_addr =
            omega (arith, a.ends, a.place, after_le (a.at + 32 + n + 32 + c.size) post) in
          let (x, y, z) = merge_back_free h m n c.size s.head (t.head ∙ ap header_of f) l in
          subst (λ x. Merged h (pre ++ (free_block n ∷ (x ∷ post))) m (merge_back m h)) (sym f)
            (joined-Merged h pre post n c.size w (merge_back m h) (x, y) z)
    ]
