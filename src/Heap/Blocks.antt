-- ===== src/Heap/Blocks.antt =====
-- A heap as the list of its blocks: what the headers and tails say, and which pointers are in use.
use pml.Common.{
  ℕ, ◌+◌, ◌%◌, ◌^◌, ◌≤◌, ◌<◌, ◌≡◌, refl, ap, sym, ◌∙◌, Bool, ◌&&◌, Option, none, some, List, [],
  ◌∷◌, ◌++◌, arith, ◌==◌, if◌then◌else◌,
}
use mathlib.Core.Path.{subst}
use pml.Heap.{Heap, Header, Tail, header_magic, tail_magic}

pub record Block : Type 0 where
  pub used : Bool
  pub size : ℕ

abbrev pub header_of : Block → Header
header_of b = record { magic = header_magic; flags = if b.used then 1 else 0; size = b.size }

-- The block stands at an address: its header and its tail are there.
pub record Stands (h : Heap) (a : ℕ) (b : Block) : Type 0 where
  pub head : h.headers a ≡ header_of b
  pub magic : (h.tails (a + 16 + b.size)).magic ≡ tail_magic
  pub owner : (h.tails (a + 16 + b.size)).header ≡ a
  pub aligned : b.size % 16 ≡ 0

-- the address behind some blocks
abbrev pub after : ℕ → List Block → ℕ
after a [] = a
after a (b ∷ bs) = after (a + 32 + b.size) bs

-- The blocks stand one behind the other.
abbrev pub Row : Heap → ℕ → List Block → Type 0
Row h a [] = Unit
Row h a (b ∷ bs) = Stands h a b × Row h (a + 32 + b.size) bs

pub record IsValid (h : Heap) (bs : List Block) : Type 0 where
  pub row : Row h h.base_addr bs
  pub ends : after h.base_addr bs ≡ h.end_addr
  pub base : h.base_addr % 16 ≡ 0
  pub positive : 16 ≤ h.base_addr
  pub small : h.end_addr < 2 ^ 64

-- The size of the block in use that a pointer leads to.
abbrev pub live : (q a : ℕ) → List Block → Option ℕ
live q a [] = none
live q a (b ∷ bs) = if b.used && (a + 16 == q) then some b.size else live q (a + 32 + b.size) bs

pub after_le : (a : ℕ) (bs : List Block) → a ≤ after a bs
after_le a [] = omega arith
after_le a (b ∷ bs) = omega (arith, after_le (a + 32 + b.size) bs)

pub after-append : (a : ℕ) (xs ys : List Block) → after a (xs ++ ys) ≡ after (after a xs) ys
after-append a [] ys = refl
after-append a (x ∷ xs) ys = after-append (a + 32 + x.size) xs ys

pub after_aligned :
    (h : Heap) (a : ℕ) (bs : List Block) → Row h a bs → a % 16 ≡ 0 → after a bs % 16 ≡ 0
after_aligned h a [] r e = e
after_aligned h a (b ∷ bs) (s, r) e =
    after_aligned h (a + 32 + b.size) bs r (omega (arith, s.aligned))

pub Row-append :
    (h : Heap) (a : ℕ) (xs ys : List Block)
    → Row h a xs
    → Row h (after a xs) ys
    → Row h a (xs ++ ys)
Row-append h a [] ys r s = s
Row-append h a (x ∷ xs) ys (p, r) s = (p, Row-append h (a + 32 + x.size) xs ys r s)

pub Row-parts :
    (h : Heap) (a : ℕ) (xs ys : List Block)
    → Row h a (xs ++ ys)
    → Row h a xs × Row h (after a xs) ys
Row-parts h a [] ys r = (tt, r)
Row-parts h a (x ∷ xs) ys (p, r) = let (s, t) = Row-parts h (a + 32 + x.size) xs ys r in ((p, s), t)

-- Two heaps with the same headers and tails from `lo` on, up to `hi`.
abbrev pub Alike : (g h : Heap) (lo hi : ℕ) → Type 0
Alike g h lo hi = (i : ℕ) → lo ≤ i → i < hi → (h.headers i ≡ g.headers i) × (h.tails i ≡ g.tails i)

pub Row-Alike :
    (g h : Heap) (a : ℕ) (bs : List Block) → Alike g h a (after a bs) → Row g a bs → Row h a bs
Row-Alike g h a [] e r = tt
Row-Alike g h a (b ∷ bs) e (s, r) =
    let l = after_le (a + 32 + b.size) bs in
    let (p, _) = e a (omega arith) (omega arith) in
    let (_, t) = e (a + 16 + b.size) (omega arith) (omega arith) in
    (
      record {
        head = p ∙ s.head;
        magic = ap Tail.magic t ∙ s.magic;
        owner = ap Tail.header t ∙ s.owner;
        aligned = s.aligned;
      },
      Row-Alike g h (a + 32 + b.size) bs (λ i u v. e i (omega arith) v) r,
    )

-- A pointer in front of the blocks leads to none of them.
pub live_before : (q a : ℕ) (bs : List Block) → q < a + 16 → live q a bs ≡ none
live_before q a [] h = refl
live_before q a (b ∷ bs) h = ground (arith, live_before q (a + 32 + b.size) bs)

-- Blocks in front may be left out of a comparison.
pub live_prefix :
    (q a : ℕ) (pre xs ys : List Block)
    → live q (after a pre) xs ≡ live q (after a pre) ys
    → live q a (pre ++ xs) ≡ live q a (pre ++ ys)
live_prefix q a [] xs ys e = e
live_prefix q a (b ∷ pre) xs ys e =
    ap (λ o. if b.used && (a + 16 == q) then some b.size else o)
      (live_prefix q (a + 32 + b.size) pre xs ys e)

-- The same when one pointer changes.
pub live_changed :
    (q a p : ℕ) (o : Option ℕ) (pre xs ys : List Block)
    → after a pre + 16 ≡ p
    → live q (after a pre) xs ≡ (if p == q then o else live q (after a pre) ys)
    → live q a (pre ++ xs) ≡ (if p == q then o else live q a (pre ++ ys))
live_changed q a p o [] xs ys f e = e
live_changed q a p o (b ∷ pre) xs ys f e =
    let l = after_le (a + 32 + b.size) pre in
    let ih = live_changed q (a + 32 + b.size) p o pre xs ys f e in ground arith

-- Some blocks give way to others that take the same room; the rest of the heap stays.
pub replace :
    (g h : Heap) (pre mid new post : List Block)
    → IsValid g (pre ++ (mid ++ post))
    → (h.base_addr ≡ g.base_addr) × (h.end_addr ≡ g.end_addr)
    → (let m = after g.base_addr pre in after m new ≡ after m mid)
    → (let m = after g.base_addr pre in
        Alike g h g.base_addr m × Row h m new × Alike g h (after m mid) g.end_addr)
    → IsValid h (pre ++ (new ++ post))
replace g h pre mid new post v (eb, ee) room (below, row, above) =
    let (r1, r2) = Row-parts g g.base_addr pre (mid ++ post) v.row in
    let (_, r3) = Row-parts g (after g.base_addr pre) mid post r2 in
    let behind : after (after (after g.base_addr pre) mid) post ≡ g.end_addr =
      sym (after-append (after g.base_addr pre) mid post)
      ∙ sym (after-append g.base_addr pre (mid ++ post))
      ∙ v.ends in
    let above' = subst (λ e. Alike g h (after (after g.base_addr pre) mid) e) (sym behind) above in
    let s3 = Row-Alike g h (after (after g.base_addr pre) mid) post above' r3 in
    let s3' = subst (λ a. Row h a post) (sym room) s3 in
    let s1 = Row-Alike g h g.base_addr pre below r1 in
    let all =
      Row-append h g.base_addr pre (new ++ post) s1
        (Row-append h (after g.base_addr pre) new post row s3') in
    record {
      row = subst (λ a. Row h a (pre ++ (new ++ post))) (sym eb) all;
      ends =
          subst (λ a. after a (pre ++ (new ++ post)) ≡ h.end_addr) (sym eb)
            (after-append g.base_addr pre (new ++ post)
              ∙ after-append (after g.base_addr pre) new post
              ∙ ap (λ a. after a post) room
              ∙ behind
              ∙ sym ee);
      base = ap (λ a. a % 16) eb ∙ v.base;
      positive = subst (λ a. 16 ≤ a) (sym eb) v.positive;
      small = subst (λ a. a < 2 ^ 64) (sym ee) v.small;
    }

-- the facts on a block with others around it
pub record Around (h : Heap) (pre : List Block) (b : Block) (post : List Block) : Type 0 where
  pub at : ℕ
  pub place : at ≡ after h.base_addr pre
  pub from : h.base_addr ≤ at
  pub to : at + 32 + b.size ≤ h.end_addr
  pub aligned : at % 16 ≡ 0
  pub stands : Stands h at b
  pub behind : Row h (at + 32 + b.size) post
  pub ends : after (at + 32 + b.size) post ≡ h.end_addr

pub IsValid-Around :
    (h : Heap) (pre : List Block) (b : Block) (post : List Block)
    → IsValid h (pre ++ (b ∷ post))
    → Around h pre b post
IsValid-Around h pre b post v =
    let (r1, r2) = Row-parts h h.base_addr pre (b ∷ post) v.row in
    let e = sym (after-append h.base_addr pre (b ∷ post)) ∙ v.ends in
    record {
      at = after h.base_addr pre;
      place = refl;
      from = after_le h.base_addr pre;
      to = omega (arith, after_le (after h.base_addr pre + 32 + b.size) post, e);
      aligned = after_aligned h h.base_addr pre r1 v.base;
      stands = r2.0;
      behind = r2.1;
      ends = e;
    }

-- A pointer behind some blocks leads to none of them.
pub live_behind :
    (q a : ℕ) (pre xs : List Block)
    → after a pre + 16 ≤ q
    → live q a (pre ++ xs) ≡ live q (after a pre) xs
live_behind q a [] xs h = refl
live_behind q a (b ∷ pre) xs h =
    let l = after_le (a + 32 + b.size) pre in
    ground (arith, live_behind q (a + 32 + b.size) pre xs h)
