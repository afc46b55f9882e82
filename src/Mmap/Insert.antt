-- ===== src/Mmap/Insert.antt =====
-- What `sys_mmap` does to a table.
use pml.Common.{
  ℕ, ◌+◌, ◌-◌, ◌^◌, ◌≤◌, ◌<◌, ◌≡◌, refl, sym, ◌∙◌, Bool, false, ◌&&◌, ◌||◌, Option, none, some,
  List, [], ◌∷◌, ◌++◌, arith, bit_and, ◌==◌, ltb, leb, inl, inr, Bool-cases, length, take, drop,
  if◌then◌else◌, take-append,
}
use mathlib.Core.Path.{subst}
use pml.Errno.{Errno, einval}
use pml.Heap.{align_up}
use pml.Mmap.{
  Region, OpenFile, Machine, Answer, given, refused, failed, find_region_before_equal, map_pages,
  protect_pages, fill, install, check, place, sys_mmap, unless_refused, end_of, page_size,
  user_mmap_base, user_mem_top,
}
use pml.Mmap.Area.{Row, Row-append, covers, covers-append, covers_over, covers_under}
use pml.Mmap.Place.{Gap, gap, place-Gap}

-- The outcomes of a call that adds a region of `len` bytes to the table. The region is where no other
-- was, the regions are in order, and they cover what they did and the new region. Or the call fails and
-- the table is as before.
pub data Mmaps {M : Type 0} (len : ℕ) (t : List Region) : Answer × List Region × M → Type 0 where
  mapped :
      (b : ℕ) (new : List Region) (m : M)
      → b + len < user_mem_top
      → Row 0 new user_mem_top
      → ((a : ℕ) → b ≤ a → a < b + len → covers a t ≡ false)
      → ((a : ℕ) → covers a new ≡ ((leb b a && ltb a (b + len)) || covers a t))
      → Mmaps len t (given b, new, m)
  no_errno : (m : M) → Mmaps len t (failed, t, m)
  errno : (e : Errno) (m : M) → Mmaps len t (refused e, t, m)

drop-append : (xs ys : List Region) → drop (length xs) (xs ++ ys) ≡ ys
drop-append [] ys = refl
drop-append (x ∷ xs) ys = drop-append xs ys

-- nothing in a row covers what lies between two parts of it
between :
    (a b e hi : ℕ) (front back : List Region)
    → Row 0 front b
    → Row e back hi
    → b ≤ a
    → a < e
    → covers a (front ++ back) ≡ false
between a b e hi front back u v l h =
    covers-append a front back
    ∙ ground (arith, covers_over a 0 b front u l, covers_under a e hi back v h)

covers_new :
    (a : ℕ) (front : List Region) (r : Region) (back : List Region)
    → covers a (front ++ (r ∷ back))
      ≡ ((leb r.base a && ltb a (r.base + r.len)) || covers a (front ++ back))
covers_new a front r back =
    covers-append a front (r ∷ back) ∙ rw (covers-append a front back) (ground arith)

module _ {M : Type 0} (k : Machine M) (bytes : ℕ) (r : Region) (m : M) (p : 0 < r.len)
    (small : r.len ≤ 2 ^ 62) where
  -- the table of a successful call
  inserted :
      (front back : List Region) (n : M)
      → r.base ≤ 2 ^ 63
      → Row 0 front r.base
      → (r.base + r.len ≤ user_mem_top → Row (r.base + r.len) back user_mem_top)
      → leb user_mem_top (end_of r.base r.len) ≡ false
      → Mmaps r.len (front ++ back) (given r.base, front ++ (r ∷ back), n)
  inserted front back n l u f c =
      let e : end_of r.base r.len ≡ r.base + r.len = omega arith in
      let q : r.base + r.len < user_mem_top = ground arith in
      let v = f (omega arith) in
      mapped r.base (front ++ (r ∷ back)) n q
        (Row-append 0 r.base user_mem_top front (r ∷ back) u (omega arith, p, v))
        (λ a. between a r.base (r.base + r.len) user_mem_top front back u v)
        (λ a. covers_new a front r back)

  placed :
      (t : List Region) (b : ℕ) (front back : List Region) (n : M)
      → t ≡ front ++ back
      → b ≤ 2 ^ 63
      → Row 0 front b
      → (b + r.len ≤ user_mem_top → Row (b + r.len) back user_mem_top)
      → r.base ≡ b
      → leb user_mem_top (end_of r.base r.len) ≡ false
      → Mmaps r.len t (given r.base, take (length front) t ++ (r ∷ drop (length front) t), n)
  placed t b front back n e l u f q c =
      subst
        (λ s. Mmaps r.len s (given r.base, take (length front) s ++ (r ∷ drop (length front) s), n))
        (sym e)
        (rw (take-append (length front) front back refl, drop-append front back)
          (inserted front back n (rw q l) (rw q u) (rw q f) c))

  install-Mmaps :
      (t : List Region) (y : ℕ × ℕ)
      → Gap r.len user_mem_top t y
      → r.base ≡ y.0
      → Mmaps r.len t (install k bytes r y.1 t m)
  unfolding install
  install-Mmaps t _ (gap b front back e l u f) q =
      let end : ℕ = end_of r.base r.len in
      let user : ℕ = if r.prot == 0 then 0 else 4 in
      let pflags : ℕ = if bit_and r.prot 2 == 0 then user else user + 2 in
      let pages : Bool × ℕ × M = map_pages k (end - r.base) r.base end 2 m in
      let filled : Bool × M = fill k bytes r pages.2 in
      let ready : Bool × M = protect_pages k (end - r.base) r.base end pflags filled.1 in
      let grown : Bool × M = k.realloc (length t + 1) ready.1 in
      elim (Bool-cases (leb user_mem_top end)) [
        | inl c ↦ rw c (errno einval m)
        | inr c ↦ elim (Bool-cases pages.0) [
          | inr x ↦ rw (c, x) (no_errno _)
          | inl x ↦ elim (Bool-cases filled.0) [
            | inr y ↦ rw (c, x, y) (no_errno _)
            | inl y ↦ elim (Bool-cases ready.0) [
              | inr z ↦ rw (c, x, y, z) (no_errno _)
              | inl z ↦ elim (Bool-cases grown.0) [
                | inr g ↦ rw (c, x, y, z, g) (no_errno _)
                | inl g ↦ rw (c, x, y, z, g) (placed t b front back _ e l u f q c)
              ]
            ]
          ]
        ]
      ]

unless_refused-Mmaps :
    {M : Type 0} (k : Machine M) (o : Option Errno) (t : List Region) (m : M) (len : ℕ)
    (x : Answer × List Region × M)
    → Mmaps len t x
    → Mmaps len t (unless_refused k o t m x)
unless_refused-Mmaps k none t m len x y = y
unless_refused-Mmaps k (some e) t m len x y = errno e m

-- sys_mmap without MAP_FIXED, on a table of regions in order below the top of the user's memory, either
-- adds a region where no other was, and the regions stay in order, or fails and leaves the table as it
-- was. The address is below the top, the length rounded up to pages is positive and at most 2 ^ 62, and
-- when no region starts at or below the address none starts in the bytes from it on.
pub sys_mmap-Mmaps :
    {M : Type 0} (k : Machine M) (addr len0 prot flags fd offset : ℕ) (t : List Region) (m : M)
    → let base = if addr == 0 then user_mmap_base else addr in
      let len = align_up len0 page_size in
      Row 0 t user_mem_top
      → bit_and flags 64 ≡ 0
      → base < user_mem_top
      → 0 < len
      → len ≤ 2 ^ 62
      → (find_region_before_equal base 0 t ≡ none
          → base + len ≤ user_mem_top
          → Row (base + len) t user_mem_top)
      → Mmaps len t (sys_mmap k addr len0 prot flags fd offset t m)
unfolding sys_mmap
sys_mmap-Mmaps k addr len0 prot flags fd offset t m w e l p small room =
    let base : ℕ = if addr == 0 then user_mmap_base else addr in
    let len : ℕ = align_up len0 page_size in
    let file : Option OpenFile = if bit_and flags 4 == 0 then k.file_fd fd m else none in
    let c = check file addr len0 prot flags offset in
    let g = place-Gap len user_mem_top (omega arith) base t w l room in
    unless_refused-Mmaps k c t m len _
      (rw e (install-Mmaps k len0 _ m p small t (place base len t) g refl))
