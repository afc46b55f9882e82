-- ===== src/Mmap/Find.antt =====
-- What the two searches of a table find.
use pml.Common.{
  ℕ, suc, ◌+◌, ◌≤◌, ◌<◌, ◌≡◌, refl, ap, Option, some, List, [], ◌∷◌, ◌++◌, arith, ltb, leb, inl,
  inr, Bool-cases, length, get_or, set, take, drop,
}
use mathlib.Core.Path.{subst}
use pml.Mmap.{Region, last_index, find_region_before, find_region_before_equal}
use pml.Mmap.Area.{Row}

-- The answer of a search from the index `i` on: the last region with a base below `p`, with those in
-- front of it and those behind it, which start at `p` or later; or there is none.
pub data Found (p hi i : ℕ) (t : List Region) : Option ℕ → Type 0 where
  absent : Row p t hi → Found p hi i t (last_index i)
  present :
      (front : List Region) (r : Region) (back : List Region)
      → t ≡ front ++ (r ∷ back)
      → r.base < p
      → Row p back hi
      → Found p hi i t (some (i + length front))

Found-next :
    (p hi i : ℕ) (r : Region) (rs : List Region) (o : Option ℕ)
    → r.base < p
    → Found p hi (suc i) rs o
    → Found p hi i (r ∷ rs) o
Found-next p hi i r rs _ l (absent w) =
    let e : i + 0 ≡ i = omega arith in
    subst (λ k. Found p hi i (r ∷ rs) (some k)) e (present [] r rs refl l w)
Found-next p hi i r rs _ l (present front x back e m w) =
    let f : i + suc (length front) ≡ suc i + length front = omega arith in
    subst (λ k. Found p hi i (r ∷ rs) (some k)) f
      (present (r ∷ front) x back (ap (λ l. r ∷ l) e) m w)

pub find_region_before-Found :
    (p lo hi i : ℕ) (t : List Region)
    → Row lo t hi
    → p ≤ hi
    → Found p hi i t (find_region_before p i t)
unfolding find_region_before
find_region_before-Found p lo hi i [] w l = absent l
find_region_before-Found p lo hi i (r ∷ rs) (m, q, w) l = elim (Bool-cases (leb p r.base)) [
  | inl t ↦ rw t (absent (ground arith, q, w))
  | inr f ↦ rw f (
      Found-next p hi i r rs _ (ground arith)
        (find_region_before-Found p (r.base + r.len) hi (suc i) rs w l))
]

pub find_region_before_equal-Found :
    (p lo hi i : ℕ) (t : List Region)
    → Row lo t hi
    → p < hi
    → Found (p + 1) hi i t (find_region_before_equal p i t)
unfolding find_region_before_equal
find_region_before_equal-Found p lo hi i [] w l = absent (omega arith)
find_region_before_equal-Found p lo hi i (r ∷ rs) (m, q, w) l = elim (Bool-cases (ltb p r.base)) [
  | inl t ↦ rw t (absent (ground arith, q, w))
  | inr f ↦ rw f (
      Found-next (p + 1) hi i r rs _ (ground arith)
        (find_region_before_equal-Found p (r.base + r.len) hi (suc i) rs w l))
]

-- lists at the place of an item
module _ (xs : List Region) (r : Region) (ys : List Region) where
  pub get_at : (d : Region) → get_or (xs ++ (r ∷ ys)) (length xs) d ≡ r
  get_at d = go xs
    where
      go : (l : List Region) → get_or (l ++ (r ∷ ys)) (length l) d ≡ r
      go [] = refl
      go (x ∷ l) = go l

  pub set_at : (v : Region) → set (xs ++ (r ∷ ys)) (length xs) v ≡ xs ++ (v ∷ ys)
  set_at v = go xs
    where
      go : (l : List Region) → set (l ++ (r ∷ ys)) (length l) v ≡ l ++ (v ∷ ys)
      go [] = refl
      go (x ∷ l) = ap (λ k. x ∷ k) (go l)

  pub take_at : take (suc (length xs)) (xs ++ (r ∷ ys)) ≡ xs ++ (r ∷ [])
  take_at = go xs
    where
      go : (l : List Region) → take (suc (length l)) (l ++ (r ∷ ys)) ≡ l ++ (r ∷ [])
      go [] = refl
      go (x ∷ l) = ap (λ k. x ∷ k) (go l)

  pub drop_at : drop (suc (length xs)) (xs ++ (r ∷ ys)) ≡ ys
  drop_at = go xs
    where
      go : (l : List Region) → drop (suc (length l)) (l ++ (r ∷ ys)) ≡ ys
      go [] = refl
      go (x ∷ l) = go l

pub append_one :
    (xs : List Region) (r : Region) (ys : List Region) → (xs ++ (r ∷ [])) ++ ys ≡ xs ++ (r ∷ ys)
append_one [] r ys = refl
append_one (x ∷ xs) r ys = ap (λ l. x ∷ l) (append_one xs r ys)
