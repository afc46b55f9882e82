-- ===== src/Mmap/Area.antt =====
-- Tables of regions in order, and the addresses that they cover.
use pml.Common.{
  ℕ, ◌+◌, ◌≤◌, ◌<◌, ◌≡◌, refl, ap, Bool, true, false, ◌&&◌, ◌||◌, List, [], ◌∷◌, ◌++◌, arith, ltb,
  leb, if◌then◌else◌, inl, inr, Bool-cases,
}
use pml.Mmap.{Region}

-- The regions are not empty and stand one behind the other, from an address up to another.
abbrev pub Row : ℕ → List Region → ℕ → Type 0
Row a [] b = a ≤ b
Row a (r ∷ rs) b = (a ≤ r.base) × (0 < r.len) × Row (r.base + r.len) rs b

-- Some region holds the address.
abbrev pub covers : ℕ → List Region → Bool
covers a [] = false
covers a (r ∷ rs) = (leb r.base a && ltb a (r.base + r.len)) || covers a rs

pub Row_le : (a b : ℕ) (rs : List Region) → Row a rs b → a ≤ b
Row_le a b [] l = l
Row_le a b (r ∷ rs) (l, p, w) = omega (arith, l, Row_le (r.base + r.len) b rs w)

pub Row_from : (a b c : ℕ) (rs : List Region) → Row a rs b → c ≤ a → Row c rs b
Row_from a b c [] l m = omega arith
Row_from a b c (r ∷ rs) (l, p, w) m = (omega arith, p, w)

pub Row-append : (a b c : ℕ) (xs ys : List Region) → Row a xs b → Row b ys c → Row a (xs ++ ys) c
Row-append a b c [] ys l w = Row_from b c a ys w l
Row-append a b c (x ∷ xs) ys (l, p, v) w = (l, p, Row-append (x.base + x.len) b c xs ys v w)

-- a region within a row
pub Row_parts :
    (a b : ℕ) (xs : List Region) (r : Region) (ys : List Region)
    → Row a (xs ++ (r ∷ ys)) b
    → Row a xs r.base × (0 < r.len) × Row (r.base + r.len) ys b
Row_parts a b [] r ys (l, p, w) = (l, p, w)
Row_parts a b (x ∷ xs) r ys (l, p, w) =
    let (v, q, u) = Row_parts (x.base + x.len) b xs r ys w in ((l, p, v), q, u)

pub covers-append :
    (a : ℕ) (xs ys : List Region) → covers a (xs ++ ys) ≡ (covers a xs || covers a ys)
covers-append a [] ys = refl
covers-append a (x ∷ xs) ys = ground (arith, covers-append a xs ys)

pub covers_under : (a lo hi : ℕ) (rs : List Region) → Row lo rs hi → a < lo → covers a rs ≡ false
covers_under a lo hi [] w l = refl
covers_under a lo hi (r ∷ rs) (m, p, w) l =
    ground (arith, covers_under a (r.base + r.len) hi rs w (omega arith))

pub covers_over : (a lo hi : ℕ) (rs : List Region) → Row lo rs hi → hi ≤ a → covers a rs ≡ false
covers_over a lo hi [] w l = refl
covers_over a lo hi (r ∷ rs) (m, p, w) l =
    let z = Row_le (r.base + r.len) hi rs w in
    ground (arith, covers_over a (r.base + r.len) hi rs w l)

-- the regions that start at an address or later
abbrev pub starting : ℕ → List Region → List Region
starting p [] = []
starting p (r ∷ rs) = if leb p r.base then r ∷ starting p rs else starting p rs

pub starting-append :
    (p : ℕ) (xs ys : List Region) → starting p (xs ++ ys) ≡ starting p xs ++ starting p ys
starting-append p [] ys = refl
starting-append p (x ∷ xs) ys = elim (Bool-cases (leb p x.base)) [
  | inl t ↦ rw t (ap (λ l. x ∷ l) (starting-append p xs ys))
  | inr t ↦ rw t (starting-append p xs ys)
]

pub starting_over : (p a b : ℕ) (rs : List Region) → Row a rs b → b ≤ p → starting p rs ≡ []
starting_over p a b [] w l = refl
starting_over p a b (r ∷ rs) (m, q, w) l =
    let z = Row_le (r.base + r.len) b rs w in
    let t : leb p r.base ≡ false = ground arith in rw t (starting_over p (r.base + r.len) b rs w l)

pub starting_under : (p b : ℕ) (rs : List Region) → Row p rs b → starting p rs ≡ rs
starting_under p b [] w = refl
starting_under p b (r ∷ rs) (m, q, w) =
    let t : leb p r.base ≡ true = ground arith in
    rw t
      (ap (λ l. r ∷ l) (starting_under p b rs (Row_from (r.base + r.len) b p rs w (omega arith))))
