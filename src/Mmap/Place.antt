-- ===== src/Mmap/Place.antt =====
-- Where `sys_mmap` puts a region.
use pml.Common.{
  ℕ, suc, ◌+◌, ◌-◌, ◌%◌, ◌^◌, ◌≤◌, ◌<◌, ◌≡◌, refl, ap, sym, Option, none, some, List, [], ◌∷◌, ◌++◌,
  arith, leb, inl, inr, Bool-cases, length,
}
use mathlib.Core.Path.{subst}
use pml.Mmap.{Region, find_region_before_equal, place_after, place_from, place, no_region, end_of}
use pml.Mmap.Area.{Row, Row_le, Row-append, Row_parts}
use pml.Mmap.Find.{
  Found, absent, present, find_region_before_equal-Found, get_at, drop_at, append_one,
}

-- A place in the table and an address: there is room for `len` bytes between the regions around.
pub data Gap (len hi : ℕ) (t : List Region) : ℕ × ℕ → Type 0 where
  gap :
      (b : ℕ) (front back : List Region)
      → t ≡ front ++ back
      → b ≤ 2 ^ 63
      → Row 0 front b
      → (b + len ≤ hi → Row (b + len) back hi)
      → Gap len hi t (b, length front)

-- one region more in front
length_one : (xs : List Region) (r : Region) → length (xs ++ (r ∷ [])) ≡ suc (length xs)
length_one [] r = refl
length_one (x ∷ xs) r = ap suc (length_one xs r)

Gap-behind :
    (len hi : ℕ) (front : List Region) (r : Region) (back : List Region)
    → Row 0 (front ++ (r ∷ back)) hi
    → hi ≤ 2 ^ 63
    → (r.base + r.len + len ≤ hi → Row (r.base + r.len + len) back hi)
    → Gap len hi (front ++ (r ∷ back)) (r.base + r.len, suc (length front))
Gap-behind len hi front r back w h f =
    let (u, p, z) = Row_parts 0 hi front r back w in
    let y = Row_le (r.base + r.len) hi back z in
    subst (λ (i : ℕ). Gap len hi (front ++ (r ∷ back)) (r.base + r.len, i)) (length_one front r)
      (gap (r.base + r.len) (front ++ (r ∷ [])) back (sym (append_one front r back)) (omega arith)
        (Row-append 0 r.base (r.base + r.len) front (r ∷ []) u (omega arith, p, omega arith)) f)

module _ (len hi : ℕ) (h : hi ≤ 2 ^ 63) where
  place_after-Gap :
      (front : List Region) (r : Region) (back : List Region)
      → Row 0 (front ++ (r ∷ back)) hi
      → Gap len hi (front ++ (r ∷ back)) (place_after len (length front) r back)
  unfolding place_after
  place_after-Gap front r [] w =
      let (u, p, y) = Row_parts 0 hi front r [] w in
      let e : end_of r.base r.len ≡ r.base + r.len = omega arith in
      rw e (Gap-behind len hi front r [] w h (λ l. l))
  place_after-Gap front r (next ∷ rs) w =
      let (u, p, (l, q, z)) = Row_parts 0 hi front r (next ∷ rs) w in
      let y = Row_le (next.base + next.len) hi rs z in
      let e : end_of r.base r.len ≡ r.base + r.len = omega arith in
      let f : (next.base + 2 ^ 64 - (r.base + r.len)) % 2 ^ 64 ≡ next.base - (r.base + r.len) =
        omega arith in
      elim (Bool-cases (leb len (next.base - (r.base + r.len)))) [
        | inl t ↦
            rw (e, f, t) (Gap-behind len hi front r (next ∷ rs) w h (λ k. (ground arith, q, z)))
        | inr t ↦
            rw (e, f, t)
              (subst
                (λ (i : ℕ). Gap len hi (front ++ (r ∷ (next ∷ rs))) (place_after len i next rs))
                (length_one front r)
                (subst (λ s. Gap len hi s (place_after len (length (front ++ (r ∷ []))) next rs))
                  (append_one front r (next ∷ rs))
                  (place_after-Gap (front ++ (r ∷ [])) next rs
                    (subst (λ s. Row 0 s hi) (sym (append_one front r (next ∷ rs))) w))))
      ]

  place_from-Gap :
      (base : ℕ) (t : List Region) (o : Option ℕ)
      → Row 0 t hi
      → base ≤ 2 ^ 63
      → (o ≡ none → base + len ≤ hi → Row (base + len) t hi)
      → Found (base + 1) hi 0 t o
      → Gap len hi t (place_from base len o t)
  unfolding place_from
  place_from-Gap base t _ w l room (absent v) = gap base [] t refl l (omega arith) (room refl)
  place_from-Gap base t _ w l room (present front r back e m v) =
      let z : 0 + length front ≡ length front = omega arith in
      subst (λ s. Gap len hi s (place_from base len (some (0 + length front)) s)) (sym e)
        (subst
          (λ (i : ℕ).
            Gap len hi (front ++ (r ∷ back)) (place_from base len (some i) (front ++ (r ∷ back))))
          (sym z)
          (rw (get_at front r back no_region, drop_at front r back)
            (place_after-Gap front r back (subst (λ s. Row 0 s hi) e w))))

  -- sys_mmap without MAP_FIXED finds room: the regions in front end at or below the address, and those
  -- behind start behind the new one.
  pub place-Gap :
      (base : ℕ) (t : List Region)
      → Row 0 t hi
      → base < hi
      → (find_region_before_equal base 0 t ≡ none → base + len ≤ hi → Row (base + len) t hi)
      → Gap len hi t (place base len t)
  unfolding place
  place-Gap base t w l room =
      place_from-Gap base t (find_region_before_equal base 0 t) w (omega arith) room
        (find_region_before_equal-Found base 0 hi 0 t w l)
