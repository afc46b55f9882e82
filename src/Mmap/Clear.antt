-- ===== src/Mmap/Clear.antt =====
-- What `clear_mappings` leaves of a table.
use pml.Common.{
  ℕ, ◌+◌, ◌-◌, ◌%◌, ◌^◌, ◌≤◌, ◌<◌, ◌≡◌, refl, sym, ◌∙◌, Bool, true, false, ◌&&◌, ◌||◌, Option, some,
  List, [], ◌∷◌, ◌++◌, arith, ltb, leb, inl, inr, Bool-cases, length, if◌then◌else◌,
}
use mathlib.Core.Path.{subst}
use pml.Mmap.{
  Region, Machine, find_region_before, unmap_pages, truncate, clear_rest, clear_behind,
  clear_mappings, sync_mappings, release, no_region, end_of,
}
use pml.Mmap.Area.{
  Row, Row_le, Row_from, Row-append, Row_parts, covers, covers-append, covers_under, covers_over,
  starting, starting-append, starting_over, starting_under,
}
use pml.Mmap.Find.{
  Found, absent, present, find_region_before-Found, get_at, set_at, take_at, drop_at, append_one,
}

-- the outcome of the loop: the regions left stand in order, and with success they are what was behind `e`
record Rest {M : Type 0} (e lo hi : ℕ) (rs : List Region) (x : Bool × List Region × M)
    : Type 0 where
  pub row : Row lo x.1 hi
  pub left : x.0 ≡ true → (a : ℕ) → covers a x.1 ≡ (leb e a && covers a rs)

module _ {M : Type 0} (k : Machine M) (ptr len : ℕ) (small : ptr + len ≤ 2 ^ 63) where
  clear_rest-Rest :
      (lo hi : ℕ) (rs : List Region) (m : M)
      → Row lo rs hi
      → hi ≤ 2 ^ 63
      → Rest (ptr + len) lo hi rs (clear_rest k ptr len rs m)
  unfolding clear_rest
  clear_rest-Rest lo hi [] m w h = record { row = w; left = λ g a. ground arith }
  clear_rest-Rest lo hi (r ∷ rs) m (l, p, w) h =
      let z = Row_le (r.base + r.len) hi rs w in
      let e : end_of ptr len ≡ ptr + len = omega arith in
      let f : end_of r.base r.len ≡ r.base + r.len = omega arith in
      elim (Bool-cases (leb (r.base + r.len) (ptr + len))) [
        | inl t ↦
            elim (Bool-cases
              (unmap_pages k (r.base + r.len - r.base) r.base (r.base + r.len) m).0) [
                | inl g ↦
                    let x =
                      clear_rest-Rest (r.base + r.len) hi rs
                        (release k r
                          (unmap_pages k (r.base + r.len - r.base) r.base (r.base + r.len) m).1)
                        w h in
                    rw (e, f, t, g)
                      (record {
                        row = Row_from (r.base + r.len) hi lo _ x.row (omega arith);
                        left = λ q a. ground (arith, x.left q a);
                      })
                | inr g ↦
                    rw (e, f, t, g) (record { row = (l, p, w); left = λ q. absurd (ground arith) })
              ]
        | inr t ↦ elim (Bool-cases (ltb r.base (ptr + len))) [
          | inl u ↦ elim (Bool-cases (unmap_pages k (ptr + len - r.base) r.base (ptr + len) m).0) [
            | inl g ↦
                let x =
                  clear_rest-Rest (r.base + r.len) hi rs
                    (unmap_pages k (ptr + len - r.base) r.base (ptr + len) m).1 w h in
                let size : (r.len + 2 ^ 64 - (ptr + len + 2 ^ 64 - r.base) % 2 ^ 64) % 2 ^ 64
                    ≡ r.base + r.len - (ptr + len) =
                  ground arith in
                let last : r.base + r.len ≡ ptr + len + (r.base + r.len - (ptr + len)) =
                  ground arith in
                rw (e, f, t, u, g, size)
                  (record {
                    row = (
                      ground arith,
                      ground arith,
                      subst
                          (λ b.
                            Row b
                              (clear_rest k ptr len rs
                                (unmap_pages k (ptr + len - r.base) r.base (ptr + len) m).1).1
                              hi)
                          last x.row,
                    );
                    left = λ q a. ground (arith, x.left q a);
                  })
            | inr g ↦
                rw (e, f, t, u, g) (record { row = (l, p, w); left = λ q. absurd (ground arith) })
          ]
          | inr u ↦
              rw (e, f, t, u)
                (record {
                  row = (l, p, w);
                  left = λ q a. ground (arith, covers_under a (r.base + r.len) hi rs w);
                })
        ]
      ]

-- What `clear_mappings` leaves of the table `t`: regions in order. With success they are those below
-- `ptr`, and behind the area those of the regions that start at `ptr` or later.
pub record Clears {M : Type 0} (ptr e lo hi : ℕ) (t : List Region) (x : Bool × List Region × M)
    : Type 0 where
  pub row : Row lo x.1 hi
  pub left :
      x.0 ≡ true
      → (a : ℕ)
      → covers a x.1 ≡ ((ltb a ptr && covers a t) || (leb e a && covers a (starting ptr t)))

module _ {M : Type 0} (k : Machine M) (ptr len lo hi : ℕ) (front : List Region) (r : Region)
    (back : List Region) (w : Row lo (front ++ (r ∷ back)) hi) (l : r.base < ptr)
    (v : Row ptr back hi) where
  -- the last region below the address, without what is behind it
  kept : Region
  kept = if ltb ptr (r.base + r.len) then record r { len = ptr - r.base } else r

  starting_back : starting ptr (front ++ (r ∷ back)) ≡ back
  starting_back =
      let (u, p, y) = Row_parts lo hi front r back w in
      let t : leb ptr r.base ≡ false = ground arith in
      starting-append ptr front (r ∷ back)
      ∙ rw (t, starting_over ptr lo r.base front u (omega arith)) (starting_under ptr hi back v)

  kept-Row : (rs : List Region) → Row ptr rs hi → Row lo ((front ++ (kept ∷ [])) ++ rs) hi
  unfolding kept
  kept-Row rs z =
      let (u, p, y) = Row_parts lo hi front r back w in
      Row-append lo ptr hi (front ++ (kept ∷ [])) rs
        (Row-append lo r.base ptr front (kept ∷ []) u
          (elim (Bool-cases (ltb ptr (r.base + r.len))) [
            | inl t ↦ rw t (omega arith, ground arith, ground arith)
            | inr t ↦ rw t (omega arith, p, ground arith)
          ]))
        z

  covers-kept : (a : ℕ) → covers a (kept ∷ []) ≡ (ltb a ptr && covers a (r ∷ []))
  unfolding kept
  covers-kept a = elim (Bool-cases (ltb ptr (r.base + r.len))) [
    | inl t ↦ rw t (ground arith)
    | inr t ↦ rw t (ground arith)
  ]

  kept-Clears :
      (x : Bool × List Region × M)
      → Rest (ptr + len) ptr hi back x
      → Clears ptr (ptr + len) lo hi (front ++ (r ∷ back)) (x.0, (front ++ (kept ∷ [])) ++ x.1, x.2)
  kept-Clears x y = record {
    row = kept-Row x.1 y.row;
    left = λ q a.
        let (u, p, z) = Row_parts lo hi front r back w in
        covers-append a (front ++ (kept ∷ [])) x.1
        ∙ rw
            (
              covers-append a front (kept ∷ []),
              starting_back,
              covers-append a front (r ∷ back),
              y.left q a,
            )
            (elim (Bool-cases (ltb a ptr)) [
              | inl t ↦ ground (arith, covers-kept a, covers_under a ptr hi back v)
              | inr t ↦ ground (arith, covers-kept a, covers_over a lo r.base front u)
            ]);
  }

  -- how `truncate` leaves the table
  truncate-kept :
      (m : M)
      → hi ≤ 2 ^ 63
      → (g : Bool) × (n : M) × (truncate k ptr (some (length front)) (front ++ (r ∷ back)) m
          ≡ (g, front ++ (kept ∷ back), n))
  unfolding truncate kept
  truncate-kept m h =
      let (u, p, z) = Row_parts lo hi front r back w in
      let y = Row_le (r.base + r.len) hi back z in
      let f : end_of r.base r.len ≡ r.base + r.len = omega arith in
      let from : ℕ = end_of r.base (ptr - r.base) in
      let x : Bool × M = unmap_pages k (ptr - from) from ptr m in
      rw (get_at front r back no_region, set_at front r back (record r { len = ptr - r.base }), f)
        (elim (Bool-cases (ltb ptr (r.base + r.len))) [
          | inl t ↦ rw t (x.0, x.1, refl)
          | inr t ↦ rw t (true, m, refl)
        ])

  behind-Clears :
      (small : ptr + len ≤ 2 ^ 63) (h : hi ≤ 2 ^ 63) (g : Bool) (m : M)
      → Clears ptr
          (ptr + len)
          lo
          hi
          (front ++ (r ∷ back))
          (clear_behind k ptr len (some (length front)) (g, front ++ (kept ∷ back), m))
  unfolding clear_behind
  behind-Clears small h false m = record {
    row = rw (← append_one front kept back) (kept-Row back v);
    left = λ q. absurd (ground arith);
  }
  behind-Clears small h true m =
      rw (take_at front kept back, drop_at front kept back)
        (kept-Clears (clear_rest k ptr len back m)
          (clear_rest-Rest k ptr len small ptr hi back m v h))

module _ {M : Type 0} (k : Machine M) (ptr len lo hi : ℕ) (t : List Region) (w : Row lo t hi)
    (above : lo ≤ ptr) (small : ptr + len ≤ 2 ^ 63) (h : hi ≤ 2 ^ 63) where
  Found-Clears :
      (o : Option ℕ)
      → Found ptr hi 0 t o
      → (m : M) → Clears ptr (ptr + len) lo hi t (clear_behind k ptr len o (truncate k ptr o t m))
  unfolding clear_behind truncate
  Found-Clears _ (absent v) m =
      let x = clear_rest-Rest k ptr len small ptr hi t m v h in
      record {
        row = Row_from ptr hi lo (clear_rest k ptr len t m).1 x.row above;
        left = λ q a.
            let s = starting_under ptr hi t v in
            x.left q a
            ∙ rw s (elim (Bool-cases (ltb a ptr)) [
              | inl c ↦ ground (arith, covers_under a ptr hi t v)
              | inr c ↦ ground arith
            ]);
      }
  Found-Clears _ (present front r back e l v) m =
      let y = subst (λ s. Row lo s hi) e w in
      let (g, n, q) = truncate-kept k ptr len lo hi front r back y l v m h in
      let z : 0 + length front ≡ length front = omega arith in
      subst
        (λ s. Clears ptr (ptr + len) lo hi s (
          clear_behind k ptr len (some (0 + length front))
            (truncate k ptr (some (0 + length front)) s m)))
        (sym e)
        (subst
          (λ (i : ℕ).
            Clears ptr (ptr + len) lo hi (front ++ (r ∷ back))
              (clear_behind k ptr len (some i) (truncate k ptr (some i) (front ++ (r ∷ back)) m)))
          (sym z)
          (subst
            (λ x.
              Clears ptr (ptr + len) lo hi (front ++ (r ∷ back))
                (clear_behind k ptr len (some (length front)) x))
            (sym q) (behind-Clears k ptr len lo hi front r back y l v small h g n)))

-- clear_mappings of an area, on a table of regions in order, leaves regions in order. With success it
-- leaves what is below the area, and what is behind the area in a region that starts at its start or
-- later; the end of a region around the area is lost. The regions and the area end at or below 2 ^ 63.
pub clear_mappings-Clears :
    {M : Type 0} (k : Machine M) (ptr len hi : ℕ) (sync : Bool) (t : List Region) (m : M)
    → Row 0 t hi
    → ptr + len ≤ hi
    → hi ≤ 2 ^ 63
    → Clears ptr (ptr + len) 0 hi t (clear_mappings k ptr len sync t m)
unfolding clear_mappings
clear_mappings-Clears {M} k ptr len hi sync t m w l h =
    let x : Bool × M = if sync then sync_mappings k ptr len t m else (true, m) in
    elim (Bool-cases x.0) [
      | inl g ↦ rw g (
          Found-Clears k ptr len 0 hi t w (omega arith) (omega arith) h (find_region_before ptr 0 t)
            (find_region_before-Found ptr 0 hi 0 t w (omega arith)) x.1)
      | inr g ↦ rw g (record { row = w; left = λ q. absurd (ground arith) })
    ]
