-- ===== src/Pid/Alloc.antt =====
-- What the process ID allocator promises: the smallest unused ID, marked used, and that a freed ID
-- is handed out again until the bitmap has its full size.
use pml.Common.{
  ℕ, zero, suc, ◌+◌, ◌*◌, ◌≤◌, ◌<◌, ◌≡◌, refl, sym, ◌∙◌, ap, ◌≢◌, true, false, arith, ltb, ◌==◌,
  if◌then◌else◌, length,
}
use mathlib.Core.Path.{subst, subst₂}
use native.Mathlib.Decide.{dec_lt}
use pml.Pid.{
  Allocator, Outcome, pid, no_memory, exhausted, out_of_fuel, increment, size_limit, Round, stop,
  retry, round, search, rounds, alloc_pid,
}
use pml.Pid.Rounds.{
  used, IsValid, Allocated, Ended, took_one, starved, enlarged, at_limit, round-Ended,
}

-- What a later round finds is what an earlier one would have found.
earlier :
    {a c a' : Allocator} {n : ℕ}
    → ((j : ℕ) → used c j ≡ used a j)
    → Allocated c n a'
    → Allocated a n a'
earlier {n} same r = record {
  unused = sym (same _) ∙ r.unused;
  smallest = λ i l. sym (same i) ∙ r.smallest i l;
  marked = λ j. r.marked j ∙ ap (λ u. if n == j then true else u) (same j);
  inside = r.inside;
  valid = r.valid;
}

module _ (junk : ℕ) where
  -- the rest of the search after a round
  abbrev then_search : ℕ → Round → Outcome × Allocator
  then_search f (stop o a') = (o, a')
  then_search f (retry b' a') = search f junk b' a'

  search-step : (f b : ℕ) (a : Allocator) → search (suc f) junk b a ≡ then_search f (round junk b a)
  unfolding search
  search-step f b a = go (round junk b a)
    where
      go :
          (r : Round)
          → (elim r [ stop o a' ↦ (o, a') | retry b' a' ↦ search f junk b' a' ]) ≡ then_search f r
      go (stop o a') = refl
      go (retry b' a') = refl

  search-Allocated :
      (f b : ℕ) (a : Allocator) {n : ℕ} {a' : Allocator}
      → IsValid a
      → search f junk b a ≡ (pid n, a')
      → Allocated a n a'
  search-Allocated zero b a v h = unfold search in cc
  search-Allocated (suc f) b a {n} {a'} v h =
      go (λ b' c w q. search-Allocated f b' c w q) (round-Ended junk b a v)
        (sym (search-step f b a) ∙ h)
    where
      go :
          ((b' : ℕ) (c : Allocator)
            → IsValid c
            → search f junk b' c ≡ (pid n, a')
            → Allocated c n a')
          → {r : Round} → Ended junk b a r
          → then_search f r ≡ (pid n, a')
          → Allocated a n a'
      go rec (took_one {n = m} {a' = c} l e r) h =
          let p : m ≡ n = ground arith in
          let q : c ≡ a' = ground arith in subst₂ (λ x y. Allocated a x y) p q r
      go rec (starved e u g) h = ground arith
      go rec (enlarged {b'} {a' = c} e l u s same w) h = earlier same (rec b' c w h)
      go rec (at_limit l) h = ground arith

  search-ends :
      (f b : ℕ) (a : Allocator)
      → size_limit ≤ a.pid_bitmap_size + f * increment
      → IsValid a
      → (search (suc f) junk b a).0 ≢ out_of_fuel
  search-ends zero b a h v e =
      go (round-Ended junk b a v) (ap (λ p. p.0) (sym (search-step 0 b a)) ∙ e)
    where
      go : {r : Round} → Ended junk b a r → (then_search 0 r).0 ≢ out_of_fuel
      go (took_one l e r) q = cc
      go (starved e u g) q = cc
      go (enlarged e l u s same w) q = omega arith
      go (at_limit l) q = cc
  search-ends (suc f) b a h v e =
      go (λ b' c h' w. search-ends f b' c h' w) (round-Ended junk b a v)
        (ap (λ p. p.0) (sym (search-step (suc f) b a)) ∙ e)
    where
      go :
          ((b' : ℕ) (c : Allocator)
            → size_limit ≤ c.pid_bitmap_size + f * increment
            → IsValid c
            → (search (suc f) junk b' c).0 ≢ out_of_fuel)
          → {r : Round} → Ended junk b a r
          → (then_search (suc f) r).0 ≢ out_of_fuel
      go rec (took_one l e r) q = cc
      go rec (starved e u g) q = cc
      go rec (enlarged {b'} {a' = c} e l u s same w) q = rec b' c (omega arith) w q
      go rec (at_limit l) q = cc

  search-exhausted :
      (f b : ℕ) (a : Allocator) {a' : Allocator}
      → IsValid a
      → search f junk b a ≡ (exhausted, a')
      → IsValid a' × ((j : ℕ) → used a' j ≡ used a j)
  search-exhausted zero b a v h = unfold search in cc
  search-exhausted (suc f) b a {a'} v h =
      go (λ b' c w q. search-exhausted f b' c w q) (round-Ended junk b a v)
        (sym (search-step f b a) ∙ h)
    where
      go :
          ((b' : ℕ) (c : Allocator)
            → IsValid c
            → search f junk b' c ≡ (exhausted, a')
            → IsValid a' × ((j : ℕ) → used a' j ≡ used c j))
          → {r : Round} → Ended junk b a r
          → then_search f r ≡ (exhausted, a')
          → IsValid a' × ((j : ℕ) → used a' j ≡ used a j)
      go rec (took_one l e r) h = ground arith
      go rec (starved e u g) h = ground arith
      go rec (enlarged {b'} {a' = c} e l u s same w) h =
          let r = rec b' c w h in (r.0, λ j. r.1 j ∙ same j)
      go rec (at_limit l) h =
          let e : a ≡ a' = ground arith in
          subst (λ c. IsValid c × ((j : ℕ) → used c j ≡ used a j)) e (v, λ j. refl)

  search-no_memory :
      (f b : ℕ) (a : Allocator) {a' : Allocator}
      → IsValid a
      → search f junk b a ≡ (no_memory, a')
      → length a'.pid_bitmap + increment ≡ a'.pid_bitmap_size
  search-no_memory zero b a v h = unfold search in cc
  search-no_memory (suc f) b a {a'} v h =
      go (λ b' c w q. search-no_memory f b' c w q) (round-Ended junk b a v)
        (sym (search-step f b a) ∙ h)
    where
      go :
          ((b' : ℕ) (c : Allocator)
            → IsValid c
            → search f junk b' c ≡ (no_memory, a')
            → length a'.pid_bitmap + increment ≡ a'.pid_bitmap_size)
          → {r : Round} → Ended junk b a r
          → then_search f r ≡ (no_memory, a')
          → length a'.pid_bitmap + increment ≡ a'.pid_bitmap_size
      go rec (took_one l e r) h = ground arith
      go rec (starved {a' = c} e u g) h =
          let p : c ≡ a' = ground arith in
          subst (λ x. length x.pid_bitmap + increment ≡ x.pid_bitmap_size) p g
      go rec (enlarged {b'} {a' = c} e l u s same w) h = rec b' c w h
      go rec (at_limit l) h = ground arith

  -- `alloc_pid` that returns an ID returns the smallest one not in use, marks it used, changes no
  -- other, and keeps the invariant.
  pub alloc_pid-Allocated :
      (b : ℕ) {a a' : Allocator} {n : ℕ}
      → IsValid a
      → alloc_pid junk b a ≡ (pid n, a')
      → Allocated a n a'
  unfolding alloc_pid
  alloc_pid-Allocated b {a} v h = search-Allocated rounds b a v h

  -- The rounds of `alloc_pid` suffice from every valid state.
  pub alloc_pid_ends : (b : ℕ) {a : Allocator} → IsValid a → (alloc_pid junk b a).0 ≢ out_of_fuel
  unfolding alloc_pid
  alloc_pid_ends b {a} v = search-ends 32 b a (omega arith) v

  -- An unused ID within the bitmap is enough for an ID no larger, until the bitmap has its full size.
  pub alloc_pid-reuses :
      (b i : ℕ) {a : Allocator}
      → IsValid a
      → a.pid_bitmap_size < size_limit
      → i < a.pid_bitmap_size * 8
      → used a i ≡ false
      → (n : ℕ) × ((alloc_pid junk b a).0 ≡ pid n) × (n ≤ i)
  unfolding alloc_pid
  alloc_pid-reuses b i {a} v s l u = rw (search-step 32 b a) (go (round-Ended junk b a v))
    where
      go : {r : Round} → Ended junk b a r → (n : ℕ) × ((then_search 32 r).0 ≡ pid n) × (n ≤ i)
      go (took_one {n} q e r) = elim (dec_lt i n) [
        | yes p ↦ let f = r.smallest i p in cc (f, u)
        | no g ↦ (n, refl, omega arith)
      ]
      go (starved e all g) = let f = all i (omega arith) l in cc (f, u)
      go (enlarged e q all m same w) = let f = all i (omega arith) l in cc (f, u)
      go (at_limit q) = absurd (omega arith)

  -- Once the bitmap has its full size every call fails, whatever IDs were freed.
  pub alloc_pid-at_limit :
      (b : ℕ) (a : Allocator) → size_limit ≤ a.pid_bitmap_size → alloc_pid junk b a ≡ (exhausted, a)
  unfolding alloc_pid round
  alloc_pid-at_limit b a h =
      let e : ltb a.pid_bitmap_size size_limit ≡ false = ground arith in
      search-step 32 b a ∙ rw (e, round)

  -- A call that finds the bitmap exhausted leaves every ID as it was.
  pub alloc_pid_exhausted :
      (b : ℕ) {a a' : Allocator}
      → IsValid a
      → alloc_pid junk b a ≡ (exhausted, a')
      → IsValid a' × ((j : ℕ) → used a' j ≡ used a j)
  unfolding alloc_pid
  alloc_pid_exhausted b {a} v h = search-exhausted rounds b a v h

  -- When `realloc` fails, `alloc_pid` returns -1 and the recorded size is one increment larger than
  -- the bitmap, so the next call reads and writes behind its end.
  pub alloc_pid_no_memory :
      (b : ℕ) {a a' : Allocator}
      → IsValid a
      → alloc_pid junk b a ≡ (no_memory, a')
      → length a'.pid_bitmap + increment ≡ a'.pid_bitmap_size
  unfolding alloc_pid
  alloc_pid_no_memory b {a} v h = search-no_memory rounds b a v h
