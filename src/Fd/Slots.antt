-- ===== src/Fd/Slots.antt =====
-- The table of a process: the slots that refer to an entry, and the slot that `alloc_procfd` gives.
use pml.Common.{
  ℕ, zero, suc, ◌+◌, ◌-◌, ◌*◌, ◌%◌, ◌^◌, ◌≤◌, ◌<◌, ◌≡◌, sym, refl, Bool, true, false, not, Option,
  none, some, List, [], ◌∷◌, ◌++◌, arith, ◌==◌, ltb, leb, ltb→lt, if◌then◌else◌, length, set,
  get_or, inl, inr, Bool-cases, replicate, length-append, length-replicate,
}
use mathlib.Core.Path.{subst}
use pml.Fd.{FdTable, slot, is_null, first, widen, alloc_procfd, Got, fd, no_memory, too_many}
use pml.Fd.Scan.{Found, first-Found}

-- 1 when a slot refers to the entry, 0 otherwise
abbrev pub refers : ℕ → Option ℕ → ℕ
refers j none = 0
refers j (some k) = if k == j then 1 else 0

-- how many slots refer to the entry
abbrev pub references : ℕ → List (Option ℕ) → ℕ
references j [] = 0
references j (o ∷ os) = refers j o + references j os

pub references-set :
    (j i : ℕ) (o : Option ℕ) (xs : List (Option ℕ))
    → i < length xs
    → references j (set xs i o) + refers j (get_or xs i none) ≡ references j xs + refers j o
references-set j i o [] h = absurd (omega arith)
references-set j zero o (x ∷ xs) h = omega arith
references-set j (suc i) o (x ∷ xs) h = omega (arith, references-set j i o xs (omega arith))

pub refers-references :
    (j i : ℕ) (xs : List (Option ℕ)) → refers j (get_or xs i none) ≤ references j xs
refers-references j i [] = omega arith
refers-references j zero (x ∷ xs) = omega arith
refers-references j (suc i) (x ∷ xs) = omega (arith, refers-references j i xs)

-- Emptying or filling any slot, even one out of the table, adds at most the new reference.
pub references-set_le :
    (j i : ℕ) (o : Option ℕ) (xs : List (Option ℕ))
    → references j (set xs i o) ≤ references j xs + refers j o
references-set_le j i o [] = omega arith
references-set_le j zero o (x ∷ xs) = omega arith
references-set_le j (suc i) o (x ∷ xs) = omega (arith, references-set_le j i o xs)

references-none : (j n : ℕ) → references j (replicate n none) ≡ 0
references-none j zero = refl
references-none j (suc n) = omega (arith, references-none j n)

references-append :
    (j : ℕ) (xs ys : List (Option ℕ)) → references j (xs ++ ys) ≡ references j xs + references j ys
references-append j [] ys = omega arith
references-append j (x ∷ xs) ys = omega (arith, references-append j xs ys)

-- New slots are null, so a larger table holds the same references.
pub references-widen :
    (j : ℕ) (xs : List (Option ℕ)) (old new : ℕ) → references j (widen xs old new) ≡ references j xs
unfolding widen
references-widen j xs old new =
    omega
      (arith, references-append j xs (replicate (new - old) none), references-none j (new - old))

nulls : (n i : ℕ) → get_or {A = Option ℕ} (replicate n none) i none ≡ none
nulls zero i = refl
nulls (suc n) zero = refl
nulls (suc n) (suc i) = nulls n i

get_or-widen :
    (xs : List (Option ℕ)) (n i : ℕ) → length xs ≤ i → get_or (xs ++ replicate n none) i none ≡ none
get_or-widen [] n i h = nulls n i
get_or-widen (x ∷ xs) n zero h = absurd (omega arith)
get_or-widen (x ∷ xs) n (suc i) h = get_or-widen xs n i (omega arith)

null_none : (o : Option ℕ) → is_null o ≡ true → o ≡ none
null_none none h = refl
null_none (some x) h = cc

-- The table keeps its references, and its size is told right.
pub record Kept (t t' : FdTable) : Type 0 where
  pub sized : length t'.table ≡ t'.size
  pub same : (j : ℕ) → references j t'.table ≡ references j t.table
  pub forward : t.curr ≤ t'.curr

-- every slot from the start of the search on is in use
abbrev pub Busy : FdTable → Type 0
Busy t = (i : ℕ) → t.curr ≤ i → i < t.size → is_null (slot t i) ≡ false

-- the size of the table once it is enlarged: twice the old one, up to the limit
abbrev pub enlarged : FdTable → ℕ
enlarged t = if ltb (t.size * 2) t.max_size then t.size * 2 else t.max_size

-- The size of the table that gives the descriptor `n`: as before where `n` is in the table, else every
-- slot from the start of the search on is in use, and the table is below the limit and enlarged.
pub data Sized (t : FdTable) (n : ℕ) : ℕ → Type 0 where
  same_size : n < t.size → Sized t n t.size
  doubled : t.size ≤ n → Busy t → t.size < t.max_size → Sized t n (enlarged t)

-- The size of the table that has no descriptor to give: the limit is reached, or the enlarged table
-- still ends before the start of the search.
pub data Full (t : FdTable) : ℕ → Type 0 where
  at_limit : t.max_size ≤ t.size → Full t t.size
  too_short : t.size < t.max_size → enlarged t ≤ t.curr → Full t (enlarged t)

-- The outcomes of `alloc_procfd`. A descriptor is the first one at or after the start of the search
-- whose slot is null, it lies in the table, and the next search starts behind it. Without memory the
-- table has its size; without a descriptor it is at the limit, or enlarged in vain.
pub data Procfd (memory : Bool) (t : FdTable) : Got × FdTable → Type 0 where
  gave :
      {n : ℕ} {t' : FdTable}
      → t.curr ≤ n
      → n < t'.size
      → t'.curr ≡ n + 1
      → slot t' n ≡ none
      → Kept t t'
      → ((i : ℕ) → t.curr ≤ i → i < n → is_null (slot t i) ≡ false)
      → Sized t n t'.size
      → Procfd memory t (fd n, t')
  starved :
      {t' : FdTable}
      → memory ≡ false
      → t.size < t.max_size
      → Busy t
      → Kept t t'
      → t'.size ≡ t.size
      → Procfd memory t (no_memory, t')
  full : {t' : FdTable} → Busy t → Kept t t' → Full t t'.size → Procfd memory t (too_many, t')

module _ (memory : Bool) (t : FdTable) (v : length t.table ≡ t.size) where
  r : ℕ × Bool
  r = first is_null none t.table (t.size - t.curr) t.curr

  scan-Found : Found is_null none t.table t.curr (t.size - t.curr) r.0 r.1
  unfolding r
  scan-Found = first-Found is_null none t.table (t.size - t.curr) t.curr

  n : ℕ
  n = if ltb (t.size * 2 % 2 ^ 64) t.max_size then t.size * 2 % 2 ^ 64 else t.max_size

  busy : r.1 ≡ false → Busy t
  busy e i p q = scan-Found.passed i p (omega (arith, scan-Found.missed e))

  beyond : r.1 ≡ false → t.size ≤ r.0
  beyond e = omega (arith, scan-Found.missed e)

  stay : (c : ℕ) → t.curr ≤ c → Kept t (record t { curr = c })
  stay c h = record { sized = v; same = λ j. refl; forward = h }

  wide : ℕ → FdTable
  wide c = record t { table = widen t.table t.size n; size = n; curr = c }

  n-enlarged : t.size * 2 < 2 ^ 64 → n ≡ enlarged t
  unfolding n
  n-enlarged b = let e : t.size * 2 % 2 ^ 64 ≡ t.size * 2 = omega arith in rw e refl

  larger : t.size < t.max_size → t.size * 2 < 2 ^ 64 → t.size ≤ n
  unfolding n
  larger l b = ground arith

  length-widen : t.size ≤ n → length (widen t.table t.size n) ≡ n
  unfolding widen
  length-widen l = omega (
    arith,
    length-append t.table (replicate (n - t.size) none),
    length-replicate {A = Option ℕ} (n - t.size) none,
    v,
  )

  widened : (c : ℕ) → t.curr ≤ c → t.size ≤ n → Kept t (wide c)
  unfolding wide
  widened c h l = record {
    sized = length-widen l;
    same = λ j. references-widen j t.table t.size n;
    forward = h;
  }

  -- the branch that enlarges the table
  expanded :
      r.1 ≡ false
      → t.size < t.max_size
      → t.size * 2 < 2 ^ 64
      → Procfd memory t (
          if not memory
          then (no_memory, record t { curr = r.0 })
          else if leb n r.0
          then (too_many, wide r.0)
          else (fd r.0, wide (r.0 + 1)))
  unfolding wide widen n r
  expanded e l b = elim (Bool-cases memory) [
    | inl m ↦ rw m elim (Bool-cases (leb n r.0)) [
      | inl f ↦ rw f (
          full (busy e) (widened r.0 scan-Found.from (larger l b)) (
            subst (Full t) (sym (n-enlarged b))
              (too_short l (ground (arith, scan-Found.missed e, n-enlarged b, f)))))
      | inr f ↦ rw f (
          gave scan-Found.from (ground (arith, f)) refl
            (get_or-widen t.table (n - t.size) r.0 (omega (arith, v, beyond e)))
            (widened (r.0 + 1) (omega (arith, scan-Found.from)) (larger l b)) scan-Found.passed
            (subst (Sized t r.0) (sym (n-enlarged b)) (doubled (beyond e) (busy e) l)))
    ]
    | inr m ↦ rw m (starved refl l (busy e) (stay r.0 scan-Found.from) refl)
  ]

  -- On a table of fewer than 2 ^ 63 slots whose size is told right, `alloc_procfd` gives the first null
  -- slot at or after the start of its search, in the table as it is, or, when every slot from that
  -- start on is in use and the table is below its limit, in one that it doubles up to the limit; the
  -- references are kept. Without memory for that it fails and leaves the size. With EMFILE it fails
  -- only when every slot from that start on is in use, and either the table is at its limit or the
  -- enlarged one still ends before the start.
  pub alloc_procfd-Procfd : t.size * 2 < 2 ^ 64 → Procfd memory t (alloc_procfd memory t)
  unfolding alloc_procfd r n wide
  alloc_procfd-Procfd b = elim (Bool-cases r.1) [
    | inl e ↦
        let h = scan-Found.hit e in
        rw e (
          gave scan-Found.from (omega (arith, h.0, scan-Found.from)) refl
            (null_none (slot t r.0) h.1) (stay (r.0 + 1) (omega (arith, scan-Found.from)))
            scan-Found.passed (same_size (omega (arith, h.0, scan-Found.from))))
    | inr e ↦ rw e elim (Bool-cases (ltb t.size t.max_size)) [
      | inl l ↦ rw l (expanded e (ltb→lt _ _ l) b)
      | inr g ↦ rw g (full (busy e) (stay r.0 scan-Found.from) (at_limit (ground arith)))
    ]
  ]
