-- ===== src/Fd/Count.antt =====
-- Opening and closing files: an entry of the system's table counts the slots that refer to it.
use pml.Common.{
  ◌+◌, ◌-◌, ◌^◌, ◌<◌, ◌≡◌, refl, ◌≢◌, ◌∙◌, sym, ap, none, some, arith, ◌==◌, ==_refl, ltb, ℕ, Bool,
  Option, Option-cases, ◌*◌, get_or-set_self, length, set, length-set, inl, inr, Bool-cases,
  get_or_out,
}
use pml.Fd.{
  FdTable, System, File, file, slot, blank, system_fd_table_size, free_fd, fill_fd, kept_flags, Got,
  fd, alloc_fd, alloc_procfd, free_altprocfd,
}
use pml.Fd.Alloc.{count, IsValid, Allocated, file-set, Ended, took, full, alloc_fd-Ended}
use pml.Fd.Free.{Freed, free_fd-Freed}
use pml.Fd.Slots.{
  references, refers, references-set, refers-references, Kept, Procfd, gave, starved,
  full as no_slot, alloc_procfd-Procfd,
}
use mathlib.Core.Path.{subst₂}

-- The two tables agree: an entry counts the slots of the process that refer to it and what `other`
-- says of the other processes.
pub record Agree (other : ℕ → ℕ) (t : FdTable) (s : System) : Type 0 where
  pub files : IsValid s
  pub sized : length t.table ≡ t.size
  pub counted : (j : ℕ) → references j t.table + other j ≡ count s j
  pub small : (j : ℕ) → count s j < 2 ^ 64

-- An entry with a count lies in the table.
pub count-inside : (s : System) (i : ℕ) → IsValid s → count s i ≢ 0 → i < system_fd_table_size
count-inside s i v h = elim (Bool-cases (ltb i system_fd_table_size)) [
  | inl e ↦ ground arith
  | inr e ↦
      let o = get_or_out s.system_fd_table i blank (ground (arith, v.sized)) in
      absurd (h (ap File.count o))
]

slot-inside : (t : FdTable) (i k : ℕ) → slot t i ≡ some k → i < length t.table
slot-inside t i k e = elim (Bool-cases (ltb i (length t.table))) [
  | inl l ↦ ground arith
  | inr g ↦ let o : slot t i ≡ none = get_or_out t.table i none (ground arith) in cc
]

module _ (other : ℕ → ℕ) (i k : ℕ) (t : FdTable) (s : System) (a : Agree other t s)
    (e : slot t i ≡ some k) where
  pub live : count s k ≢ 0
  live z =
      let one : refers k (slot t i) ≡ 1 = rw (e, ==_refl k) refl in
      omega (arith, one, z, a.counted k, refers-references k i t.table)

  f : Freed k s (free_fd k s)
  f = free_fd-Freed k s a.files (count-inside s k a.files live) live (a.small k)

  slots_left :
      (j : ℕ) → references j (set t.table i none) + refers j (some k) ≡ references j t.table
  slots_left j =
      ap (λ o. references j (set t.table i none) + refers j o) (sym e)
      ∙ references-set j i none t.table (slot-inside t i k e)
      ∙ omega arith

  counts : (j : ℕ) → references j (set t.table i none) + other j ≡ count (free_fd k s).1 j
  counts j = elim (Bool-cases (k == j)) [
    | inl p ↦
        let q : k ≡ j = ground arith in
        let c : count (free_fd k s).1 j ≡ count s k - 1 = f.counted j ∙ rw p refl in
        let m : refers j (some k) ≡ 1 = rw p refl in
        omega (arith, c, m, slots_left j, a.counted j, ap (count s) q)
    | inr p ↦
        let c : count (free_fd k s).1 j ≡ count s j = f.counted j ∙ rw p refl in
        let m : refers j (some k) ≡ 0 = rw p refl in omega (arith, c, m, slots_left j, a.counted j)
  ]

  closed-Agree : Agree other (record t { table = set t.table i none }) (free_fd k s).1
  closed-Agree = record {
    files = f.valid;
    sized = length-set t.table i none ∙ a.sized;
    counted = counts;
    small = λ j. ground (arith, f.counted j, a.small j, a.small k);
  }

module _ (other : ℕ → ℕ) (i n vp flags : ℕ) {t t' : FdTable} {s s' : System} (a : Agree other t s)
    (h : Allocated s n s') (p : Kept t t') (e : slot t' i ≡ none) (l : i < t'.size) where
  g : File
  g = record (file s' n) { vnode = some vp; flags = kept_flags flags }

  same_count :
      (j : ℕ) → count (record s' { system_fd_table = set s'.system_fd_table n g }) j ≡ count s' j
  unfolding g
  same_count j =
      ap File.count (file-set s' n j s'.fd_table_start g h.valid.sized h.inside)
      ∙ elim (Bool-cases (n == j)) [
        | inl q ↦ let k : n ≡ j = ground arith in rw q (ap (count s') k)
        | inr q ↦ rw q refl
      ]

  filled_slots :
      (j : ℕ) → references j (set t'.table i (some n)) ≡ references j t.table + refers j (some n)
  filled_slots j =
      let z : refers j (slot t' i) ≡ 0 = rw e refl in
      omega (arith, z, p.same j, references-set j i (some n) t'.table (omega (arith, p.sized)))

  filled : (j : ℕ) → references j (set t'.table i (some n)) + other j ≡ count s' j
  filled j = elim (Bool-cases (n == j)) [
    | inl q ↦
        let k : n ≡ j = ground arith in
        let c : count s' j ≡ 1 = h.counted j ∙ rw q refl in
        let m : refers j (some n) ≡ 1 = rw q refl in
        omega (arith, c, m, filled_slots j, a.counted j, h.was_unused, ap (count s) k)
    | inr q ↦
        let c : count s' j ≡ count s j = h.counted j ∙ rw q refl in
        let m : refers j (some n) ≡ 0 = rw q refl in
        omega (arith, c, m, filled_slots j, a.counted j)
  ]

  filled-Agree : let (t₂, s₂) = fill_fd i n vp flags (t', s') in Agree other t₂ s₂
  unfolding fill_fd g
  filled-Agree = record {
    files = record {
      sized = length-set s'.system_fd_table n g ∙ h.valid.sized;
      start_in = h.valid.start_in;
      below = λ j q z. h.valid.below j q (sym (same_count j) ∙ z);
    };
    sized = length-set t'.table i (some n) ∙ p.sized;
    counted = λ j. filled j ∙ sym (same_count j);
    small = λ j. ground (arith, same_count j, h.counted j, a.small j);
  }

-- Closing a descriptor keeps the two tables in agreement and leaves its slot null.
pub free_altprocfd-Agree :
    (other : ℕ → ℕ) (i : ℕ) {t : FdTable} {s : System}
    → Agree other t s
    → let (_, (t₂, s₂)) = free_altprocfd i (t, s) in Agree other t₂ s₂ × (slot t₂ i ≡ none)
unfolding free_altprocfd
free_altprocfd-Agree other i {t} {s} a = elim (Option-cases (slot t i)) [
  | inl e ↦ rw (e, free_altprocfd) (a, e)
  | inr (k, e) ↦
      rw (e, free_altprocfd)
        (closed-Agree other i k t s a e, get_or-set_self t.table i none none (slot-inside t i k e))
]

-- What a descriptor given by `alloc_procfd` is worth.
given :
    {memory : Bool} {t : FdTable} {r : Got × FdTable} {i : ℕ} {t' : FdTable}
    → Procfd memory t r
    → r ≡ (fd i, t')
    → Kept t t' × (slot t' i ≡ none) × (i < t'.size)
given {t} {i} {t'} (gave {n} {t' = u} from l c e k f z) h =
    let p : n ≡ i = ground arith in
    let q : u ≡ t' = ground arith in
    subst₂ (λ m w. Kept t w × (slot w m ≡ none) × (m < w.size)) p q (k, e, l)
given (starved m l b k z) h = absurd (ground arith)
given (no_slot b k z) h = absurd (ground arith)

taken_entry :
    {s : System} {r : Option ℕ × System} {n : ℕ} {s' : System}
    → Ended s r
    → r ≡ (some n, s')
    → Allocated s n s'
taken_entry {s} {n} {s'} (took {n = m} {s' = u} a) h =
    let p : m ≡ n = ground arith in
    let q : u ≡ s' = ground arith in subst₂ (λ k w. Allocated s k w) p q a
taken_entry (full u c v) h = absurd (ground arith)

-- Opening a file, by `alloc_procfd`, `alloc_fd` and `fill_fd`, keeps the two tables in agreement;
-- the new descriptor leads to the entry that was allocated.
pub fill_fd-Agree :
    (other : ℕ → ℕ) (memory : Bool) (i n vp flags : ℕ) {t t' : FdTable} {s s' : System}
    → Agree other t s
    → t.size * 2 < 2 ^ 64
    → alloc_procfd memory t ≡ (fd i, t')
    → alloc_fd s ≡ (some n, s')
    → let (t₂, s₂) = fill_fd i n vp flags (t', s') in Agree other t₂ s₂ × (slot t₂ i ≡ some n)
unfolding fill_fd
fill_fd-Agree other memory i n vp flags {t} {t'} {s} {s'} a b ht hs =
    let g = given (alloc_procfd-Procfd memory t a.sized b) ht in
    let h = taken_entry (alloc_fd-Ended s a.files) hs in
    (
      filled-Agree other i n vp flags a h g.0 g.1 g.2,
      get_or-set_self t'.table i (some n) none (omega (arith, g.0.sized, g.2)),
    )
