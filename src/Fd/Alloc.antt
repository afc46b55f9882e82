-- ===== src/Fd/Alloc.antt =====
-- `alloc_fd` and `free_fd`: the table of the system gives its first unused entry.
use pml.Common.{
  ℕ, ◌+◌, ◌-◌, ◌%◌, ◌^◌, ◌≤◌, ◌<◌, ◌≡◌, refl, ◌≢◌, ◌∙◌, sym, ap, Bool, true, false, Option, none,
  some, arith, ◌==◌, ltb, if◌then◌else◌, length, get_or, set, length-set, get_or-set_self,
  get_or-set_ne, inl, inr, Bool-cases, ==_ne, ==_refl,
}
use mathlib.Core.Path.{subst}
use native.Mathlib.Decide.{ℕ_discrete}
use pml.Fd.{System, File, file, blank, unused, first, system_fd_table_size, alloc_fd}
use pml.Fd.Scan.{Found, first-Found}

-- how often an entry is referenced
abbrev pub count : System → ℕ → ℕ
count s i = (file s i).count

pub record IsValid (s : System) : Type 0 where
  pub sized : length s.system_fd_table ≡ system_fd_table_size
  pub start_in : s.fd_table_start ≤ system_fd_table_size
  pub below : (i : ℕ) → i < s.fd_table_start → count s i ≢ 0

-- What is known of the index and the state that `alloc_fd` gives.
pub record Allocated (s : System) (n : ℕ) (s' : System) : Type 0 where
  pub inside : n < system_fd_table_size
  pub was_unused : count s n ≡ 0
  pub smallest : (i : ℕ) → i < n → count s i ≢ 0
  pub counted : (j : ℕ) → count s' j ≡ (if n == j then 1 else count s j)
  pub valid : IsValid s'

-- the two outcomes of `alloc_fd`
pub data Ended (s : System) : Option ℕ × System → Type 0 where
  took : {n : ℕ} {s' : System} → Allocated s n s' → Ended s (some n, s')
  full :
      {s' : System}
      → ((i : ℕ) → i < system_fd_table_size → count s i ≢ 0)
      → ((j : ℕ) → count s' j ≡ count s j)
      → IsValid s'
      → Ended s (none, s')

pub file-set :
    (s : System) (i j start : ℕ) (f : File)
    → length s.system_fd_table ≡ system_fd_table_size
    → i < system_fd_table_size
    → file (record s { system_fd_table = set s.system_fd_table i f; fd_table_start = start }) j
      ≡ (if i == j then f else file s j)
file-set s i j start f h l = elim (ℕ_discrete i j) [
  | yes p ↦
      subst (λ k. get_or (set s.system_fd_table i f) k blank ≡ (if i == k then f else file s k)) p
        (get_or-set_self s.system_fd_table i f blank (omega arith) ∙ rw (==_refl i) refl)
  | no q ↦ get_or-set_ne s.system_fd_table i j f blank q ∙ rw (==_ne i j q) refl
]

unused_zero : (f : File) → unused f ≡ true → f.count ≡ 0
unused_zero f h = ground arith

used_nonzero : (f : File) → unused f ≡ false → f.count ≢ 0
used_nonzero f h = ground arith

first_count :
    (b : Bool) (f g : File)
    → f.count ≡ 0
    → (if b then record f { count = (f.count + 1) % 2 ^ 64 } else g).count
      ≡ (if b then 1 else g.count)
first_count true f g z = omega (arith, z)
first_count false f g z = refl

module _ (s : System) (v : IsValid s) where
  r : ℕ × Bool
  r =
      first unused blank s.system_fd_table (system_fd_table_size - s.fd_table_start)
        s.fd_table_start

  scan-Found :
      Found unused blank s.system_fd_table s.fd_table_start
        (system_fd_table_size - s.fd_table_start)
        r.0
        r.1
  unfolding r
  scan-Found =
      first-Found unused blank s.system_fd_table (system_fd_table_size - s.fd_table_start)
        s.fd_table_start

  used_below : (i : ℕ) → i < r.0 → count s i ≢ 0
  used_below i h = elim (Bool-cases (ltb i s.fd_table_start)) [
    | inl l ↦ v.below i (ground arith)
    | inr g ↦ used_nonzero (file s i) (scan-Found.passed i (ground arith) h)
  ]

  abbrev taken : System
  taken = record s {
    system_fd_table =
        set s.system_fd_table r.0
          (record (file s r.0) { count = ((file s r.0).count + 1) % 2 ^ 64 });
    fd_table_start = r.0 + 1;
  }

  nonzero :
      (i : ℕ)
      → i < r.0 + 1
      → count taken i ≡ (if r.0 == i then 1 else count s i)
      → count taken i ≢ 0
  nonzero i q c w = elim (Bool-cases (r.0 == i)) [
    | inl e ↦ let o : count taken i ≡ 1 = c ∙ rw e refl in omega (arith, o, w)
    | inr e ↦
        let o : count taken i ≡ count s i = c ∙ rw e refl in used_below i (ground arith) (sym o ∙ w)
  ]

  taken-Allocated : r.1 ≡ true → Allocated s r.0 taken
  taken-Allocated e =
      let h = scan-Found.hit e in
      let l : r.0 < system_fd_table_size = omega (arith, h.0, v.start_in) in
      let z : count s r.0 ≡ 0 = unused_zero (file s r.0) h.1 in
      let c : (j : ℕ) → count taken j ≡ (if r.0 == j then 1 else count s j) = λ j.
        ap File.count (file-set s r.0 j (r.0 + 1) _ v.sized l)
        ∙ first_count (r.0 == j) (file s r.0) (file s j) z in
      record {
        inside = l;
        was_unused = z;
        smallest = used_below;
        counted = c;
        valid = record {
          sized = length-set s.system_fd_table r.0 _ ∙ v.sized;
          start_in = omega arith;
          below = λ i q. nonzero i q (c i);
        };
      }

  missed : r.1 ≡ false → r.0 ≡ system_fd_table_size
  missed e = omega (arith, scan-Found.missed e, v.start_in)

  -- `alloc_fd` marks and returns the first unused entry, and fails only when every entry is in use.
  pub alloc_fd-Ended : Ended s (alloc_fd s)
  unfolding alloc_fd r
  alloc_fd-Ended = elim (Bool-cases r.1) [
    | inl e ↦ rw e (took (taken-Allocated e))
    | inr e ↦ rw e (
        full (λ i q. used_below i (omega (arith, missed e))) (λ j. refl)
          (record { sized = v.sized; start_in = omega (arith, missed e); below = used_below }))
  ]
