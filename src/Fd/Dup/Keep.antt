-- ===== src/Fd/Dup/Keep.antt =====
-- A duplicated descriptor keeps the tables in agreement.
use pml.Common.{
  ℕ, ◌+◌, ◌-◌, ◌^◌, ◌≤◌, ◌<◌, ◌≡◌, ◌≢◌, refl, ◌∙◌, ap, Bool, true, Option, none, some, arith, ◌==◌,
  leb, if◌then◌else◌, set, length-set, get_or-set_self, inl, inr, Bool-cases, ==_refl,
}
use native.Mathlib.Decide.{dec_lt}
use pml.Common.Int.{ℤ, pos, negsuc}
use pml.Errno.{Result, Done, ok}
use pml.Fd.{FdTable, System, File, slot, is_null, first, file_fd}
use pml.Fd.Alloc.{count, file-set}
use pml.Fd.Scan.{first-Found}
use pml.Fd.Slots.{references, refers, references-set}
use pml.Fd.Count.{Agree, count-inside, live}
use pml.Fd.Dup.{attach, dupfd, fcntl, f_dupfd}

is_null→none : (o : Option ℕ) → is_null o ≡ true → o ≡ none
is_null→none none h = refl
is_null→none (some k) h = absurd (ground arith)

module _ (other : ℕ → ℕ) (k n : ℕ) (t : FdTable) (s : System) (a : Agree other t s)
    (used : count s k ≢ 0) (few : count s k < 2 ^ 64 - 1) (free : slot t n ≡ none)
    (l : n < t.size) where
  more : (j : ℕ) → count (attach k n (t, s)).1 j ≡ (if k == j then count s k + 1 else count s j)
  unfolding attach
  more j =
      ap File.count
        (file-set s k j s.fd_table_start _ a.files.sized (count-inside s k a.files used))
      ∙ elim (Bool-cases (k == j)) [ inl q ↦ rw q (omega arith) | inr q ↦ rw q refl ]

  counts : (j : ℕ) → references j (set t.table n (some k)) + other j ≡ count (attach k n (t, s)).1 j
  counts j =
      let z : refers j (slot t n) ≡ 0 = rw free refl in
      let r = references-set j n (some k) t.table (omega (arith, a.sized)) in
      elim (Bool-cases (k == j)) [
        | inl q ↦
            let e : k ≡ j = ground arith in
            let c : count (attach k n (t, s)).1 j ≡ count s k + 1 = more j ∙ rw q refl in
            let m : refers j (some k) ≡ 1 = rw q refl in
            omega (arith, r, z, c, m, a.counted j, ap (count s) e)
        | inr q ↦
            let c : count (attach k n (t, s)).1 j ≡ count s j = more j ∙ rw q refl in
            let m : refers j (some k) ≡ 0 = rw q refl in omega (arith, r, z, c, m, a.counted j)
      ]

  attach-Agree : let (t₂, s₂) = attach k n (t, s) in Agree other t₂ s₂
  unfolding attach
  attach-Agree = record {
    files = record {
      sized = length-set s.system_fd_table k _ ∙ a.files.sized;
      start_in = a.files.start_in;
      below = λ j q z. ground (arith, more j, a.files.below j q);
    };
    sized = length-set t.table n (some k) ∙ a.sized;
    counted = counts;
    small = λ j. ground (arith, more j, a.small j);
  }

open-slot : (fd : ℤ) (t : FdTable) (k : ℕ) → file_fd fd t ≡ some k → (i : ℕ) × (slot t i ≡ some k)
unfolding file_fd
open-slot (negsuc i) t k e = absurd (ground arith)
open-slot (pos i) t k e = elim (Bool-cases (leb t.size i)) [
  | inl q ↦ absurd (let f = rw q at e in ground arith)
  | inr q ↦ (i, rw q at e)
]

module _ (memory : Bool) (fd : ℤ) (fd2 k : ℕ) (t : FdTable) (s : System) (e : file_fd fd t ≡ some k)
    (q : (first is_null none t.table (t.size - fd2) fd2).1 ≡ true) where
  dupfd_found :
      dupfd memory fd fd2 (t, s)
      ≡ (ok tt, attach k (first is_null none t.table (t.size - fd2) fd2).0 (t, s))
  unfolding dupfd
  dupfd_found = rw (e, dupfd, q) refl

  fcntl_found :
      fcntl memory fd (f_dupfd fd2) (t, s)
      ≡ (ok 0, attach k (first is_null none t.table (t.size - fd2) fd2).0 (t, s))
  unfolding fcntl
  fcntl_found =
      let answer : Done × (FdTable × System) → Result ℕ × (FdTable × System) = λ r. (ok 0, r.1) in
      rw (e, fcntl, dupfd_found) (ap answer dupfd_found)

-- F_DUPFD answers 0 and keeps the two tables in agreement: the first null slot at or after `fd2` leads
-- to the entry of `fd`, which counts one more reference. The descriptor is open, some slot from `fd2`
-- on is null, and the entry counts fewer than 2 ^ 64 - 1 references.
pub fcntl-Agree :
    (other : ℕ → ℕ) (memory : Bool) (fd : ℤ) (fd2 k m : ℕ) {t : FdTable} {s : System}
    → Agree other t s
    → file_fd fd t ≡ some k
    → count s k < 2 ^ 64 - 1
    → fd2 ≤ m
    → m < t.size
    → slot t m ≡ none
    → let (r, (t₂, s₂)) = fcntl memory fd (f_dupfd fd2) (t, s) in
      (r ≡ ok 0)
      × Agree other t₂ s₂
      × ((n : ℕ) × (fd2 ≤ n)
          × (n ≤ m)
          × (slot t n ≡ none)
          × (slot t₂ n ≡ some k)
          × (count s₂ k ≡ count s k + 1))
unfolding attach
fcntl-Agree other memory fd fd2 k m {t} {s} a e few b l free =
    let (i, o) = open-slot fd t k e in
    let used : count s k ≢ 0 = live other i k t s a o in
    let f = first-Found is_null none t.table (t.size - fd2) fd2 in
    let (n, found) = first is_null none t.table (t.size - fd2) fd2 in
    let null_m : is_null (slot t m) ≡ true = rw free refl in
    let least : n ≤ m = elim (dec_lt m n) [
      | yes u ↦ absurd (let p = f.passed m b u in ground arith)
      | no u ↦ omega arith
    ] in
    elim (Bool-cases found) [
      | inl q ↦
          let z : slot t n ≡ none = is_null→none _ (f.hit q).1 in
          let inside : n < t.size = omega (arith, (f.hit q).0) in
          let c = more other k n t s a used few z inside k in
          rw (fcntl_found memory fd fd2 k t s e q) (
            refl,
            attach-Agree other k n t s a used few z inside,
            (
              n,
              f.from,
              least,
              z,
              get_or-set_self t.table n (some k) none (omega (arith, a.sized)),
              c ∙ rw (==_refl k) refl,
            ),
          )
      | inr q ↦ absurd (omega (arith, f.missed q))
    ]
