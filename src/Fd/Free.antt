-- ===== src/Fd/Free.antt =====
-- `free_fd`: an entry loses a reference, and with the last one its vnode.
use pml.Common.{
  ℕ, ◌+◌, ◌-◌, ◌%◌, ◌^◌, ◌≤◌, ◌<◌, ◌≡◌, refl, ◌≢◌, ◌∙◌, sym, ap, false, Option, none, arith, ◌==◌,
  ltb, if◌then◌else◌, set, length-set, inl, inr, Bool-cases, ==_refl,
}
use pml.Fd.{System, File, file, blank, system_fd_table_size, free_fd}
use pml.Fd.Alloc.{count, IsValid, file-set}

-- What is known of the vnode and the state that `free_fd` gives.
pub record Freed (i : ℕ) (s : System) (r : Option ℕ × System) : Type 0 where
  pub dropped : r.0 ≡ (if count s i == 1 then (file s i).vnode else none)
  pub cleared : count s i ≡ 1 → file r.1 i ≡ blank
  pub counted : (j : ℕ) → count r.1 j ≡ (if i == j then count s i - 1 else count s j)
  pub valid : IsValid r.1

module _ (i : ℕ) (s : System) (v : IsValid s) (l : i < system_fd_table_size) (h : count s i ≢ 0)
    (b : count s i < 2 ^ 64) where
  c : ℕ
  c = ((file s i).count + (2 ^ 64 - 1)) % 2 ^ 64

  c_less : c ≡ count s i - 1
  unfolding c
  c_less = ground (arith, h, b)

  set_count :
      (f : File) (start j : ℕ)
      → f.count ≡ count s i - 1
      → count (record s { system_fd_table = set s.system_fd_table i f; fd_table_start = start }) j
        ≡ (if i == j then count s i - 1 else count s j)
  set_count f start j e =
      ap File.count (file-set s i j start f v.sized l)
      ∙ elim (Bool-cases (i == j)) [ inl p ↦ rw p e | inr p ↦ rw p refl ]

  -- every entry below the start stays in use
  kept :
      (f : File) (start : ℕ)
      → f.count ≡ count s i - 1
      → start ≤ s.fd_table_start
      → (i < start → f.count ≢ 0)
      → IsValid (record s { system_fd_table = set s.system_fd_table i f; fd_table_start = start })
  kept f start e q u = record {
    sized = length-set s.system_fd_table i f ∙ v.sized;
    start_in = omega (arith, q, v.start_in);
    below = λ j k z. elim (Bool-cases (i == j)) [
      | inl p ↦
          let o : count s i - 1 ≡ 0 = sym (set_count f start j e ∙ rw p refl) ∙ z in
          u (ground arith) (e ∙ o)
      | inr p ↦
          let o : count s j ≡ 0 = sym (set_count f start j e ∙ rw p refl) ∙ z in
          v.below j (omega (arith, k, q)) o
    ];
  }

  -- A referenced entry loses one reference, and no other entry does. When the reference is the last
  -- one, the entry is cleared and its vnode is released.
  pub free_fd-Freed : Freed i s (free_fd i s)
  unfolding free_fd c
  free_fd-Freed = elim (Bool-cases (c == 0)) [
    | inl e ↦
        let z : count s i ≡ 1 = ground (arith, c_less, h) in
        let start = if ltb i s.fd_table_start then i else s.fd_table_start in
        let k : 0 ≡ count s i - 1 = omega (arith, z) in
        rw e (record {
          dropped = rw z refl;
          cleared = λ _. file-set s i i start blank v.sized l ∙ rw (==_refl i) refl;
          counted = λ j. set_count blank start j k;
          valid = kept blank start k (ground arith) (λ q. absurd (ground arith));
        })
    | inr e ↦
        let z : (count s i == 1) ≡ false = ground (arith, c_less) in
        let f : File = record (file s i) { count = c } in
        rw e (record {
          dropped = rw z refl;
          cleared = λ o. absurd (ground (arith, z, o));
          counted = λ j. set_count f s.fd_table_start j c_less;
          valid = kept f s.fd_table_start c_less (omega arith) (λ _. ground (arith, e));
        })
  ]
