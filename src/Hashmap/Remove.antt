-- ===== src/Hashmap/Remove.antt =====
-- `hashmap_remove`: it keeps the invariant, drops the one key, and says whether there was one.
use mathlib.Core.Option
use pml.Common.{
  ℕ, suc, ◌≡◌, refl, sym, ◌∙◌, ap, none, some, List, [], ◌∷◌, ◌++◌, arith, ◌==◌, if◌then◌else◌, inl,
  inr, ◌⊎◌, ==_ne, Option-cases, length,
}
use mathlib.Core.Path.{subst}
use native.Mathlib.Decide.{ℕ_discrete}
use pml.Hashmap.{Chain, Table, Status, ok, failed, chain_at, find, unlink, unlink_first, remove}
use pml.Hashmap.Chain.{entries, find-unlink, unlink-none, unlink-some}
use pml.Hashmap.Placed.{Placed, GoodChain-unlink, Distinct-entries, find-entries}
use pml.Hashmap.Valid.{IsValid, binding, Dropped}

-- Unlinking from an array is unlinking from all its entries in order.
unlink-append_some :
    (k : ℕ) (c d : Chain) {c' : Chain} → unlink k c ≡ some c' → unlink k (c ++ d) ≡ some (c' ++ d)
unfolding unlink
unlink-append_some k [] d h = cc
unlink-append_some k (e ∷ c) d h = elim (Option-cases (unlink k c)) [
  | inl n ↦ ground (arith, n)
  | inr (r, s) ↦ ground (arith, s, unlink-append_some k c d s)
]

unlink-append_none :
    (k : ℕ) (c d : Chain)
    → unlink k c ≡ none
    → unlink k (c ++ d) ≡ Option.map (λ r. c ++ r) (unlink k d)
unfolding unlink
unlink-append_none k [] d h = elim (Option-cases (unlink k d)) [ inl n ↦ rw n | inr (r, s) ↦ rw s ]
unlink-append_none k (e ∷ c) d h = elim (Option-cases (unlink k d)) [
  | inl n ↦ ground (arith, n, unlink-append_none k c d)
  | inr (r, s) ↦ ground (arith, s, unlink-append_none k c d)
]

unlink_first-entries :
    (k : ℕ) (cs : List Chain) → unlink k (entries cs) ≡ Option.map entries (unlink_first k cs)
unfolding unlink_first
unlink_first-entries k [] = unfold unlink in refl
unlink_first-entries k (c ∷ cs) = elim (Option-cases (unlink k c)) [
  | inl n ↦ elim (Option-cases (unlink_first k cs)) [
    | inl m ↦
        rw (n, unlink_first)
          (rw (unlink-append_none k c (entries cs) n, unlink_first-entries k cs, m))
    | inr (r, m) ↦
        rw (n, unlink_first)
          (rw (unlink-append_none k c (entries cs) n, unlink_first-entries k cs, m))
  ]
  | inr (c', s) ↦ rw (s, unlink_first) (unlink-append_some k c (entries cs) s)
]

-- The two ways in which a removal finds its entry: in the first chain, or behind it.
unlink_first-inv :
    (k : ℕ) (c : Chain) (cs : List Chain) {cs' : List Chain}
    → unlink_first k (c ∷ cs) ≡ some cs'
    → ((c' : Chain) × (unlink k c ≡ some c') × (cs' ≡ c' ∷ cs))
      ⊎ ((r : List Chain) × (unlink_first k cs ≡ some r) × (cs' ≡ c ∷ r))
unfolding unlink_first
unlink_first-inv k c cs h = elim (Option-cases (unlink k c)) [
  | inl n ↦ elim (Option-cases (unlink_first k cs)) [
    | inl m ↦ ground (arith, n, m)
    | inr (r, m) ↦ inr (r, m, ground (arith, n, m))
  ]
  | inr (c', s) ↦ inl (c', s, ground (arith, s))
]

length-unlink_first :
    (k : ℕ) (cs : List Chain) {cs' : List Chain}
    → unlink_first k cs ≡ some cs'
    → length cs' ≡ length cs
length-unlink_first k [] h = unfold unlink_first in cc
length-unlink_first k (c ∷ cs) h = elim (unlink_first-inv k c cs h) [
  | inl (c', s, e) ↦ rw e
  | inr (r, s, e) ↦ rw e (ap suc (length-unlink_first k cs s))
]

length-unlink : (k : ℕ) (c : Chain) {c' : Chain} → unlink k c ≡ some c' → length c ≡ suc (length c')
unfolding unlink
length-unlink k [] h = cc
length-unlink k (e ∷ c) h = elim (Option-cases (unlink k c)) [
  | inl n ↦ ground (arith, n)
  | inr (r, s) ↦ ground (arith, s, length-unlink k c s)
]

module _ (hash : ℕ → ℕ) where
  Placed-unlink_first :
      (count off k : ℕ) (cs : List Chain) {cs' : List Chain}
      → unlink_first k cs ≡ some cs'
      → Placed hash count off cs
      → Placed hash count off cs'
  Placed-unlink_first count off k [] h p = unfold unlink_first in cc
  Placed-unlink_first count off k (c ∷ cs) h p = elim (unlink_first-inv k c cs h) [
    | inl (c', s, e) ↦ rw e (GoodChain-unlink hash count off k c s p.0, p.1)
    | inr (r, s, e) ↦ rw e (p.0, Placed-unlink_first count (suc off) k cs s p.1)
  ]

  -- In an array that is placed, what a bucket holds of its key is what there is of it.
  pub binding-entries :
      (t : Table) (j : ℕ)
      → Placed hash t.bucket_count 0 t.buckets
      → binding hash t j ≡ find j (entries t.buckets)
  binding-entries t j p =
      ap (λ i. find j (chain_at t.buckets i)) (omega arith)
      ∙ sym (find-entries hash t.bucket_count j 0 t.buckets p (omega arith))

  module _ (k : ℕ) (t : Table) (h : IsValid hash t) where
    removed-entries :
        {cs : List Chain}
        → unlink_first k t.buckets ≡ some cs
        → unlink k (entries t.buckets) ≡ some (entries cs)
    removed-entries r = rw (unlink_first-entries k t.buckets, r)

    removed-IsValid :
        {cs : List Chain}
        → unlink_first k t.buckets ≡ some cs
        → IsValid hash (record t { buckets = cs })
    removed-IsValid r = record {
      sized = length-unlink_first k t.buckets r ∙ h.sized;
      nonempty = h.nonempty;
      placed = Placed-unlink_first t.bucket_count 0 k t.buckets r h.placed;
      counted = omega (arith, length-unlink k (entries t.buckets) (removed-entries r), h.counted);
      load = h.load;
    }

    removed-Dropped :
        {cs : List Chain}
        → unlink_first k t.buckets ≡ some cs
        → Dropped hash k t (record t { buckets = cs })
    removed-Dropped {cs} r j =
        binding-entries (record t { buckets = cs }) j (removed-IsValid r).placed
        ∙ find-unlink k j (entries t.buckets)
            (Distinct-entries hash t.bucket_count 0 t.buckets h.placed) (removed-entries r)
        ∙ ap (λ o. if k == j then none else o) (sym (binding-entries t j h.placed))

    missing-binding : unlink_first k t.buckets ≡ none → binding hash t k ≡ none
    missing-binding r =
        binding-entries t k h.placed
        ∙ unlink-none k (entries t.buckets) (rw (unlink_first-entries k t.buckets, r))

  -- What `hashmap_remove` does: it drops a key that is bound and says 0, and leaves the table alone
  -- and says -1 where the key is not bound.
  pub record Removed (k : ℕ) (t : Table) (s : Status) (t' : Table) : Type 0 where
    pub valid : IsValid hash t'
    pub dropped : Dropped hash k t t'
    pub counter : t'.object_count ≡ t.object_count
    pub found : s ≡ ok → (v : ℕ) × (binding hash t k ≡ some v)
    pub missing : s ≡ failed → (binding hash t k ≡ none) × (t' ≡ t)

  -- `hashmap_remove` keeps the invariant, drops the one key, and returns 0 exactly when the key was
  -- bound; when it was not, the table is unchanged. The object count is as before in both cases: the
  -- code never decrements it, a bug, since the header calls it the number of objects in the table.
  pub remove-Removed :
      (k : ℕ) {t : Table} → IsValid hash t → Removed k t (remove k t).0 (remove k t).1
  unfolding remove
  remove-Removed k {t} h = elim (Option-cases (unlink_first k t.buckets)) [
    | inl n ↦
        rw (n, remove)
          (record {
            valid = h;
            dropped = λ j. keep j (missing-binding k t h n);
            counter = refl;
            found = λ e. cc;
            missing = λ e. (missing-binding k t h n, refl);
          })
    | inr (cs, r) ↦
        rw (r, remove)
          (record {
            valid = removed-IsValid k t h r;
            dropped = removed-Dropped k t h r;
            counter = refl;
            found = λ e.
                let (v, f) = unlink-some k (entries t.buckets) (removed-entries k t h r) in
                (v, binding-entries t k h.placed ∙ f);
            missing = λ e. cc;
          })
  ]
    where
      keep :
          (j : ℕ)
          → binding hash t k ≡ none
          → binding hash t j ≡ (if k == j then none else binding hash t j)
      keep j n = elim (ℕ_discrete k j) [
        | yes e ↦
            let f : binding hash t j ≡ none = subst (λ x. binding hash t x ≡ none) e n in
            rw f (ground arith)
        | no d ↦ rw (==_ne k j d)
      ]
