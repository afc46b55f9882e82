-- ===== src/Hashmap/Valid.antt =====
-- The invariant of `struct hashmap`, and what an insertion or a removal is to do.
use pml.Common.{
  ℕ, zero, suc, ◌+◌, ◌*◌, ◌≤◌, ◌<◌, ◌≡◌, refl, Option, none, some, [], ◌∷◌, arith, ◌==◌,
  if◌then◌else◌, inl, inr, Option-cases, length, replicate,
}
use pml.Hashmap.{Chain, Table, replace}
use pml.Hashmap.Chain.{entries}
use pml.Hashmap.Placed.{Placed}
use pml.Hashmap.Rehash.{held}

pub length-replace :
    (k v : ℕ) (c : Chain) {c' : Chain} → replace k v c ≡ some c' → length c' ≡ length c
unfolding replace
length-replace k v [] h = cc
length-replace k v (e ∷ c) h = elim (Option-cases (replace k v c)) [
  | inl n ↦ ground (arith, n)
  | inr (r, s) ↦ ground (arith, s, length-replace k v c s)
]

pub length-entries-replicate : (n : ℕ) → length (entries (replicate n [])) ≡ 0
length-entries-replicate zero = refl
length-entries-replicate (suc n) = length-entries-replicate n

module _ (hash : ℕ → ℕ) where
  pub record IsValid (t : Table) : Type 0 where
    pub sized : length t.buckets ≡ t.bucket_count
    pub nonempty : 0 < t.bucket_count
    pub placed : Placed hash t.bucket_count 0 t.buckets
    pub counted : length (entries t.buckets) ≤ t.object_count
    pub load : 3 * t.bucket_count ≤ 48 + 8 * t.object_count

  -- what a table maps a key to
  abbrev pub binding : Table → ℕ → Option ℕ
  binding t j = held hash t.bucket_count t.buckets j

  -- The table maps `k` to `v` and every other key as before.
  abbrev pub Updated : ℕ → ℕ → Table → Table → Type 0
  Updated k v t t' = (j : ℕ) → binding t' j ≡ (if k == j then some v else binding t j)

  pub record Inserted (k v : ℕ) (t t' : Table) : Type 0 where
    pub valid : IsValid t'
    pub updated : Updated k v t t'
    pub counter : t'.object_count ≤ t.object_count + 1

  -- The table maps `k` to nothing and every other key as before.
  abbrev pub Dropped : ℕ → Table → Table → Type 0
  Dropped k t t' = (j : ℕ) → binding t' j ≡ (if k == j then none else binding t j)
