-- ===== src/Hashmap/Torn.antt =====
-- `hashmap_insert` when memory runs out while the array is being doubled.
use pml.Common.{
  ℕ, zero, suc, ◌-◌, ◌/◌, ◌≤◌, ◌<◌, ◌≡◌, refl, sym, ap, true, none, List, [], ◌∷◌, ◌++◌, arith, leb,
  length, length-append, replicate,
}
use mathlib.Core.List.{map}
use mathlib.Core.Path.{subst}
use native.Mathlib.Decide.{dec_lt}
use pml.Hashmap.{
  Chain, Table, failed, release, torn, behind, copy_chain, rehash, insert, enlarge, mul_size,
}
use pml.Hashmap.Chain.{entries}
use pml.Hashmap.Rehash.{copy_chain-total}

module _ (hash : ℕ → ℕ) where
  copy_chain-none :
      (count : ℕ) (c : Chain) (new : List Chain) (b : ℕ)
      → b < length c
      → copy_chain hash count c new b ≡ none
  unfolding copy_chain
  copy_chain-none count [] new b h = absurd (omega arith)
  copy_chain-none count (e ∷ c) new zero h = refl
  copy_chain-none count (e ∷ c) new (suc b) h = copy_chain-none count c _ b (omega arith)

  -- Without memory for all the copies the rehash stops.
  rehash-torn :
      (count : ℕ) (cs new : List Chain) (b : ℕ)
      → b < length (entries cs)
      → (old : List Chain) × (rehash hash count cs new b ≡ torn old)
  unfolding rehash behind
  rehash-torn count [] new b h = absurd (omega arith)
  rehash-torn count (c ∷ cs) new b h = elim (dec_lt b (length c)) [
    | yes l ↦ (c ∷ cs, rw (copy_chain-none count c new b l, rehash))
    | no g ↦
        let (n, s) = copy_chain-total hash count c new b (omega arith) in
        let (old, r) =
          rehash-torn count cs n (b - length c) (omega (arith, length-append c (entries cs))) in
        (release c ∷ old, rw (s, rehash) (rw (r, behind)))
  ]

  -- The chains copied before it stops are released, and stay in the old array.
  rehash-release :
      (count : ℕ) (ds cs new : List Chain) (b : ℕ)
      → length (entries ds) ≤ b
      → b < length (entries (ds ++ cs))
      → (rest : List Chain) × (rehash hash count (ds ++ cs) new b ≡ torn (map release ds ++ rest))
  unfolding rehash behind
  rehash-release count [] cs new b p q = rehash-torn count cs new b q
  rehash-release count (d ∷ ds) cs new b p q =
      let l = length-append d (entries ds) in
      let m = length-append d (entries (ds ++ cs)) in
      let (n, s) = copy_chain-total hash count d new b (omega arith) in
      let (rest, r) = rehash-release count ds cs n (b - length d) (omega arith) (omega arith) in
      (rest, rw (s, rehash) (rw (r, behind)))

  -- When the array has to be doubled and memory runs out after the chains `ds` at its front were
  -- copied, `hashmap_insert` returns -1 and the table keeps those chains although their entries
  -- were freed.
  pub insert-torn :
      (b k v : ℕ) (t : Table) (ds cs : List Chain)
      → t.buckets ≡ ds ++ cs
      → mul_size t.bucket_count 3 / 4 ≤ t.object_count
      → length (entries ds) < b
      → b ≤ length (entries t.buckets)
      → ((insert hash b k v t).0 ≡ failed)
        × ((rest : List Chain) × ((insert hash b k v t).1.buckets ≡ map release ds ++ rest))
  unfolding insert enlarge
  insert-torn zero k v t ds cs e full p q = absurd (omega arith)
  insert-torn (suc b) k v t ds cs e full p q =
      let c : ℕ = mul_size t.bucket_count 2 in
      let (rest, r) =
        rehash-release c ds cs (replicate c []) b (omega arith)
          (omega (arith, q, ap (λ bs. length (entries bs)) e)) in
      let f : leb (mul_size t.bucket_count 3 / 4) t.object_count ≡ true = ground arith in
      let r' : rehash hash c t.buckets (replicate c []) b ≡ torn (map release ds ++ rest) =
        subst (λ bs. rehash hash c bs (replicate c []) b ≡ torn (map release ds ++ rest)) (sym e)
          r in
      (rw f (rw (r', enlarge)), (rest, rw f (rw (r', enlarge))))
