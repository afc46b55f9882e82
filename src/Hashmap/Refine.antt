-- ===== src/Hashmap/Refine.antt =====
-- Any sequence of calls on a hash table answers as the same calls on a map from keys to pointers.
use mathlib.Core.Option
use mathlib.Core.Path.{ap₂}
use pml.Common.{
  ℕ, zero, suc, ◌+◌, ◌^◌, ◌≤◌, ◌≡◌, refl, ◌∙◌, ◌⊎◌, ◌%◌, ap, Option, none, some, List, [], ◌∷◌,
  arith, ◌==◌, if◌then◌else◌, inl, inr, length, get_or-replicate,
}
use pml.Hashmap.{
  Chain, Table, Status, ok, failed, find, insert, lookup, remove, create, blank, init_buckets,
}
use pml.Hashmap.Placed.{Placed-replicate}
use pml.Hashmap.Valid.{IsValid, binding}
use pml.Hashmap.Insert.{insert-Inserted, insert-ok}
use pml.Hashmap.Remove.{remove-Removed}

Status-cases : (s : Status) → (s ≡ ok) ⊎ (s ≡ failed)
Status-cases ok = inl refl
Status-cases failed = inr refl

-- The abstract map.
abbrev pub Map : Type 0
Map = ℕ → Option ℕ

pub data Op : Type 0 where
  put : ℕ → ℕ → Op
  del : ℕ → Op
  get : ℕ → Op

-- the status of a call, and the pointer that a lookup returns
abbrev pub Reply : Type 0
Reply = Status × ℕ

abbrev pub assign : ℕ → Option ℕ → Map → Map
assign k o m j = if k == j then o else m j

-- `0` when the key is bound.
abbrev bound : Option ℕ → Status
bound none = failed
bound (some _) = ok

unfoldable pub spec : Map → List Op → List Reply
spec m [] = []
spec m (put k v ∷ ops) = (ok, 0) ∷ spec (assign k (some v) m) ops
spec m (del k ∷ ops) = (bound (m k), 0) ∷ spec (assign k none m) ops
spec m (get k ∷ ops) = (ok, Option.get_or (m k) 0) ∷ spec m ops

module _ (hash : ℕ → ℕ) where
  -- The calls in order, each with the same budget of allocations.
  unfoldable pub run : ℕ → Table → List Op → List Reply
  run b t [] = []
  run b t (put k v ∷ ops) = let (s, t') = insert hash b k v t in (s, 0) ∷ run b t' ops
  run b t (del k ∷ ops) = let (s, t') = remove k t in (s, 0) ∷ run b t' ops
  run b t (get k ∷ ops) = (ok, lookup hash k t) ∷ run b t ops

  -- The table and the map agree on every key.
  abbrev Agree : Table → Map → Type 0
  Agree t m = (j : ℕ) → binding hash t j ≡ m j

  status :
      (k : ℕ) (t : Table) (o : Option ℕ)
      → IsValid hash t
      → binding hash t k ≡ o
      → (remove k t).0 ≡ bound o
  status k t none h e = elim (Status-cases (remove k t).0) [
    | inl s ↦ let f = (remove-Removed hash k h).found s in cc (f.1, e)
    | inr s ↦ s
  ]
  status k t (some v) h e = elim (Status-cases (remove k t).0) [
    | inl s ↦ s
    | inr s ↦ let f = ((remove-Removed hash k h).missing s).0 in cc (f, e)
  ]

  run-spec :
      (b : ℕ) (t : Table) (m : Map) (ops : List Op)
      → IsValid hash t
      → Agree t m
      → length ops + t.object_count + 2 ≤ b
      → b ≤ 2 ^ 58
      → run b t ops ≡ spec m ops
  unfolding run spec
  run-spec b t m [] h a p q = refl
  run-spec b t m (put k v ∷ ops) h a p q =
      let s : (insert hash b k v t).0 ≡ ok = insert-ok hash b k v t (omega (arith, h.counted)) in
      let i = insert-Inserted hash b k v h (omega arith) s in
      ap₂ ◌∷◌ (rw s) (
        run-spec b (insert hash b k v t).1 (assign k (some v) m) ops i.valid
          (λ j. i.updated j ∙ ap (λ o. if k == j then some v else o) (a j))
          (omega (arith, i.counter)) q)
  run-spec b t m (del k ∷ ops) h a p q =
      let r = remove-Removed hash k h in
      ap₂ ◌∷◌ (ap (λ s. (s, 0)) (status k t (m k) h (a k))) (
        run-spec b (remove k t).1 (assign k none m) ops r.valid
          (λ j. r.dropped j ∙ ap (λ o. if k == j then none else o) (a j)) (omega (arith, r.counter))
          q)
  run-spec b t m (get k ∷ ops) h a p q =
      ap₂ ◌∷◌ (unfold lookup in ap (λ o. (ok, Option.get_or o 0)) (a k))
        (run-spec b t m ops h a (omega arith) q)

  blank-binding : (j : ℕ) → binding hash blank j ≡ none
  blank-binding j =
      rw (get_or-replicate {A = Chain} init_buckets (hash j % init_buckets) [])
        (unfold find in refl)

  blank-IsValid : IsValid hash blank
  blank-IsValid = record {
    sized = refl;
    nonempty = omega arith;
    placed = Placed-replicate hash init_buckets init_buckets 0;
    counted = omega arith;
    load = omega arith;
  }

  -- From `hashmap_create` on, any sequence of insertions, removals and lookups returns what a map
  -- from keys to pointers returns, for every hash function, when each insertion may make as many
  -- allocations as there are calls, and two more.
  pub run_refines :
      (c b : ℕ) (ops : List Op) {t : Table}
      → create c ≡ some t
      → length ops + 2 ≤ b
      → b ≤ 2 ^ 58
      → run b t ops ≡ spec (λ j. none) ops
  unfolding create
  run_refines zero b ops e p q = cc
  run_refines (suc zero) b ops e p q = cc
  run_refines (suc (suc c)) b ops {t} e p q =
      let f : t ≡ blank = ground arith in
      rw f (run-spec b blank (λ j. none) ops blank-IsValid blank-binding (omega arith) q)
