-- ===== src/Hashmap/Tests.antt =====
-- The hash table at small inputs, with the identity for a hash.
use pml.Common.{ℕ, ◌≡◌, refl, true, none, List, [], ◌∷◌, ◌++◌, arith, replicate}
use mathlib.Core.List.{map}
use pml.Hashmap.{
  put as put_in, enlarge, rehash, copy_chain, behind, replace, find, unlink, unlink_first, Chain,
  Table, ok, failed, blank, create, entry, insert, lookup, remove, iterate, push_back, release,
  free,
}
use pml.Hashmap.Valid.{IsValid, Inserted, binding}
use pml.Hashmap.Iterate.{record_visit, iterate-binding, free-values}
use pml.Hashmap.Chain.{entries}
use pml.Hashmap.Insert.{insert-Inserted, insert-ok}
use pml.Hashmap.Remove.{Removed, remove-Removed}
use pml.Hashmap.Refine.{Op, put, del, get, spec, run, run_refines}
use pml.Hashmap.Torn.{insert-torn}

abbrev same : ℕ → ℕ
same k = k

-- 3 and 19 share a bucket of the first sixteen.
abbrev script : List Op
script = put 3 30 ∷ put 19 31 ∷ get 19 ∷ put 3 32 ∷ get 3 ∷ del 3 ∷ del 3 ∷ get 3 ∷ get 19 ∷ []

run-script :
    run same 20 blank script
    ≡ (ok, 0)
      ∷ (ok, 0)
      ∷ (ok, 31)
      ∷ (ok, 0)
      ∷ (ok, 32)
      ∷ (ok, 0)
      ∷ (failed, 0)
      ∷ (ok, 0)
      ∷ (ok, 31)
      ∷ []
unfolding run insert put_in replace push_back find lookup remove unlink_first unlink
run-script = refl

-- a table with one entry, 3 ↦ 30, whose counter stands at the mark for doubling
abbrev one : Table
one = record {
  buckets = [] ∷ [] ∷ [] ∷ (entry 3 30 ∷ []) ∷ replicate 12 [];
  bucket_count = 16;
  object_count = 12;
}

one-IsValid : IsValid same one
unfolding find
one-IsValid = record {
  sized = refl;
  nonempty = omega arith;
  placed = ground arith;
  counted = omega arith;
  load = omega arith;
}

insert_doubles : (insert same 9 19 31 one).1.bucket_count ≡ 32
unfolding insert enlarge rehash copy_chain behind put_in replace push_back
insert_doubles = refl

iterate_order : iterate {S = List (ℕ × ℕ)} (λ k v s. (k, v) ∷ s) one [] ≡ (3, 30) ∷ []
unfolding iterate
iterate_order = refl

insert-Inserted_example : Inserted same 19 31 one (insert same 9 19 31 one).1
unfolding insert enlarge rehash copy_chain behind put_in replace push_back
insert-Inserted_example = insert-Inserted same 9 19 31 {t = one} one-IsValid (omega arith) refl

insert-ok_example : (insert same 3 19 31 one).0 ≡ ok
insert-ok_example = insert-ok same 3 19 31 one (omega arith)

remove-Removed_example : Removed same 3 one (remove 3 one).0 (remove 3 one).1
remove-Removed_example = remove-Removed same 3 {t = one} one-IsValid

run_refines_example : run same 20 blank script ≡ spec (λ j. none) script
unfolding create
run_refines_example = run_refines same 2 20 script {t = blank} refl (omega arith) (omega arith)

-- two entries, and memory for the new array and one copy
abbrev two : Table
two = record {
  buckets = (entry 0 8 ∷ []) ∷ (entry 1 9 ∷ []) ∷ replicate 14 [];
  bucket_count = 16;
  object_count = 12;
}

insert-torn_example :
    ((insert same 2 5 7 two).0 ≡ failed)
    × ((rest : List Chain) × ((insert same 2 5 7 two).1.buckets
          ≡ map release ((entry 0 8 ∷ []) ∷ []) ++ rest))
insert-torn_example =
    insert-torn same 2 5 7 two ((entry 0 8 ∷ []) ∷ []) ((entry 1 9 ∷ []) ∷ replicate 14 []) refl
      (omega arith) (omega arith) (omega arith)

iterate-binding_example : iterate record_visit one (λ _. none) 3 ≡ binding same one 3
iterate-binding_example = iterate-binding same {t = one} 3 one-IsValid

free-values_example :
    free true two.buckets ≡ (map (λ e. e.value) (entries two.buckets), map release two.buckets)
free-values_example = free-values two.buckets
