-- ===== src/Hashmap/Iterate.antt =====
-- `hashmap_iterate` and `hashmap_free` visit every entry once.
use mathlib.Core.List.{map, map-append}
use pml.Common.{ℕ, ◌≡◌, refl, ◌∙◌, sym, ap, true, none, some, List, [], ◌∷◌, ◌++◌, arith, ==_ne}
use mathlib.Core.Path.{subst}
use native.Mathlib.Decide.{ℕ_discrete}
use pml.Hashmap.{
  Chain, Table, find, iterate, iterate_chain, iterate_buckets, free, free_chain, release,
}
use pml.Hashmap.Chain.{or_else, entries, Distinct}
use pml.Hashmap.Placed.{Distinct-entries}
use pml.Hashmap.Rehash.{or_else-none}
use pml.Hashmap.Valid.{IsValid, binding}
use pml.Hashmap.Remove.{binding-entries}
use pml.Hashmap.Refine.{Map, assign}

iterate_chain-append {ℓ} :
    {S : Type ℓ} (func : ℕ → ℕ → S → S) (c d : Chain) (s : S)
    → iterate_chain func (c ++ d) s ≡ iterate_chain func d (iterate_chain func c s)
unfolding iterate_chain
iterate_chain-append func [] d s = refl
iterate_chain-append func (e ∷ c) d s = iterate_chain-append func c d (func e.key e.value s)

iterate_buckets-entries {ℓ} :
    {S : Type ℓ} (func : ℕ → ℕ → S → S) (cs : List Chain) (s : S)
    → iterate_buckets func cs s ≡ iterate_chain func (entries cs) s
unfolding iterate_buckets
iterate_buckets-entries func [] s = refl
iterate_buckets-entries func (c ∷ cs) s =
    iterate_buckets-entries func cs (iterate_chain func c s)
    ∙ sym (iterate_chain-append func c (entries cs) s)

-- the callback that records a visit
abbrev pub record_visit : ℕ → ℕ → Map → Map
record_visit k v m = assign k (some v) m

iterate_chain-find :
    (c : Chain) (m : Map) (j : ℕ)
    → Distinct c
    → iterate_chain record_visit c m j ≡ or_else (find j c) (m j)
unfolding iterate_chain find
iterate_chain-find [] m j d = refl
iterate_chain-find (e ∷ c) m j d =
    iterate_chain-find c (record_visit e.key e.value m) j d.1 ∙ elim (ℕ_discrete e.key j) [
      | yes p ↦ let f : find j c ≡ none = subst (λ x. find x c ≡ none) p d.0 in rw f (ground arith)
      | no n ↦ rw (==_ne e.key j n)
    ]

-- Recording the visits of `hashmap_iterate` in a map gives the map that the table stands for.
pub iterate-binding :
    (hash : ℕ → ℕ) {t : Table} (j : ℕ)
    → IsValid hash t
    → iterate record_visit t (λ _. none) j ≡ binding hash t j
unfolding iterate
iterate-binding hash {t} j h =
    ap (λ (m : Map). m j) (iterate_buckets-entries record_visit t.buckets (λ _. none))
    ∙ iterate_chain-find (entries t.buckets) (λ _. none) j
        (Distinct-entries hash t.bucket_count 0 t.buckets h.placed)
    ∙ rw or_else-none (sym (binding-entries hash t j h.placed))

values : Chain → List ℕ
values c = map (λ e. e.value) c

free_chain_lem : (c : Chain) → free_chain true c ≡ (values c, release c)
unfolding free_chain values release
free_chain_lem [] = refl
free_chain_lem (e ∷ c) = rw (free_chain_lem c)

-- `hashmap_free` with a `free_func` calls it on the value of every entry, bucket after bucket, and
-- frees every entry.
pub free-values :
    (cs : List Chain) → free true cs ≡ (map (λ e. e.value) (entries cs), map release cs)
unfolding free values
free-values [] = refl
free-values (c ∷ cs) = rw (free_chain_lem c, free-values cs, map-append) refl
