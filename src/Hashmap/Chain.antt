-- ===== src/Hashmap/Chain.antt =====
-- Facts about single chains: what looking up, replacing, unlinking and appending do.
use pml.Common.{
  ℕ, zero, suc, ◌+◌, ◌<◌, ◌≡◌, refl, Option, none, some, List, [], ◌∷◌, ◌++◌, arith, ◌==◌,
  if◌then◌else◌, inl, inr, Option-cases, length, length-append, set,
}
use pml.Hashmap.{Chain, chain_at, find, replace, unlink}

abbrev pub or_else : Option ℕ → Option ℕ → Option ℕ
or_else none o = o
or_else (some a) o = some a

-- all entries of an array of chains, bucket after bucket
abbrev pub entries : List Chain → Chain
entries [] = []
entries (c ∷ cs) = c ++ entries cs

-- no key twice
abbrev pub Distinct : Chain → Type 0
Distinct [] = Unit
Distinct (e ∷ c) = (find e.key c ≡ none) × Distinct c

pub find-append : (k : ℕ) (c d : Chain) → find k (c ++ d) ≡ or_else (find k c) (find k d)
unfolding find
find-append k [] d = refl
find-append k (e ∷ c) d = ground (arith, find-append k c d)

pub replace-none : (k v : ℕ) (c : Chain) → replace k v c ≡ none → find k c ≡ none
unfolding find replace
replace-none k v [] h = refl
replace-none k v (e ∷ c) h = ground (arith, replace-none k v c)

pub find-replace :
    (k v j : ℕ) (c : Chain) {c' : Chain}
    → replace k v c ≡ some c'
    → find j c' ≡ (if k == j then some v else find j c)
unfolding find replace
find-replace k v j [] h = cc
find-replace k v j (e ∷ c) h = elim (Option-cases (replace k v c)) [
  | inl n ↦ ground (arith, n)
  | inr (r, s) ↦ ground (arith, s, find-replace k v j c s)
]

pub unlink-none : (k : ℕ) (c : Chain) → unlink k c ≡ none → find k c ≡ none
unfolding find unlink
unlink-none k [] h = refl
unlink-none k (e ∷ c) h = ground (arith, unlink-none k c)

pub unlink-some :
    (k : ℕ) (c : Chain) {c' : Chain} → unlink k c ≡ some c' → (v : ℕ) × (find k c ≡ some v)
unfolding find unlink
unlink-some k [] h = cc
unlink-some k (e ∷ c) h = elim (Option-cases (unlink k c)) [
  | inl n ↦ (e.value, ground (arith, n))
  | inr (r, s) ↦ (
    (if e.key == k then e.value else (unlink-some k c s).0),
    ground (arith, s, (unlink-some k c s).1),
  )
]

pub find-unlink :
    (k j : ℕ) (c : Chain) {c' : Chain}
    → Distinct c
    → unlink k c ≡ some c'
    → find j c' ≡ (if k == j then none else find j c)
unfolding find unlink
find-unlink k j [] d h = cc
find-unlink k j (e ∷ c) d h = elim (Option-cases (unlink k c)) [
  | inl n ↦ ground (arith, n)
  | inr (r, s) ↦ ground (arith, s, find-unlink k j c d.1 s)
]

pub length-entries-set :
    (bs : List Chain) (i : ℕ) (c : Chain)
    → i < length bs
    → length (entries (set bs i c)) + length (chain_at bs i) ≡ length (entries bs) + length c
length-entries-set [] i c h = absurd (omega arith)
length-entries-set (x ∷ bs) zero c h =
    omega (arith, length-append c (entries bs), length-append x (entries bs))
length-entries-set (x ∷ bs) (suc i) c h = omega (
  arith,
  length-append x (entries (set bs i c)),
  length-append x (entries bs),
  length-entries-set bs i c (omega arith),
)
