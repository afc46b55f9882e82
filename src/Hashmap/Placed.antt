-- ===== src/Hashmap/Placed.antt =====
-- Where entries stand: every entry of the chain at `i` is live and hashes to `i`, and no chain has
-- a key twice. Looking a key up in its own bucket is then the same as looking it up everywhere.
use pml.Common.{
  ℕ, zero, suc, ◌+◌, ◌-◌, ◌%◌, ◌≤◌, ◌<◌, ◌≡◌, refl, ◌≢◌, true, none, some, List, [], ◌∷◌, ◌++◌,
  arith, inl, inr, Option-cases, All, All-append, set, replicate,
}
use mathlib.Core.Path.{subst}
use native.Mathlib.Decide.{dec_lt}
use pml.Hashmap.{Entry, Chain, chain_at, entry, find, replace, unlink}
use pml.Hashmap.Chain.{entries, Distinct, find-append, find-replace, find-unlink}

pub Distinct-append :
    (c : Chain) (e : Entry) → Distinct c → find e.key c ≡ none → Distinct (c ++ (e ∷ []))
unfolding find
Distinct-append [] e d h = (refl, tt)
Distinct-append (f ∷ c) e d h =
    (ground (arith, find-append f.key c (e ∷ [])), Distinct-append c e d.1 (ground arith))

pub Distinct-replace :
    (k v : ℕ) (c : Chain) {c' : Chain} → replace k v c ≡ some c' → Distinct c → Distinct c'
unfolding replace
Distinct-replace k v [] h d = cc
Distinct-replace k v (e ∷ c) h d = elim (Option-cases (replace k v c)) [
  | inl n ↦ ground (arith, n)
  | inr (r, s) ↦ ground (arith, s, Distinct-replace k v c s, find-replace k v e.key c s)
]

pub Distinct-unlink :
    (k : ℕ) (c : Chain) {c' : Chain} → unlink k c ≡ some c' → Distinct c → Distinct c'
unfolding unlink
Distinct-unlink k [] h d = cc
Distinct-unlink k (e ∷ c) h d = elim (Option-cases (unlink k c)) [
  | inl n ↦ ground (arith, n)
  | inr (r, s) ↦ ground (arith, s, Distinct-unlink k c s, find-unlink k e.key c d.1 s)
]

Distinct-join :
    (c d : Chain) → All (λ e. find e.key d ≡ none) c → Distinct c → Distinct d → Distinct (c ++ d)
Distinct-join [] d a p q = q
Distinct-join (e ∷ c) d a p q = (ground (arith, find-append e.key c d), Distinct-join c d a.1 p.1 q)

module _ (hash : ℕ → ℕ) (count : ℕ) where
  abbrev pub InBucket : ℕ → Entry → Type 0
  InBucket i e = (hash e.key % count ≡ i) × (e.live ≡ true)

  abbrev pub GoodChain : ℕ → Chain → Type 0
  GoodChain i c = All (InBucket i) c × Distinct c

  -- the chains of an array from index `i` on
  abbrev pub Placed : ℕ → List Chain → Type 0
  Placed i [] = Unit
  Placed i (c ∷ cs) = GoodChain i c × Placed (suc i) cs

  All-replace :
      (i k v : ℕ) (c : Chain) {c' : Chain}
      → replace k v c ≡ some c'
      → All (InBucket i) c
      → All (InBucket i) c'
  unfolding replace
  All-replace i k v [] h d = cc
  All-replace i k v (e ∷ c) h d = elim (Option-cases (replace k v c)) [
    | inl n ↦ ground (arith, n)
    | inr (r, s) ↦ ground (arith, s, All-replace i k v c s)
  ]

  All-unlink :
      (i k : ℕ) (c : Chain) {c' : Chain}
      → unlink k c ≡ some c'
      → All (InBucket i) c
      → All (InBucket i) c'
  unfolding unlink
  All-unlink i k [] h d = cc
  All-unlink i k (e ∷ c) h d = elim (Option-cases (unlink k c)) [
    | inl n ↦ ground (arith, n)
    | inr (r, s) ↦ ground (arith, s, All-unlink i k c s)
  ]

  pub GoodChain-replace :
      (i k v : ℕ) (c : Chain) {c' : Chain}
      → replace k v c ≡ some c'
      → GoodChain i c
      → GoodChain i c'
  GoodChain-replace i k v c h g = (All-replace i k v c h g.0, Distinct-replace k v c h g.1)

  pub GoodChain-unlink :
      (i k : ℕ) (c : Chain) {c' : Chain} → unlink k c ≡ some c' → GoodChain i c → GoodChain i c'
  GoodChain-unlink i k c h g = (All-unlink i k c h g.0, Distinct-unlink k c h g.1)

  pub GoodChain-append :
      (i k v : ℕ) (c : Chain)
      → hash k % count ≡ i
      → find k c ≡ none
      → GoodChain i c
      → GoodChain i (c ++ (entry k v ∷ []))
  GoodChain-append i k v c h f g = (
    All-append (InBucket i) c (entry k v ∷ []) g.0 ((h, refl), tt),
    Distinct-append c (entry k v) g.1 f,
  )

  pub Placed-replicate : (n i : ℕ) → Placed i (replicate n [])
  Placed-replicate zero i = tt
  Placed-replicate (suc n) i = ((tt, tt), Placed-replicate n (suc i))

  pub Placed-chain_at :
      (off i : ℕ) (cs : List Chain) → Placed off cs → GoodChain (off + i) (chain_at cs i)
  Placed-chain_at off i [] p = (tt, tt)
  Placed-chain_at off zero (c ∷ cs) p =
      subst (λ k. GoodChain k c) (let e : off ≡ off + 0 = omega arith in e) p.0
  Placed-chain_at off (suc i) (c ∷ cs) p =
      subst (λ k. GoodChain k (chain_at cs i))
        (let e : suc off + i ≡ off + suc i = omega arith in e) (Placed-chain_at (suc off) i cs p.1)

  pub Placed-set :
      (off i : ℕ) (cs : List Chain) (c : Chain)
      → GoodChain (off + i) c
      → Placed off cs
      → Placed off (set cs i c)
  Placed-set off i [] c g p = tt
  Placed-set off zero (x ∷ cs) c g p =
      (subst (λ k. GoodChain k c) (let e : off + 0 ≡ off = omega arith in e) g, p.1)
  Placed-set off (suc i) (x ∷ cs) c g p = (
    p.0,
    Placed-set (suc off) i cs c
        (subst (λ k. GoodChain k c) (let e : off + suc i ≡ suc off + i = omega arith in e) g) p.1,
  )

  -- A chain of another bucket does not hold the key.
  find-other : (i k : ℕ) (c : Chain) → All (InBucket i) c → hash k % count ≢ i → find k c ≡ none
  unfolding find
  find-other i k [] g h = refl
  find-other i k (e ∷ c) g h = ground (arith, find-other i k c g.1)

  -- Nor do the chains behind it.
  pub find-below :
      (k off : ℕ) (cs : List Chain)
      → Placed off cs
      → hash k % count < off
      → find k (entries cs) ≡ none
  find-below k off [] p h = unfold find in refl
  find-below k off (c ∷ cs) p h =
      ground (
        arith,
        find-append k c (entries cs),
        find-other off k c p.0.0,
        find-below k (suc off) cs p.1,
      )

  -- The bucket of a key holds all there is of it.
  pub find-entries :
      (k off : ℕ) (cs : List Chain)
      → Placed off cs
      → off ≤ hash k % count
      → find k (entries cs) ≡ find k (chain_at cs (hash k % count - off))
  find-entries k off [] p h = refl
  find-entries k off (c ∷ cs) p h = elim (dec_lt off (hash k % count)) [
    | yes l ↦
        let e : hash k % count - off ≡ suc (hash k % count - suc off) = omega arith in
        rw e (
          ground (
            arith,
            find-append k c (entries cs),
            find-other off k c p.0.0,
            find-entries k (suc off) cs p.1,
          ))
    | no g ↦
        let e : hash k % count - off ≡ 0 = omega arith in
        rw e (ground (arith, find-append k c (entries cs), find-below k (suc off) cs p.1))
  ]

  -- No key stands twice in the whole array.
  pub Distinct-entries : (off : ℕ) (cs : List Chain) → Placed off cs → Distinct (entries cs)
  Distinct-entries off [] p = tt
  Distinct-entries off (c ∷ cs) p =
      Distinct-join c (entries cs) (apart c p.0.0) p.0.1 (Distinct-entries (suc off) cs p.1)
    where
      apart : (d : Chain) → All (InBucket off) d → All (λ e. find e.key (entries cs) ≡ none) d
      apart [] a = tt
      apart (e ∷ d) a = (find-below e.key (suc off) cs p.1 (omega arith), apart d a.1)
