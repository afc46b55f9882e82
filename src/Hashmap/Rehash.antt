-- ===== src/Hashmap/Rehash.antt =====
-- The doubling of the array: what the copies hold, how many allocations they take, and in which
-- state a failed allocation leaves the old array.
use pml.Common.{
  ℕ, zero, suc, ◌+◌, ◌%◌, ◌≤◌, ◌<◌, ◌≡◌, refl, ◌∙◌, Bool, true, false, Option, none, some, ap, List,
  [], ◌∷◌, ◌++◌, arith, ◌==◌, if◌then◌else◌, inl, inr, Option-cases, All, length, length-append,
  set, get_or-set_self, get_or-set_ne, length-set, ==_ne, ◌-◌,
}
use native.Mathlib.Decide.{ℕ_discrete}
use native.Mathlib.Nat.{mod-lt}
use pml.Hashmap.{
  Entry, Chain, chain_at, push_back, entry, find, copy_chain, rehash, Rehashed, grown, torn, behind,
  release,
}
use pml.Hashmap.Chain.{length-entries-set, or_else, entries, Distinct, find-append}
use pml.Hashmap.Placed.{Placed, Placed-set, Placed-chain_at, GoodChain-append}

or_else_assoc : (a b c : Option ℕ) → or_else (or_else a b) c ≡ or_else a (or_else b c)
or_else_assoc none b c = refl
or_else_assoc (some a) b c = refl

-- Cutting a list of entries in two cuts the copying in two.
abbrev and_then :
    Option (List Chain × ℕ) → (List Chain → ℕ → Option (List Chain × ℕ)) → Option (List Chain × ℕ)
and_then none f = none
and_then (some (new, b)) f = f new b

pub or_else-none : (a : Option ℕ) → or_else a none ≡ a
or_else-none none = refl
or_else-none (some a) = refl

or_else-if :
    (b : Bool) (v : ℕ) (o : Option ℕ)
    → or_else (if b then some v else none) o ≡ (if b then some v else o)
or_else-if true v o = refl
or_else-if false v o = refl

pub length-push_back : (bs : List Chain) (i : ℕ) (e : Entry) → length (push_back bs i e) ≡ length bs
unfolding push_back
length-push_back bs i e = length-set bs i (chain_at bs i ++ (e ∷ []))

module _ (hash : ℕ → ℕ) (count : ℕ) where
  -- what the array holds of a key in the key's bucket
  abbrev pub held : List Chain → ℕ → Option ℕ
  held bs k = find k (chain_at bs (hash k % count))

  pub held-push_back :
      (bs : List Chain) (k v j : ℕ)
      → hash k % count < length bs
      → held (push_back bs (hash k % count) (entry k v)) j
        ≡ or_else (held bs j) (if k == j then some v else none)
  unfolding push_back
  held-push_back bs k v j h = elim (ℕ_discrete (hash k % count) (hash j % count)) [
    | yes e ↦
        rw (← e, get_or-set_self bs (hash k % count) _ [] h)
          (find-append j (chain_at bs (hash k % count)) (entry k v ∷ []) ∙ unfold find in refl)
    | no n ↦
        let e : (k == j) ≡ false = ==_ne k j (λ q. n (ap (λ i. hash i % count) q)) in
        rw (get_or-set_ne bs (hash k % count) (hash j % count) _ [] n, e, or_else-none)
  ]

  pub Placed-push_back :
      (bs : List Chain) (k v : ℕ)
      → held bs k ≡ none
      → Placed hash count 0 bs
      → Placed hash count 0 (push_back bs (hash k % count) (entry k v))
  unfolding push_back
  Placed-push_back bs k v f p =
      let e : 0 + hash k % count ≡ hash k % count = omega arith in
      Placed-set hash count 0 (hash k % count) bs _
        (rw e (
          GoodChain-append hash count (hash k % count) k v _ refl f
            (rw e at (Placed-chain_at hash count 0 (hash k % count) bs p))))
        p

  copy_chain-append :
      (c d : Chain) (new : List Chain) (b : ℕ)
      → copy_chain hash count (c ++ d) new b
        ≡ and_then (copy_chain hash count c new b) (λ n r. copy_chain hash count d n r)
  unfolding copy_chain
  copy_chain-append [] d new b = refl
  copy_chain-append (e ∷ c) d new zero = refl
  copy_chain-append (e ∷ c) d new (suc b) = copy_chain-append c d _ b

  grown-behind :
      (c : Chain) (r : Rehashed) {new : List Chain} {b : ℕ}
      → behind c r ≡ grown new b
      → r ≡ grown new b
  unfolding behind
  grown-behind c (grown n b) h = h
  grown-behind c (torn old) h = cc

  -- Rehashing bucket by bucket is copying all the entries in that order.
  pub rehash-copy :
      (cs new : List Chain) (b : ℕ) {new' : List Chain} {b' : ℕ}
      → rehash hash count cs new b ≡ grown new' b'
      → copy_chain hash count (entries cs) new b ≡ some (new', b')
  unfolding rehash
  rehash-copy [] new b h = unfold copy_chain in ground arith
  rehash-copy (c ∷ cs) new b h = elim (Option-cases (copy_chain hash count c new b)) [
    | inl n ↦ ground (arith, n)
    | inr ((n, r), s) ↦
        rw (copy_chain-append c (entries cs) new b, s)
          (rehash-copy cs n r
            (grown-behind (release c) (rehash hash count cs n r) (rw (s, rehash) at h)))
  ]

  pub length-entries-copy :
      (c : Chain) (new : List Chain) (b : ℕ) {new' : List Chain} {b' : ℕ}
      → 0 < count
      → length new ≡ count
      → copy_chain hash count c new b ≡ some (new', b')
      → length (entries new') ≡ length (entries new) + length c
  unfolding copy_chain push_back
  length-entries-copy [] new b p l h = ground arith
  length-entries-copy (e ∷ c) new zero p l h = cc
  length-entries-copy (e ∷ c) new (suc b) p l h =
      let i : ℕ = hash e.key % count in
      let d : Chain = chain_at new i ++ (entry e.key e.value ∷ []) in
      omega (
        arith,
        length-entries-copy c (set new i d) b p (length-set new i d ∙ l) h,
        length-entries-set new i d (omega (arith, mod-lt (hash e.key) p)),
        length-append (chain_at new i) (entry e.key e.value ∷ []),
      )

  pub length-copy :
      (c : Chain) (new : List Chain) (b : ℕ) {new' : List Chain} {b' : ℕ}
      → copy_chain hash count c new b ≡ some (new', b')
      → (length new' ≡ length new) × (b' + length c ≡ b)
  unfolding copy_chain
  length-copy [] new b h = ground arith
  length-copy (e ∷ c) new zero h = cc
  length-copy (e ∷ c) new (suc b) h =
      ground (
        arith,
        length-copy c _ b h,
        length-push_back new (hash e.key % count) (entry e.key e.value),
      )

  -- The copies add to a key what the chain holds of it, and only where the array holds nothing.
  pub held-copy :
      (c : Chain) (new : List Chain) (b : ℕ) {new' : List Chain} {b' : ℕ} (j : ℕ)
      → 0 < count
      → length new ≡ count
      → copy_chain hash count c new b ≡ some (new', b')
      → held new' j ≡ or_else (held new j) (find j c)
  unfolding copy_chain find
  held-copy [] new b {new'} j p l h = let e : new' ≡ new = ground arith in rw (e, or_else-none)
  held-copy (e ∷ c) new zero j p l h = cc
  held-copy (e ∷ c) new (suc b) {new'} j p l h =
      let i : ℕ = hash e.key % count in
      held-copy c (push_back new i (entry e.key e.value)) b j p
        (length-push_back new i (entry e.key e.value) ∙ l) h
      ∙ rw
          (held-push_back new e.key e.value j (omega (arith, mod-lt (hash e.key) p)), or_else_assoc)
          (ap (or_else (held new j)) (or_else-if (e.key == j) e.value (find j c)))

  -- Enough memory lets the copies be made.
  pub copy_chain-total :
      (c : Chain) (new : List Chain) (b : ℕ)
      → length c ≤ b
      → (new' : List Chain) × (copy_chain hash count c new b ≡ some (new', b - length c))
  unfolding copy_chain
  copy_chain-total [] new b h = (new, ground arith)
  copy_chain-total (e ∷ c) new zero h = absurd (omega arith)
  copy_chain-total (e ∷ c) new (suc b) h =
      let (n, s) =
        copy_chain-total c (push_back new (hash e.key % count) (entry e.key e.value)) b
          (omega arith) in
      (n, ground (arith, s))

  pub rehash-total :
      (cs new : List Chain) (b : ℕ)
      → length (entries cs) ≤ b
      → (new' : List Chain) × (rehash hash count cs new b ≡ grown new' (b - length (entries cs)))
  unfolding rehash behind
  rehash-total [] new b h = (new, ground arith)
  rehash-total (c ∷ cs) new b h =
      let l : length (entries (c ∷ cs)) ≡ length c + length (entries cs) =
        length-append c (entries cs) in
      let (n, s) = copy_chain-total c new b (omega arith) in
      let (n', s') = rehash-total cs n (b - length c) (omega arith) in
      (n', rw (s, rehash) (rw s' (ap (grown n') (omega arith))))

  -- The copies stand where they belong.
  pub Placed-copy :
      (c : Chain) (new : List Chain) (b : ℕ) {new' : List Chain} {b' : ℕ}
      → 0 < count
      → length new ≡ count
      → Distinct c
      → All (λ e. held new e.key ≡ none) c
      → Placed hash count 0 new
      → copy_chain hash count c new b ≡ some (new', b')
      → Placed hash count 0 new'
  unfolding copy_chain find
  Placed-copy [] new b {new'} p l d a g h = let e : new' ≡ new = ground arith in rw e g
  Placed-copy (e ∷ c) new zero p l d a g h = cc
  Placed-copy (e ∷ c) new (suc b) p l d a g h =
      Placed-copy c (push_back new i (entry e.key e.value)) b p
        (length-push_back new i (entry e.key e.value) ∙ l) d.1 (apart c d.0 a.1)
        (Placed-push_back new e.key e.value a.0 g) h
    where
      i : ℕ
      i = hash e.key % count

      apart :
          (f : Chain)
          → find e.key f ≡ none
          → All (λ x. held new x.key ≡ none) f
          → All (λ x. held (push_back new i (entry e.key e.value)) x.key ≡ none) f
      apart [] q r = tt
      apart (x ∷ f) q r = ground (
        arith,
        held-push_back new e.key e.value x.key (omega (arith, mod-lt (hash e.key) p)),
        apart f,
      )
