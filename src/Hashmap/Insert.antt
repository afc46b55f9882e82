-- ===== src/Hashmap/Insert.antt =====
-- `hashmap_insert`: it keeps the invariant, updates the one key, and succeeds when memory suffices.
use pml.Common.{
  ℕ, zero, suc, ◌+◌, ◌*◌, ◌-◌, ◌/◌, ◌%◌, ◌^◌, ◌≤◌, ◌<◌, ◌≡◌, refl, ◌∙◌, ap, none, some, List, [],
  ◌∷◌, ◌++◌, arith, ◌==◌, leb, if◌then◌else◌, inl, inr, Option-cases, Bool-cases, All, length,
  length-append, length-set, length-replicate, replicate, set, get_or-set_self, get_or-set_ne,
  get_or-replicate, ==_ne, ◌⊎◌, leb→le,
}
use mathlib.Core.Path.{subst}
use native.Mathlib.Decide.{ℕ_discrete}
use native.Mathlib.Nat.{mod-lt}
use pml.Hashmap.{
  Chain, Table, ok, chain_at, push_back, entry, find, replace, rehash, Rehashed, grown, torn, put,
  enlarge, insert, mul_size, copy_chain,
}
use pml.Hashmap.Chain.{entries, length-entries-set, find-replace, replace-none}
use pml.Hashmap.Placed.{
  Placed-set, Placed-chain_at, Placed-replicate, GoodChain-replace, Distinct-entries, find-entries,
}
use pml.Hashmap.Rehash.{
  held, held-push_back, Placed-push_back, length-push_back, rehash-copy, length-copy,
  length-entries-copy, held-copy, Placed-copy, rehash-total, or_else-none,
}
use pml.Hashmap.Valid.{
  IsValid, Inserted, Updated, binding, length-replace, length-entries-replicate,
}

Rehashed-cases :
    (r : Rehashed)
    → ((new : List Chain) × (b : ℕ) × (r ≡ grown new b)) ⊎ ((old : List Chain) × (r ≡ torn old))
Rehashed-cases (grown new b) = inl (new, b, refl)
Rehashed-cases (torn old) = inr (old, refl)

module _ (hash : ℕ → ℕ) where
  module _ (k v : ℕ) (t : Table) (h : IsValid hash t) where
    abbrev slot : ℕ
    slot = hash k % t.bucket_count

    slot_in : slot < length t.buckets
    slot_in = omega (arith, mod-lt (hash k) h.nonempty, h.sized)

    replaced-Updated :
        {c : Chain}
        → replace k v (chain_at t.buckets slot) ≡ some c
        → Updated hash k v t (record t { buckets = set t.buckets slot c })
    replaced-Updated {c} r j = elim (ℕ_discrete slot (hash j % t.bucket_count)) [
      | yes e ↦
          rw (← e, get_or-set_self t.buckets slot c [] slot_in)
            (find-replace k v j (chain_at t.buckets slot) r)
      | no n ↦ rw (
        get_or-set_ne t.buckets slot (hash j % t.bucket_count) c [] n,
        ==_ne k j (λ q. n (ap (λ i. hash i % t.bucket_count) q)),
      )
    ]

    replaced-Inserted :
        {c : Chain}
        → replace k v (chain_at t.buckets slot) ≡ some c
        → Inserted hash k v t (record t { buckets = set t.buckets slot c })
    replaced-Inserted {c} r = record {
      valid = record {
        sized = length-set t.buckets slot c ∙ h.sized;
        nonempty = h.nonempty;
        placed =
            Placed-set hash t.bucket_count 0 slot t.buckets c
              (GoodChain-replace hash t.bucket_count (0 + slot) k v (chain_at t.buckets slot) r
                (Placed-chain_at hash t.bucket_count 0 slot t.buckets h.placed))
              h.placed;
        counted = omega (
          arith,
          length-entries-set t.buckets slot c slot_in,
          length-replace k v (chain_at t.buckets slot) r,
          h.counted,
        );
        load = h.load;
      };
      updated = replaced-Updated r;
      counter = omega arith;
    }

    abbrev appended : Table
    appended = record t {
      buckets = push_back t.buckets slot (entry k v);
      object_count = (t.object_count + 1) % 2 ^ 64;
    }

    appended-Updated : replace k v (chain_at t.buckets slot) ≡ none → Updated hash k v t appended
    appended-Updated r j =
        held-push_back hash t.bucket_count t.buckets k v j slot_in ∙ elim (ℕ_discrete k j) [
          | yes e ↦
              let f : binding hash t j ≡ none =
                subst (λ x. binding hash t x ≡ none) e
                  (replace-none k v (chain_at t.buckets slot) r) in
              rw f
          | no n ↦ rw (==_ne k j n, or_else-none)
        ]

    appended-Inserted :
        t.object_count < 2 ^ 63
        → replace k v (chain_at t.buckets slot) ≡ none
        → Inserted hash k v t appended
    appended-Inserted small r = record {
      valid = record {
        sized = length-push_back t.buckets slot (entry k v) ∙ h.sized;
        nonempty = h.nonempty;
        placed =
            Placed-push_back hash t.bucket_count t.buckets k v
              (replace-none k v (chain_at t.buckets slot) r) h.placed;
        counted =
            unfold push_back in
            omega (
              arith,
              length-entries-set t.buckets slot (chain_at t.buckets slot ++ (entry k v ∷ []))
                  slot_in,
              length-append (chain_at t.buckets slot) (entry k v ∷ []),
              h.counted,
            );
        load = omega (arith, h.load);
      };
      updated = appended-Updated r;
      counter = omega arith;
    }

  put-Inserted :
      (b k v : ℕ) (t : Table)
      → IsValid hash t
      → t.object_count < 2 ^ 63
      → (put hash b k v t).0 ≡ ok
      → Inserted hash k v t (put hash b k v t).1
  unfolding put
  put-Inserted b k v t h small s =
      elim (Option-cases (replace k v (chain_at t.buckets (hash k % t.bucket_count)))) [
        | inl n ↦ fresh b s n
        | inr (c, r) ↦ rw (r, put) (replaced-Inserted k v t h r)
      ]
    where
      fresh :
          (a : ℕ)
          → (put hash a k v t).0 ≡ ok
          → replace k v (chain_at t.buckets (hash k % t.bucket_count)) ≡ none
          → Inserted hash k v t (put hash a k v t).1
      fresh zero q n = ground (arith, n)
      fresh (suc a) q n = rw (n, put) (appended-Inserted k v t h small n)

  -- One more allocation is all that the insertion needs once the table has its size.
  put-ok : (b k v : ℕ) (t : Table) → 0 < b → (put hash b k v t).0 ≡ ok
  unfolding put
  put-ok zero k v t p = absurd (omega arith)
  put-ok (suc b) k v t p = ground arith

  module _ (t : Table) (h : IsValid hash t) (small : t.object_count < 2 ^ 58) where
    abbrev double : ℕ
    double = mul_size t.bucket_count 2

    abbrev moved : List Chain → Table
    moved new = record t { buckets = new; bucket_count = double }

    held-blank : (j : ℕ) → held hash double (replicate double []) j ≡ none
    held-blank j =
        rw (get_or-replicate {A = Chain} double (hash j % double) []) (unfold find in refl)

    All-blank : (c : Chain) → All (λ e. held hash double (replicate double []) e.key ≡ none) c
    All-blank [] = tt
    All-blank (e ∷ c) = (held-blank e.key, All-blank c)

    module _ (b : ℕ) {b' : ℕ} {new : List Chain}
        (r : rehash hash double t.buckets (replicate double []) b ≡ grown new b') where
      copied : copy_chain hash double (entries t.buckets) (replicate double []) b ≡ some (new, b')
      copied = rehash-copy hash double t.buckets (replicate double []) b r

      -- The doubled table maps every key as before.
      moved-binding : (j : ℕ) → binding hash (moved new) j ≡ binding hash t j
      moved-binding j =
          held-copy hash double (entries t.buckets) (replicate double []) b j
            (omega (arith, h.nonempty, h.load)) (length-replicate double []) copied
          ∙ rw (held-blank j) (
              find-entries hash t.bucket_count j 0 t.buckets h.placed (omega arith)
              ∙ ap (λ i. find j (chain_at t.buckets i)) (omega arith))

      moved-IsValid : 3 * t.bucket_count / 4 ≤ t.object_count → IsValid hash (moved new)
      moved-IsValid full = record {
        sized =
            (length-copy hash double (entries t.buckets) (replicate double []) b copied).0
            ∙ length-replicate double [];
        nonempty = omega (arith, h.nonempty, h.load);
        placed =
            Placed-copy hash double (entries t.buckets) (replicate double []) b
              (omega (arith, h.nonempty, h.load)) (length-replicate double [])
              (Distinct-entries hash t.bucket_count 0 t.buckets h.placed)
              (All-blank (entries t.buckets)) (Placed-replicate hash double double 0) copied;
        counted = omega (
          arith,
          length-entries-copy hash double (entries t.buckets) (replicate double []) b
              (omega (arith, h.nonempty, h.load)) (length-replicate double []) copied,
          length-entries-replicate double,
          h.counted,
        );
        load = omega (arith, h.load);
      }

  -- Enlarging keeps what the table holds, so the insertion after it is the one that was asked for.
  enlarge-Inserted :
      (b k v : ℕ) (t : Table)
      → IsValid hash t
      → t.object_count < 2 ^ 58
      → 3 * t.bucket_count / 4 ≤ t.object_count
      → (enlarge hash b k v t).0 ≡ ok
      → Inserted hash k v t (enlarge hash b k v t).1
  unfolding enlarge
  enlarge-Inserted zero k v t h small full s = cc
  enlarge-Inserted (suc b) k v t h small full s =
      elim (Rehashed-cases
        (rehash hash (double t h small) t.buckets (replicate (double t h small) []) b)) [
          | inl (new, b', r) ↦
              let done =
                put-Inserted b' k v (moved t h small new) (moved-IsValid t h small b r full)
                  (omega arith) (rw (r, enlarge) at s) in
              rw (r, enlarge)
                (record {
                  valid = done.valid;
                  updated = λ j.
                      done.updated j
                      ∙ ap (λ o. if k == j then some v else o) (moved-binding t h small b r j);
                  counter = done.counter;
                })
          | inr (old, r) ↦ ground (arith, r)
        ]

  -- `hashmap_insert` that returns 0 maps the key to the value, leaves every other key as it was and
  -- keeps the invariant, for a table of fewer than 2 ^ 58 objects.
  pub insert-Inserted :
      (b k v : ℕ) {t : Table}
      → IsValid hash t
      → t.object_count < 2 ^ 58
      → (insert hash b k v t).0 ≡ ok
      → Inserted hash k v t (insert hash b k v t).1
  unfolding insert
  insert-Inserted b k v {t} h small s =
      elim (Bool-cases (leb (mul_size t.bucket_count 3 / 4) t.object_count)) [
        | inl e ↦
            rw e
              (enlarge-Inserted b k v t h small (omega (arith, leb→le _ _ e, h.load)) (rw e at s))
        | inr e ↦ rw e (put-Inserted b k v t h (omega arith) (rw e at s))
      ]

  -- `hashmap_insert` returns 0 when the allocator can serve two allocations and one for each entry.
  pub insert-ok :
      (b k v : ℕ) (t : Table) → length (entries t.buckets) + 2 ≤ b → (insert hash b k v t).0 ≡ ok
  unfolding insert enlarge
  insert-ok zero k v t p = absurd (omega arith)
  insert-ok (suc b) k v t p =
      elim (Bool-cases (leb (mul_size t.bucket_count 3 / 4) t.object_count)) [
        | inl e ↦
            let c : ℕ = mul_size t.bucket_count 2 in
            let (n, r) = rehash-total hash c t.buckets (replicate c []) b (omega arith) in
            rw e (rw (r, enlarge) (put-ok (b - length (entries t.buckets)) k v _ (omega arith)))
        | inr e ↦ rw e (put-ok (suc b) k v t (omega arith))
      ]
