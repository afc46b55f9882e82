-- ===== src/Hashmap.antt =====
-- The hash table of util/map.c with integer keys (`struct hashmap` and the `hashmap_` functions).
-- The hash is a parameter: the file calls `siphash` on the eight bytes of the key, and what is proved holds for every function.
-- A pointer is a number, 0 for NULL. A chain is the list of its entries from the head on; an entry
-- that was given to `free` while a chain still reaches it stays in the chain with `live` false.
-- A call allocates in a fixed order and returns at the first allocation that fails, so what an
-- allocator does during one call is the number of its allocations that succeed (`budget`).
pub mod Chain
pub mod Placed
pub mod Rehash
pub mod Valid
pub mod Insert
pub mod Remove
pub mod Iterate
pub mod Torn
pub mod Refine
mod Tests
use pml.Common.{
  ℕ, zero, suc, ◌+◌, ◌*◌, ◌/◌, ◌%◌, ◌^◌, Bool, true, false, Option, none, some, List, [], ◌∷◌, ◌++◌,
  leb, ◌==◌, if◌then◌else◌, get_or, set, replicate,
}
use mathlib.Core.Option

-- `struct hashmap_entry`
pub record Entry : Type 0 where
  pub key : ℕ
  pub value : ℕ
  pub live : Bool

abbrev pub Chain : Type 0
Chain = List Entry

-- `struct hashmap`
pub record Table : Type 0 where
  pub buckets : List Chain
  pub bucket_count : ℕ
  pub object_count : ℕ

-- What an `int` function returns: 0, or -1.
pub data Status : Type 0 where
  ok failed : Status

-- `HASHMAP_INIT_BUCKETS`
abbrev pub init_buckets : ℕ
init_buckets = 16

-- `size_t` product
abbrev pub mul_size : ℕ → ℕ → ℕ
mul_size a b = a * b % 2 ^ 64

-- a new entry: `next`, `key` and `value` filled in after its `malloc`
abbrev pub entry : ℕ → ℕ → Entry
entry k v = record { key = k; value = v; live = true }

abbrev pub blank : Table
blank = record {
  buckets = replicate init_buckets [];
  bucket_count = init_buckets;
  object_count = 0;
}

-- Two allocations: the table, then its array.
pub create : ℕ → Option Table
create zero = none
create (suc zero) = none
create (suc (suc _)) = some blank

-- The chain that `buckets[i]` heads.
abbrev pub chain_at : List Chain → ℕ → Chain
chain_at bs i = get_or bs i []

-- The walk to the last entry of a chain, or to its empty head, and the write there.
pub push_back : List Chain → ℕ → Entry → List Chain
push_back bs i e = set bs i (chain_at bs i ++ (e ∷ []))

-- The second inner loop of the rehash: every entry of an old chain is freed.
pub release : Chain → Chain
release [] = []
release (e ∷ c) = record e { live = false } ∷ release c

-- the value of the first entry with the key
pub find : ℕ → Chain → Option ℕ
find k [] = none
find k (e ∷ c) = if e.key == k then some e.value else find k c

-- The loop that replaces an existing entry, `none` when it reaches the end.
pub replace : ℕ → ℕ → Chain → Option Chain
replace k v [] = none
replace k v (e ∷ c) =
    if e.key == k
    then some (record e { value = v } ∷ c)
    else Option.map (λ r. e ∷ r) (replace k v c)

-- The loop that unlinks an entry, `none` when it reaches the end.
pub unlink : ℕ → Chain → Option Chain
unlink k [] = none
unlink k (e ∷ c) = if e.key == k then some c else Option.map (λ r. e ∷ r) (unlink k c)

-- How the rehash ends: with the new array and what is left of the budget, or at a failed `malloc`,
-- with the old array as it stands then.
pub data Rehashed : Type 0 where
  grown : List Chain → ℕ → Rehashed
  torn : List Chain → Rehashed

-- a chain that was released before the failure
pub behind : Chain → Rehashed → Rehashed
behind c (grown new b) = grown new b
behind c (torn old) = torn (c ∷ old)

module _ (hash : ℕ → ℕ) where
  -- The copies of one old chain, each put at the end of its new chain.
  pub copy_chain : (count : ℕ) → Chain → List Chain → (budget : ℕ) → Option (List Chain × ℕ)
  copy_chain count [] new b = some (new, b)
  copy_chain count (e ∷ c) new zero = none
  copy_chain count (e ∷ c) new (suc b) =
      copy_chain count c (push_back new (hash e.key % count) (entry e.key e.value)) b

  pub rehash : (count : ℕ) → (old new : List Chain) → (budget : ℕ) → Rehashed
  rehash count [] new b = grown new b
  rehash count (c ∷ cs) new b = elim (copy_chain count c new b) [
    | none ↦ torn (c ∷ cs)
    | some (new', b') ↦ behind (release c) (rehash count cs new' b')
  ]

  -- The part of `hashmap_insert` after the table has the size it needs.
  pub put : ℕ → ℕ → ℕ → Table → Status × Table
  put b k v t =
      let i = hash k % t.bucket_count in
      elim (replace k v (chain_at t.buckets i)) [
        | some c ↦ (ok, record t { buckets = set t.buckets i c })
        | none ↦ elim b [
          | zero ↦ (failed, t)
          | suc _ ↦ (
            ok,
            record t {
              buckets = push_back t.buckets i (entry k v);
              object_count = (t.object_count + 1) % 2 ^ 64;
            },
          )
        ]
      ]

  -- The doubling of the array. Its first allocation is the new array.
  pub enlarge : ℕ → ℕ → ℕ → Table → Status × Table
  enlarge zero k v t = (failed, t)
  enlarge (suc b) k v t =
      let count = mul_size t.bucket_count 2 in
      elim (rehash count t.buckets (replicate count []) b) [
        | torn old ↦ (failed, record t { buckets = old })
        | grown new b' ↦ put b' k v (record t { buckets = new; bucket_count = count })
      ]

  pub insert : (budget key value : ℕ) → Table → Status × Table
  insert b k v t =
      if leb (mul_size t.bucket_count 3 / 4) t.object_count then enlarge b k v t else put b k v t

  -- NULL when there is no entry.
  pub lookup : (key : ℕ) → Table → ℕ
  lookup k t = Option.get_or (find k (chain_at t.buckets (hash k % t.bucket_count))) 0

-- The removal walks every bucket, whatever the key's hash.
pub unlink_first : ℕ → List Chain → Option (List Chain)
unlink_first k [] = none
unlink_first k (c ∷ cs) = elim (unlink k c) [
  | some c' ↦ some (c' ∷ cs)
  | none ↦ Option.map (λ r. c ∷ r) (unlink_first k cs)
]

-- `object_count` stays as it is.
pub remove : (key : ℕ) → Table → Status × Table
remove k t = elim (unlink_first k t.buckets) [
  | some bs ↦ (ok, record t { buckets = bs })
  | none ↦ (failed, t)
]

iterate_chain {ℓ} : {S : Type ℓ} → (ℕ → ℕ → S → S) → Chain → S → S
iterate_chain func [] s = s
iterate_chain func (e ∷ c) s = iterate_chain func c (func e.key e.value s)

iterate_buckets {ℓ} : {S : Type ℓ} → (ℕ → ℕ → S → S) → List Chain → S → S
unfolding iterate_chain
iterate_buckets func [] s = s
iterate_buckets func (c ∷ cs) s = iterate_buckets func cs (iterate_chain func c s)

-- The state is what `func` reaches through `data`.
pub iterate {ℓ} : {S : Type ℓ} → (ℕ → ℕ → S → S) → Table → S → S
unfolding iterate_buckets
iterate func t s = iterate_buckets func t.buckets s

free_chain : Bool → Chain → List ℕ × Chain
free_chain with_func [] = ([], [])
free_chain with_func (e ∷ c) =
    let (freed, c') = free_chain with_func c in
    (if with_func then e.value ∷ freed else freed, record e { live = false } ∷ c')

-- `hashmap_free`: the values that `free_func` is called on, in order (none for a null `free_func`),
-- and the chains as they are left. The array of chains is not given back.
pub free : Bool → List Chain → List ℕ × List Chain
unfolding free_chain
free with_func [] = ([], [])
free with_func (c ∷ cs) =
    let (freed, c') = free_chain with_func c in
    let (rest, cs') = free with_func cs in (freed ++ rest, c' ∷ cs')
