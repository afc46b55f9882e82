-- ===== src/Pid/Rounds.antt =====
-- One round of the search for an ID: the four ways in which it ends.
use pml.Common.{
  ℕ, zero, suc, ◌+◌, ◌-◌, ◌*◌, ◌≤◌, ◌<◌, ◌≡◌, refl, ◌∙◌, Bool, true, false, arith, ltb, ◌==◌,
  ltb→lt, if◌then◌else◌, ==_ne, inl, inr, Bool-cases, length,
}
use mathlib.Core.Path.{subst}
use native.Mathlib.Decide.{dec_lt, ℕ_discrete}
use pml.Bitmap.{set_bit, test_bit}
use pml.Bitmap.Laws.{AllBytes, set_bit-AllBytes, length-set_bit, test-set_bit}
use pml.Pid.{
  Allocator, pid, no_memory, exhausted, increment, size_limit, Round, stop, retry, round, scan,
  grow,
}
use pml.Pid.Scan.{Used, Scanned, scan-Scanned}
use pml.Pid.Grow.{length-grow, grow-AllBytes, test-grow}

-- an ID is in use when its bit is set
abbrev pub used : Allocator → ℕ → Bool
used a i = test_bit a.pid_bitmap i

pub record IsValid (a : Allocator) : Type 0 where
  pub bytes : AllBytes a.pid_bitmap
  pub sized : length a.pid_bitmap ≡ a.pid_bitmap_size
  pub next_in : a.next_pid ≤ a.pid_bitmap_size * 8
  pub below : Used a.pid_bitmap 0 a.next_pid

pub record Allocated (a : Allocator) (n : ℕ) (a' : Allocator) : Type 0 where
  pub unused : used a n ≡ false
  pub smallest : (i : ℕ) → i < n → used a i ≡ true
  pub marked : (j : ℕ) → used a' j ≡ (if n == j then true else used a j)
  pub inside : n < a'.pid_bitmap_size * 8
  pub valid : IsValid a'

module _ (a : Allocator) (v : IsValid a) where
  limit_of : ℕ
  limit_of = a.pid_bitmap_size * 8

  pub scanned :
      let (n, found) =
        scan (a.pid_bitmap_size * 8 - a.next_pid) a.pid_bitmap a.next_pid (a.pid_bitmap_size * 8) in
      Scanned a.pid_bitmap a.next_pid (a.pid_bitmap_size * 8) n found
  scanned =
      scan-Scanned (a.pid_bitmap_size * 8 - a.next_pid) a.pid_bitmap a.next_pid
        (a.pid_bitmap_size * 8) (omega arith) v.next_in

  used_to : (n : ℕ) → Used a.pid_bitmap a.next_pid n → Used a.pid_bitmap 0 n
  used_to n u i p q = elim (dec_lt i a.next_pid) [
    | yes l ↦ v.below i p l
    | no g ↦ u i (omega arith) q
  ]

  took :
      (n : ℕ)
      → n < a.pid_bitmap_size * 8
      → test_bit a.pid_bitmap n ≡ false
      → Used a.pid_bitmap a.next_pid n
      → Allocated a n (record a { pid_bitmap = set_bit a.pid_bitmap n; next_pid = n + 1 })
  took n l t u = record {
    unused = t;
    smallest = λ i p. used_to n u i (omega arith) p;
    marked = marks;
    inside = l;
    valid = record {
      bytes = set_bit-AllBytes a.pid_bitmap n v.bytes;
      sized = length-set_bit a.pid_bitmap n ∙ v.sized;
      next_in = omega arith;
      below = λ i p q. marks i ∙ elim (ℕ_discrete n i) [
        | yes e ↦ let f : (n == i) ≡ true = ground arith in rw f
        | no d ↦ rw (==_ne n i d) (used_to n u i p (omega arith))
      ];
    };
  }
    where
      marks : (j : ℕ) → test_bit (set_bit a.pid_bitmap n) j ≡ (if n == j then true else used a j)
      marks j = test-set_bit a.pid_bitmap n j v.bytes (omega (arith, v.sized))

  abbrev grown : ℕ → ℕ → Allocator
  grown junk n = record {
    pid_bitmap = grow junk a.pid_bitmap (a.pid_bitmap_size + increment) increment;
    next_pid = n;
    pid_bitmap_size = a.pid_bitmap_size + increment;
  }

  grown-used : (junk n j : ℕ) → used (grown junk n) j ≡ used a j
  grown-used junk n j =
      test-grow junk a.pid_bitmap (a.pid_bitmap_size + increment) increment (omega (arith, v.sized))
        j

  grown-IsValid :
      (junk n : ℕ)
      → n ≡ a.pid_bitmap_size * 8
      → Used a.pid_bitmap a.next_pid n
      → IsValid (grown junk n)
  grown-IsValid junk n e u = record {
    bytes =
        grow-AllBytes junk a.pid_bitmap (a.pid_bitmap_size + increment) increment
          (omega (arith, v.sized)) v.bytes;
    sized =
        length-grow junk a.pid_bitmap (a.pid_bitmap_size + increment) increment
          (omega (arith, v.sized));
    next_in = omega arith;
    below = λ i p q. grown-used junk n i ∙ used_to n u i p q;
  }

-- The four ways in which a round ends, with what is known then.
pub data Ended (junk b : ℕ) (a : Allocator) : Round → Type 0 where
  took_one :
      {n : ℕ} {a' : Allocator}
      → a.pid_bitmap_size < size_limit
      → a'.pid_bitmap_size ≡ a.pid_bitmap_size
      → Allocated a n a'
      → Ended junk b a (stop (pid n) a')
  starved :
      {a' : Allocator}
      → b ≡ 0
      → Used a.pid_bitmap 0 (a.pid_bitmap_size * 8)
      → length a'.pid_bitmap + increment ≡ a'.pid_bitmap_size
      → Ended junk b a (stop no_memory a')
  enlarged :
      {b' : ℕ} {a' : Allocator}
      → b ≡ suc b'
      → a.pid_bitmap_size < size_limit
      → Used a.pid_bitmap 0 (a.pid_bitmap_size * 8)
      → a'.pid_bitmap_size ≡ a.pid_bitmap_size + increment
      → ((j : ℕ) → used a' j ≡ used a j)
      → IsValid a'
      → Ended junk b a (retry b' a')
  at_limit : size_limit ≤ a.pid_bitmap_size → Ended junk b a (stop exhausted a)

pub round-Ended : (junk b : ℕ) (a : Allocator) → IsValid a → Ended junk b a (round junk b a)
unfolding round
round-Ended junk b a v = elim (Bool-cases (ltb a.pid_bitmap_size size_limit)) [
  | inl e ↦ elim (Bool-cases found) [
    | inl t ↦
        let u = s.unset t in rw (e, t) (took_one (ltb→lt _ _ e) refl (took a v r.0 u.0 u.1 s.used))
    | inr t ↦
        let m = s.ended t in
        let all : Used a.pid_bitmap 0 (a.pid_bitmap_size * 8) =
          subst (λ k. Used a.pid_bitmap 0 k) m (used_to a v r.0 s.used) in
        rw (e, t) (more b e m all)
  ]
  | inr e ↦ rw e (at_limit (ground arith))
]
  where
    r : ℕ × Bool
    r = scan (a.pid_bitmap_size * 8 - a.next_pid) a.pid_bitmap a.next_pid (a.pid_bitmap_size * 8)

    found : Bool
    found = r.1

    s : Scanned a.pid_bitmap a.next_pid (a.pid_bitmap_size * 8) r.0 r.1
    s = scanned a v

    more :
        (b : ℕ)
        → ltb a.pid_bitmap_size size_limit ≡ true
        → r.0 ≡ a.pid_bitmap_size * 8
        → Used a.pid_bitmap 0 (a.pid_bitmap_size * 8)
        → Ended junk b a (elim b [
          | zero ↦
              stop no_memory
                (record a { next_pid = r.0; pid_bitmap_size = a.pid_bitmap_size + increment })
          | suc b' ↦ retry b' (grown a v junk r.0)
        ])
    more zero e m all = starved refl all (omega (arith, v.sized))
    more (suc b) e m all =
        enlarged refl (ltb→lt _ _ e) all refl (grown-used a v junk r.0)
          (grown-IsValid a v junk r.0 m s.used)
