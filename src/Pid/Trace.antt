-- ===== src/Pid/Trace.antt =====
-- Whole histories of the allocator: the IDs that are out at any time are all different.
use pml.Common.{
  ℕ, ◌≡◌, refl, ◌∙◌, Bool, true, false, ◌||◌, List, [], ◌∷◌, arith, ◌==◌, if◌then◌else◌,
}
use native.Mathlib.Decide.{ℕ_discrete}
use mathlib.Core.Path.{subst}
use pml.Common.Int.{pos}
use pml.Bitmap.Laws.{test_bit-inside}
use pml.Pid.{Allocator, pid, exhausted, init, alloc_pid, free_pid}
use pml.Pid.Rounds.{used, IsValid}
use pml.Pid.Alloc.{alloc_pid-Allocated, alloc_pid_exhausted}
use pml.Pid.Free.{init-IsValid, free_pid-marked}

abbrev pub holds : ℕ → List ℕ → Bool
holds j [] = false
holds j (x ∷ xs) = (x == j) || holds j xs

abbrev pub AllDifferent : List ℕ → Type 0
AllDifferent [] = Unit
AllDifferent (x ∷ xs) = (holds x xs ≡ false) × AllDifferent xs

pub without : ℕ → List ℕ → List ℕ
without p [] = []
without p (x ∷ xs) = if x == p then xs else x ∷ without p xs

-- The states that calls lead to from the start, with the IDs handed out and not yet freed.
-- Only such an ID is freed, and no `realloc` fails.
pub data Calls (junk : ℕ) : Allocator → List ℕ → Type 0 where
  start : Calls junk init []
  got :
      {a a' : Allocator} {out : List ℕ} {n : ℕ} (b : ℕ)
      → Calls junk a out
      → alloc_pid junk b a ≡ (pid n, a')
      → Calls junk a' (n ∷ out)
  refused :
      {a a' : Allocator} {out : List ℕ} (b : ℕ)
      → Calls junk a out
      → alloc_pid junk b a ≡ (exhausted, a')
      → Calls junk a' out
  gave :
      {a : Allocator} {out : List ℕ} (p : ℕ)
      → Calls junk a out
      → holds p out ≡ true
      → Calls junk (free_pid (pos p) a) (without p out)

holds-without :
    (p j : ℕ) (xs : List ℕ)
    → AllDifferent xs
    → holds j (without p xs) ≡ (if p == j then false else holds j xs)
unfolding without
holds-without p j [] d = ground arith
holds-without p j (x ∷ xs) d = elim (ℕ_discrete x p) [
  | yes e ↦ elim (ℕ_discrete p j) [
    | yes q ↦
        let f : holds j xs ≡ false = subst (λ k. holds k xs ≡ false) (e ∙ q) d.0 in ground arith
    | no q ↦ ground arith
  ]
  | no e ↦ ground (arith, holds-without p j xs d.1)
]

AllDifferent-without : (p : ℕ) (xs : List ℕ) → AllDifferent xs → AllDifferent (without p xs)
unfolding without
AllDifferent-without p [] d = tt
AllDifferent-without p (x ∷ xs) d =
    ground (arith, AllDifferent-without p xs d.1, holds-without p x xs d.1)

-- What holds along a history.
record Kept (a : Allocator) (out : List ℕ) : Type 0 where
  valid : IsValid a
  exact : (j : ℕ) → used a j ≡ ((0 == j) || holds j out)
  different : AllDifferent out
  nonzero : holds 0 out ≡ false

Calls-Kept : {junk : ℕ} {a : Allocator} {out : List ℕ} → Calls junk a out → Kept a out
Calls-Kept start = record {
  valid = init-IsValid.0;
  exact = λ j. init-IsValid.1 j ∙ ground arith;
  different = tt;
  nonzero = refl;
}
Calls-Kept {junk} (got {n} b c h) =
    let k = Calls-Kept c in
    let r = alloc_pid-Allocated junk b k.valid h in
    record {
      valid = r.valid;
      exact = λ j. r.marked j ∙ ground (arith, k.exact j);
      different = (ground (arith, k.exact n, r.unused), k.different);
      nonzero = ground (arith, k.exact 0, k.exact n, r.unused, k.nonzero);
    }
Calls-Kept {junk} (refused b c h) =
    let k = Calls-Kept c in
    let r = alloc_pid_exhausted junk b k.valid h in
    record {
      valid = r.0;
      exact = λ j. r.1 j ∙ k.exact j;
      different = k.different;
      nonzero = k.nonzero;
    }
Calls-Kept (gave {a} {out} p c h) =
    let k = Calls-Kept c in
    let in_use : used a p ≡ true = k.exact p ∙ ground arith in
    let r =
      free_pid-marked p k.valid
        (omega (arith, test_bit-inside a.pid_bitmap p in_use, k.valid.sized)) in
    record {
      valid = r.0;
      exact = λ j. r.1 j ∙ ground (arith, k.exact j, holds-without p j out k.different, k.nonzero);
      different = AllDifferent-without p out k.different;
      nonzero = holds-without p 0 out k.different ∙ ground (arith, k.nonzero);
    }

-- Along every history of calls the IDs that are out are all different, none of them is 0, and the
-- IDs marked used are exactly those and 0.
pub alloc_pid_unique :
    {junk : ℕ} {a : Allocator} {out : List ℕ}
    → Calls junk a out
    → AllDifferent out × (holds 0 out ≡ false) × ((j : ℕ) → used a j ≡ ((0 == j) || holds j out))
alloc_pid_unique c = let k = Calls-Kept c in (k.different, k.nonzero, k.exact)
