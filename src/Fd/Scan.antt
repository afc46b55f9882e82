-- ===== src/Fd/Scan.antt =====
-- The loop that looks for a free entry stops at the first one.
use pml.Common.{
  ℕ, zero, suc, ◌+◌, ◌≤◌, ◌<◌, ◌≡◌, Bool, true, false, List, arith, get_or, inl, inr, Bool-cases,
}
use mathlib.Core.Path.{subst}
use native.Mathlib.Decide.{ℕ_discrete}
use pml.Fd.{first}

pub record Found {ℓ} {A : Type ℓ} (test : A → Bool) (d : A) (xs : List A) (next rounds n : ℕ)
    (found : Bool) : Type 0 where
  pub from : next ≤ n
  pub to : n ≤ next + rounds
  pub passed : (i : ℕ) → next ≤ i → i < n → test (get_or xs i d) ≡ false
  pub hit : found ≡ true → (n < next + rounds) × (test (get_or xs n d) ≡ true)
  pub missed : found ≡ false → n ≡ next + rounds

pub first-Found {ℓ} :
    {A : Type ℓ} (test : A → Bool) (d : A) (xs : List A) (rounds next : ℕ)
    → let (n, found) = first test d xs rounds next in Found test d xs next rounds n found
unfolding first
first-Found test d xs zero next = record {
  from = omega arith;
  to = omega arith;
  passed = λ i p q. absurd (omega arith);
  hit = λ e. cc;
  missed = λ _. omega arith;
}
first-Found test d xs (suc r) next = elim (Bool-cases (test (get_or xs next d))) [
  | inl t ↦ rw t (record {
    from = omega arith;
    to = omega arith;
    passed = λ i p q. absurd (omega arith);
    hit = λ _. (omega arith, t);
    missed = λ e. cc;
  })
  | inr t ↦
      let f = first-Found test d xs r (next + 1) in
      rw t (record {
        from = omega (arith, f.from);
        to = omega (arith, f.to);
        passed = λ i p q. elim (ℕ_discrete next i) [
          | yes s ↦ subst (λ j. test (get_or xs j d) ≡ false) s t
          | no s ↦ f.passed i (omega arith) q
        ];
        hit = λ e. let h = f.hit e in (omega (arith, h.0), h.1);
        missed = λ e. omega (arith, f.missed e);
      })
]
