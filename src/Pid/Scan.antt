-- ===== src/Pid/Scan.antt =====
-- The search loop over the bitmap stops at the first unset bit.
use pml.Common.{
  ℕ, zero, suc, ◌+◌, ◌-◌, ◌≤◌, ◌<◌, ◌≡◌, Bool, true, false, List, arith, ltb, inl, inr, Bool-cases,
}
use mathlib.Core.Path.{subst}
use native.Mathlib.Decide.{ℕ_discrete}
use pml.Bitmap.{test_bit}
use pml.Pid.{scan}

-- Every index from `lo` up to `hi` has its bit set.
abbrev pub Used : List ℕ → ℕ → ℕ → Type 0
Used bitmap lo hi = (i : ℕ) → lo ≤ i → i < hi → test_bit bitmap i ≡ true

pub record Scanned (bitmap : List ℕ) (next limit n : ℕ) (found : Bool) : Type 0 where
  pub from : next ≤ n
  pub used : Used bitmap next n
  pub unset : found ≡ true → (n < limit) × (test_bit bitmap n ≡ false)
  pub ended : found ≡ false → n ≡ limit

pub scan-Scanned :
    (f : ℕ) (bitmap : List ℕ) (next limit : ℕ)
    → limit - next ≤ f
    → next ≤ limit
    → let (n, found) = scan f bitmap next limit in Scanned bitmap next limit n found
unfolding scan
scan-Scanned zero bitmap next limit h l = record {
  from = omega arith;
  used = λ i p q. absurd (omega arith);
  unset = λ e. cc;
  ended = λ e. omega arith;
}
scan-Scanned (suc f) bitmap next limit h l = elim (Bool-cases (ltb next limit)) [
  | inl e ↦ elim (Bool-cases (test_bit bitmap next)) [
    | inl t ↦
        let r = scan-Scanned f bitmap (next + 1) limit (ground arith) (ground arith) in
        rw (e, t)
          (record {
            from = omega (arith, r.from);
            used = λ i p q. elim (ℕ_discrete next i) [
              | yes s ↦ subst (λ j. test_bit bitmap j ≡ true) s t
              | no s ↦ r.used i (omega arith) q
            ];
            unset = r.unset;
            ended = r.ended;
          })
    | inr t ↦
        rw (e, t)
          (record {
            from = omega arith;
            used = λ i p q. absurd (omega arith);
            unset = λ _. (ground arith, t);
            ended = λ x. cc;
          })
  ]
  | inr e ↦ rw e (record {
    from = omega arith;
    used = λ i p q. absurd (omega arith);
    unset = λ x. cc;
    ended = λ _. ground arith;
  })
]
