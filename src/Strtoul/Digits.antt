-- ===== src/Strtoul/Digits.antt =====
-- `strtoul` reads positional notation.
use pml.Common.{
  ℕ, ◌+◌, ◌-◌, ◌*◌, ◌/◌, ◌%◌, ◌^◌, ◌≤◌, ◌<◌, ◌≡◌, ◌≢◌, refl, Bool, true, false, not, ◌&&◌, ◌||◌,
  some, List, [], ◌∷◌, ◌==◌, ltb, leb, if◌then◌else◌, arith, inl, inr, Bool-cases, ==_ne, All,
}
use native.Mathlib.Nat.{mul-le-mul_right}
use pml.Strtoul.{
  isdigit, isupper, islower, isspace, toupper, skip_space, sign, find_base, skip_prefix, digit,
  State, convert, strtoul,
}

-- a digit, which is written as a letter of either case from 10 on
pub record Digit : Type 0 where
  pub number : ℕ
  pub upper : Bool

abbrev pub char : Digit → ℕ
char d = if ltb d.number 10 then d.number + 48 else if d.upper then d.number + 55 else d.number + 87

abbrev pub chars : List Digit → List ℕ
chars [] = []
chars (d ∷ ds) = char d ∷ chars ds

-- the number that digits stand for, behind a number
abbrev pub value : (base acc : ℕ) → List Digit → ℕ
value base acc [] = acc
value base acc (d ∷ ds) = value base (acc * base + d.number) ds

-- digits of a base
abbrev pub InBase : ℕ → List Digit → Type 0
InBase base ds = All (λ (d : Digit). d.number < base) ds

digit-char : (d : Digit) → d.number < 36 → digit (char d) ≡ some d.number
unfolding digit isdigit isupper islower toupper
digit-char d l = elim (Bool-cases (ltb d.number 10)) [
  | inl t ↦ rw t (ground arith)
  | inr t ↦ elim (Bool-cases d.upper) [
    | inl u ↦ rw (t, u) (ground arith)
    | inr u ↦ rw (t, u) (ground arith)
  ]
]

room :
    (base ret d : ℕ) → 0 < base → d < 36 → ret ≤ (2 ^ 64 - 1 - d) / base → ret * base + d < 2 ^ 64
room base ret d p l h = omega (arith, mul-le-mul_right base h)

no_room :
    (base ret d : ℕ) → 0 < base → d < 36 → (2 ^ 64 - 1 - d) / base < ret → 2 ^ 64 ≤ ret * base + d
no_room base ret d p l h =
    let k : (2 ^ 64 - 1 - d) / base + 1 ≤ ret = omega arith in
    omega (arith, mul-le-mul_right base k)

value_le : (base acc : ℕ) (ds : List Digit) → 0 < base → acc ≤ value base acc ds
value_le base acc [] p = omega arith
value_le base acc (d ∷ ds) p =
    omega (arith, value_le base (acc * base + d.number) ds p, mul-le-mul_right acc p)

-- What the loop makes of digits: it reads them all, and the number is their value, if it is below 2 ^ 64
-- and there was no error; else there is an error.
record Reads (v : ℕ) (err converted : Bool) (s : State) : Type 0 where
  pub all : s.str ≡ []
  pub fits : v < 2 ^ 64 → err ≡ false → (s.ret ≡ v) × (s.err ≡ false)
  pub fails : 2 ^ 64 ≤ v → s.err ≡ true
  pub stays : err ≡ true → s.err ≡ true
  pub converts : converted ≡ true → s.converted ≡ true

convert-Reads :
    (base ret : ℕ) (err converted : Bool) (ds : List Digit)
    → 0 < base
    → base ≤ 36
    → ret < 2 ^ 64
    → InBase base ds
    → Reads (value base ret ds) err converted (convert base ret err converted (chars ds))
unfolding convert
convert-Reads base ret err converted [] p b l u = record {
  all = refl;
  fits = λ v e. (refl, e);
  fails = λ v. absurd (omega arith);
  stays = λ e. e;
  converts = λ e. e;
}
convert-Reads base ret err converted (d ∷ ds) p b l (w, u) =
    let c : leb base d.number ≡ false = ground arith in
    rw (digit-char d (omega arith), c)
      (elim (Bool-cases (ltb ((2 ^ 64 - 1 - d.number) / base) ret)) [
        | inl o ↦
            let x =
              convert-Reads base 0 (err || true) (converted || false) ds p b (omega arith) u in
            let z = no_room base ret d.number p (omega arith) (ground arith) in
            let y = value_le base (ret * base + d.number) ds p in
            rw o (record {
              all = x.all;
              fits = λ v e. absurd (omega arith);
              fails = λ v. x.stays (ground arith);
              stays = λ e. x.stays (ground arith);
              converts = λ e. x.converts (ground arith);
            })
        | inr o ↦
            let z = room base ret d.number p (omega arith) (ground arith) in
            let e : (ret * base + d.number) % 2 ^ 64 ≡ ret * base + d.number = omega (arith, z) in
            let x =
              convert-Reads base (ret * base + d.number) (err || false) (converted || true) ds p b z
                u in
            rw (o, e)
              (record {
                all = x.all;
                fits = λ v f. x.fits v (ground arith);
                fails = x.fails;
                stays = λ f. x.stays (ground arith);
                converts = λ f. x.converts (ground arith);
              })
      ])

digits_only :
    (d : Digit) (ds : List Digit) (base : ℕ)
    → base ≤ 36
    → InBase base (d ∷ ds)
    → (skip_space (chars (d ∷ ds)) ≡ chars (d ∷ ds))
      × (sign (chars (d ∷ ds)) ≡ (false, chars (d ∷ ds)))
unfolding skip_space sign isspace
digits_only d ds base b (w, u) = elim (Bool-cases (ltb d.number 10)) [
  | inl t ↦ rw t (ground arith, ground arith)
  | inr t ↦ elim (Bool-cases d.upper) [
    | inl x ↦ rw (t, x) (ground arith, ground arith)
    | inr x ↦ rw (t, x) (ground arith, ground arith)
  ]
]

first_step :
    (base : ℕ) (d : Digit) (ds : List Digit)
    → 0 < base
    → base ≤ 36
    → d.number < base
    → convert base 0 false false (chars (d ∷ ds)) ≡ convert base d.number false true (chars ds)
unfolding convert
first_step base d ds p b w =
    let c : leb base d.number ≡ false = ground arith in
    let o : ltb ((2 ^ 64 - 1 - d.number) / base) 0 ≡ false = ground arith in
    let e : (0 * base + d.number) % 2 ^ 64 ≡ d.number = omega arith in
    rw (digit-char d (omega arith), c, o, e) refl

-- the answer from what the loop makes of the digits
answer :
    (v : ℕ) (start : List ℕ) (x : State)
    → Reads v false true x
    → ◌≡◌ {A = ℕ × List ℕ}
        (
          if x.err then 2 ^ 64 - 1 else x.ret,
          if not x.converted && x.ret == 0 then start else x.str,
        )
        (if ltb v (2 ^ 64) then v else 2 ^ 64 - 1, [])
answer v start x r = elim (Bool-cases (ltb v (2 ^ 64))) [
  | inl t ↦ let (n, e) = r.fits (ground arith) refl in rw (t, e, n, r.converts refl, r.all) refl
  | inr t ↦ rw (t, r.fails (ground arith), r.converts refl, r.all) refl
]

-- strtoul of at least one digit of a base from 2 to 36, other than 8 and 16, with letters of either
-- case, and nothing else, reads to the end, and gives the number that the digits stand for, or
-- 2 ^ 64 - 1 when that is too large.
pub strtoul-chars :
    (base : ℕ) (d : Digit) (ds : List Digit)
    → 2 ≤ base
    → base ≤ 36
    → base ≢ 8
    → base ≢ 16
    → InBase base (d ∷ ds)
    → strtoul (chars (d ∷ ds)) base
      ≡ (if ltb (value base 0 (d ∷ ds)) (2 ^ 64) then value base 0 (d ∷ ds) else 2 ^ 64 - 1, [])
unfolding strtoul find_base skip_prefix
strtoul-chars base d ds a b n m u =
    let (s, g) = digits_only d ds base b u in
    let f1 : (base == 0) ≡ false = ground arith in
    let f2 : ltb base 2 ≡ false = ground arith in
    let f3 : ltb 36 base ≡ false = ground arith in
    let f4 : (base == 8) ≡ false = ==_ne base 8 n in
    let f5 : (base == 16) ≡ false = ==_ne base 16 m in
    let k = first_step base d ds (omega arith) b u.0 in
    let z : 0 * base + d.number ≡ d.number = omega arith in
    let x = convert-Reads base d.number false true ds (omega arith) b (omega (arith, u.0)) u.1 in
    rw (s, g, f1, f2, f3, f4, f5, k, z)
      (answer (value base d.number ds) (chars (d ∷ ds))
        (convert base d.number false true (chars ds)) x)
