-- ===== src/Strtoul/Tests.antt =====
-- Some strings.
use pml.Common.{ℕ, true, false, ◌-◌, ◌^◌, ◌≡◌, refl, [], ◌∷◌, arith}
use pml.Strtoul.{
  strtoul, isdigit, isupper, islower, isspace, toupper, tolower_next, skip_space, sign, find_base,
  skip_prefix, digit, convert,
}
use pml.Strtoul.Digits.{Digit, strtoul-chars}

abbrev lower : ℕ → Digit
lower n = record { number = n; upper = false }

abbrev upper : ℕ → Digit
upper n = record { number = n; upper = true }

-- "z1Z"
strtoul-chars_example : strtoul (122 ∷ (49 ∷ (90 ∷ []))) 36 ≡ (45431, [])
strtoul-chars_example =
    strtoul-chars 36 (lower 35) (lower 1 ∷ (upper 35 ∷ [])) (omega arith) (omega arith)
      (λ e. omega (arith, e)) (λ e. omega (arith, e))
      (omega arith, (omega arith, (omega arith, tt)))

-- " -12z"
negative : strtoul (32 ∷ (45 ∷ (49 ∷ (50 ∷ (122 ∷ []))))) 10 ≡ (2 ^ 64 - 12, 122 ∷ [])
unfolding strtoul skip_space isspace sign find_base skip_prefix tolower_next convert digit isdigit
    islower isupper toupper
negative = refl

-- "0x10" in base 16: the macro passes three bytes
hexadecimal : strtoul (48 ∷ (120 ∷ (49 ∷ (48 ∷ [])))) 16 ≡ (0, [])
unfolding strtoul skip_space isspace sign find_base skip_prefix tolower_next convert digit isdigit
    islower isupper toupper
hexadecimal = refl

-- "0" in base 8: no conversion
octal_zero : strtoul (48 ∷ []) 8 ≡ (0, 48 ∷ [])
unfolding strtoul skip_space isspace sign find_base skip_prefix tolower_next convert digit isdigit
    islower isupper toupper
octal_zero = refl
