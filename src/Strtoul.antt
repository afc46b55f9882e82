-- ===== src/Strtoul.antt =====
-- `strtoul` of util/strtoul.c, with the macros of include/ctype.h. A string is the list of its bytes
-- without the terminator; a read at the end or behind it gives 0. A byte of 128 or more is a negative
-- char.
pub mod Digits
mod Tests
use pml.Common.{
  ℕ, zero, suc, ◌+◌, ◌-◌, ◌*◌, ◌/◌, ◌%◌, ◌^◌, Bool, true, false, not, ◌&&◌, ◌||◌, Option, none,
  some, List, [], ◌∷◌, ◌==◌, ltb, leb, if◌then◌else◌,
}

pub isdigit : ℕ → Bool
isdigit c = leb 48 c && leb c 57

pub isupper : ℕ → Bool
isupper c = leb 65 c && leb c 90

pub islower : ℕ → Bool
islower c = leb 97 c && leb c 122

pub isspace : ℕ → Bool
isspace c = c == 32 || (leb 9 c && leb c 13)

pub toupper : ℕ → ℕ
toupper c = if islower c then c - 32 else c

abbrev pub head : List ℕ → ℕ
head [] = 0
head (c ∷ cs) = c

abbrev pub tail : List ℕ → List ℕ
tail [] = []
tail (c ∷ cs) = cs

-- `tolower (*++str)`. The macro has its argument up to three times, and each moves the pointer.
pub tolower_next : List ℕ → ℕ × List ℕ
tolower_next str =
    let s1 = tail str in
    let s2 = tail s1 in
    let s3 = tail s2 in
    if leb 65 (head s1) && ltb (head s1) 128
    then (if leb (head s2) 90 || leb 128 (head s2) then head s3 + 32 else head s3, s3)
    else (head s2, s2)

pub skip_space : List ℕ → List ℕ
skip_space [] = []
skip_space (c ∷ cs) = let rest = skip_space cs in if isspace c then rest else c ∷ cs

-- whether the sign is negative, and the string behind it
pub sign : List ℕ → Bool × List ℕ
sign str =
    if head str == 45
    then (true, tail str)
    else if head str == 43
    then (false, tail str)
    else (false, str)

-- the base 0 finds the base
pub find_base : (base : ℕ) → List ℕ → ℕ × List ℕ
find_base base str =
    let (c, next) = tolower_next str in
    if base == 0
    then (if head str == 48 then (if c == 120 then (16, tail next) else (8, next)) else (10, str))
    else (base, str)

pub skip_prefix : (base : ℕ) → List ℕ → List ℕ
skip_prefix base str =
    let s = if base == 8 && head str == 48 then tail str else str in
    let (c, next) = tolower_next s in
    if base == 16 && head s == 48 then (if c == 120 then tail next else next) else s

pub digit : ℕ → Option ℕ
digit c =
    if isdigit c
    then some (c - 48)
    else if isupper (toupper c)
    then some (toupper c - 65 + 10)
    else none

abbrev is_some : Option ℕ → Bool
is_some none = false
is_some (some d) = true

abbrev number : Option ℕ → ℕ
number none = 0
number (some d) = d

pub record State : Type 0 where
  pub ret : ℕ
  pub err : Bool
  pub converted : Bool
  pub str : List ℕ

-- the loop over the digits
pub convert : (base ret : ℕ) (err converted : Bool) → List ℕ → State
convert base ret err converted [] = record { ret = ret; err = err; converted = converted; str = [] }
convert base ret err converted (c ∷ cs) =
    let d = number (digit c) in
    let over = ltb ((2 ^ 64 - 1 - d) / base) ret in
    let rest =
      convert base (if over then 0 else (ret * base + d) % 2 ^ 64) (err || over)
        (converted || not over) cs in
    if not (is_some (digit c)) || leb base d
    then record { ret = ret; err = err; converted = converted; str = c ∷ cs }
    else rest

-- The result and the string at `*end`.
pub strtoul : (str : List ℕ) (base : ℕ) → ℕ × List ℕ
strtoul start base0 =
    let (negative, s0) = sign (skip_space start) in
    let (base, s1) = find_base base0 s0 in
    let none_read : State = record { ret = 0; err = false; converted = false; str = s0 } in
    let s : State =
      if not (base0 == 0) && (ltb base0 2 || ltb 36 base0)
      then none_read
      else convert base 0 false false (skip_prefix base s1) in
    let ret = if s.err then 2 ^ 64 - 1 else s.ret in
    (
      if negative then (2 ^ 64 - ret) % 2 ^ 64 else ret,
      if not s.converted && s.ret == 0 then start else s.str,
    )
