-- ===== src/Pipe/Queue.antt =====
-- The bytes that a pipe holds, and what the two parts of a write do to them.
use pml.Common.{
  ℕ, zero, suc, ◌+◌, ◌-◌, ◌≤◌, ◌≡◌, ◌∙◌, ap, List, [], ◌∷◌, ◌++◌, arith, length, take, drop,
  length-append, length-take, length-drop, take-append,
}
use pml.Pipe.{Pipe, pipe_size, add_size, sub_size, copy_to, place, compact}

-- the bytes between `start` and `end`
unfoldable pub contents : Pipe → List ℕ
contents p = take (p.end - p.start) (drop p.start p.buffer)

pub record IsValid (p : Pipe) : Type 0 where
  pub sized : length p.buffer ≡ pipe_size
  pub ordered : p.start ≤ p.end
  pub inside : p.end ≤ pipe_size

-- What follows the first `s` items up to the end of the bytes copied behind the first `e`.
slice-copy :
    (s e n m : ℕ) (b bytes rest : List ℕ)
    → e ≡ s + n
    → m ≡ n + length bytes
    → e ≤ length b
    → take m (drop s (take e b ++ (bytes ++ rest))) ≡ take n (drop s b) ++ bytes
slice-copy zero zero zero m b bytes rest h k l = take-append m bytes rest (omega arith)
slice-copy zero (suc e) (suc n) (suc m) (x ∷ b) bytes rest h k l =
    ap (λ r. x ∷ r) (slice-copy zero e n m b bytes rest (omega arith) (omega arith) (omega arith))
slice-copy (suc s) (suc e) n m (x ∷ b) bytes rest h k l =
    slice-copy s e n m b bytes rest (omega arith) k (omega arith)
slice-copy zero zero (suc n) m b bytes rest h k l = absurd (omega arith)
slice-copy zero (suc e) zero m b bytes rest h k l = absurd (omega arith)
slice-copy zero (suc e) (suc n) zero b bytes rest h k l = absurd (omega arith)
slice-copy zero (suc e) (suc n) (suc m) [] bytes rest h k l = absurd (omega arith)
slice-copy (suc s) zero n m b bytes rest h k l = absurd (omega arith)
slice-copy (suc s) (suc e) n m [] bytes rest h k l = absurd (omega arith)

pub length-copy_to :
    (b : List ℕ) (e : ℕ) (bytes : List ℕ)
    → e ≤ length b
    → e + length bytes ≤ length b
    → length (copy_to b e bytes) ≡ length b
unfolding copy_to
length-copy_to b e bytes h l = omega (
  arith,
  length-append (take e b) (bytes ++ drop (e + length bytes) b),
  length-append bytes (drop (e + length bytes) b),
  length-take e b h,
  length-drop (e + length bytes) b l,
)

pub length-contents : {p : Pipe} → IsValid p → length (contents p) ≡ p.end - p.start
unfolding contents
length-contents {p} v = length-take (p.end - p.start) (drop p.start p.buffer) (
    omega (
      arith,
      v.sized,
      v.ordered,
      v.inside,
      length-drop p.start p.buffer (omega (arith, v.sized, v.ordered, v.inside)),
    ))

module _ {p : Pipe} (v : IsValid p) where
  pub real_len : sub_size p.end p.start ≡ p.end - p.start
  real_len = omega (arith, v.ordered, v.inside)

  pub place-IsValid :
      (bytes : List ℕ) → p.end + length bytes ≤ pipe_size → IsValid (place bytes p).1
  unfolding place
  place-IsValid bytes l = record {
    sized =
        length-copy_to p.buffer p.end bytes (omega (arith, v.sized, v.inside))
          (omega (arith, v.sized))
        ∙ v.sized;
    ordered = omega (arith, v.ordered);
    inside = omega arith;
  }

  pub place-contents :
      (bytes : List ℕ)
      → p.end + length bytes ≤ pipe_size
      → contents (place bytes p).1 ≡ contents p ++ bytes
  unfolding place contents copy_to
  place-contents bytes l =
      slice-copy p.start p.end (p.end - p.start) (add_size p.end (length bytes) - p.start) p.buffer
        bytes (drop (p.end + length bytes) p.buffer) (omega (arith, v.ordered))
        (omega (arith, v.ordered)) (omega (arith, v.sized, v.inside))

  pub compact-IsValid : IsValid (compact p)
  unfolding compact contents
  compact-IsValid = rw real_len (record {
    sized =
        length-copy_to p.buffer 0 (contents p) (omega arith)
          (omega (arith, v.sized, v.inside, length-contents v))
        ∙ v.sized;
    ordered = omega arith;
    inside = omega (arith, v.inside);
  })

  pub compact-contents : contents (compact p) ≡ contents p
  unfolding compact contents copy_to
  compact-contents = rw real_len (
      take-append (p.end - p.start - 0) (contents p) (drop (0 + length (contents p)) p.buffer)
        (omega (arith, length-contents v)))
