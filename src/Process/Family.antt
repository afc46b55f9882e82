-- ===== src/Process/Family.antt =====
-- `process_free` keeps the lists of children and the parents together.
use pml.Common.{
  ℕ, ◌≡◌, ◌≢◌, refl, ap, sym, ◌∙◌, Bool, true, false, ◌||◌, Option, none, some, List, [], ◌∷◌, ◌++◌,
  ◌==◌, ==_refl, update, length, arith, inl, inr, Bool-cases, Option-cases,
}
use mathlib.Core.Path.{subst}
use pml.Process.{
  Process, Pids, remove_child, reparent, adopt, leave_parent, leave_children, process_free,
}

abbrev pub has : ℕ → List ℕ → Bool
has c [] = false
has c (x ∷ xs) = (x == c) || has c xs

-- Every process stands in its parent's list.
abbrev pub Linked : Pids → Type 0
Linked t = (c : ℕ) (p q : Process) → t c ≡ some p → t p.ppid ≡ some q → has c q.children ≡ true

has-remove_child :
    (c pid : ℕ) (xs : List ℕ) → c ≢ pid → has c xs ≡ true → has c (remove_child pid xs) ≡ true
unfolding remove_child
has-remove_child c pid [] n h = h
has-remove_child c pid (x ∷ xs) n h = ground (arith, n, has-remove_child c pid xs n)

has-append : (c : ℕ) (xs ys : List ℕ) → has c (xs ++ ys) ≡ (has c xs || has c ys)
has-append c [] ys = refl
has-append c (x ∷ xs) ys = ground (arith, has-append c xs ys)

-- the process in an entry that is there
unwrap : Process → Option Process → Process
unwrap d none = d
unwrap d (some p) = p

pub from_some : (a b : Process) → some a ≡ some b → a ≡ b
unfolding unwrap
from_some a b e = ap (unwrap a) e

-- an entry whose process gets another list of children
module _ (t : Pids) (i : ℕ) (q new : Process) (v : Linked t) (e : t i ≡ some q)
    (same : new.ppid ≡ q.ppid)
    (keeps : (c : ℕ) (p : Process)
      → t c ≡ some p
      → has c q.children ≡ true
      → has c new.children ≡ true) where
  before :
      (c : ℕ) (p : Process)
      → update t i (some new) c ≡ some p
      → (old : Process) × (t c ≡ some old) × (old.ppid ≡ p.ppid)
  before c p f = elim (Bool-cases (i == c)) [
    | inl b ↦
        let g : some new ≡ some p = rw b at f in
        let z : i ≡ c = ground arith in
        (q, sym (ap t z) ∙ e, sym same ∙ ap Process.ppid (from_some new p g))
    | inr b ↦ let g : t c ≡ some p = rw b at f in (p, g, refl)
  ]

  relisted-Linked : Linked (update t i (some new))
  relisted-Linked c p x f g =
      let (old, h, k) = before c p f in
      elim (Bool-cases (i == p.ppid)) [
        | inl b ↦
            let n : some new ≡ some x = rw b at g in
            let z : i ≡ p.ppid = ground arith in
            let parent : t old.ppid ≡ some q = ap t (k ∙ sym z) ∙ e in
            subst (λ (y : Process). has c y.children ≡ true) (from_some new x n)
              (keeps c old h (v c old q h parent))
        | inr b ↦ let n : t p.ppid ≡ some x = rw b at g in v c old x h (ap t k ∙ n)
      ]

dropped-Linked : (t : Pids) (i : ℕ) → Linked t → Linked (update t i none)
dropped-Linked t i v c p q e f = elim (Bool-cases (i == c)) [
  | inl b ↦ let n : none ≡ some p = rw b at e in absurd (ground (arith, n))
  | inr b ↦ elim (Bool-cases (i == p.ppid)) [
    | inl d ↦ let n : none ≡ some q = rw d at f in absurd (ground (arith, n))
    | inr d ↦
        let g : t c ≡ some p = rw b at e in let h : t p.ppid ≡ some q = rw d at f in v c p q g h
  ]
]

-- an entry whose process gets 1 for its parent, which lists it
module _ (t : Pids) (i : ℕ) (old : Process) (v : Linked t) (e : t i ≡ some old)
    (listed : (q : Process) → t 1 ≡ some q → has i q.children ≡ true) where
  child : Process
  child = record old { ppid = 1 }

  lists :
      (j : ℕ) (x : Process)
      → update t i (some child) j ≡ some x
      → (q : Process) × (t j ≡ some q) × (q.children ≡ x.children)
  unfolding child
  lists j x f = elim (Bool-cases (i == j)) [
    | inl b ↦
        let g : some child ≡ some x = rw b at f in
        let z : i ≡ j = ground arith in
        (old, sym (ap t z) ∙ e, ap Process.children (from_some child x g))
    | inr b ↦ let g : t j ≡ some x = rw b at f in (x, g, refl)
  ]

  adopted-Linked : Linked (update t i (some child))
  unfolding child
  adopted-Linked c p x f g =
      let (q, h, k) = lists p.ppid x g in
      subst (λ l. has c l ≡ true) k
        (elim (Bool-cases (i == c)) [
          | inl b ↦
              let n : some child ≡ some p = rw b at f in
              let z : i ≡ c = ground arith in
              let one : 1 ≡ p.ppid = ap Process.ppid (from_some child p n) in
              subst (λ (y : ℕ). has y q.children ≡ true) z (listed q (ap t one ∙ h))
          | inr b ↦ let n : t c ≡ some p = rw b at f in v c p q n h
        ])

  still_listed :
      (c : ℕ)
      → ((q : Process) → t 1 ≡ some q → has c q.children ≡ true)
      → (x : Process) → update t i (some child) 1 ≡ some x
      → has c x.children ≡ true
  still_listed c l x f = let (q, h, k) = lists 1 x f in subst (λ y. has c y ≡ true) k (l q h)

adopt-Linked :
    (cs : List ℕ) (t : Pids)
    → Linked t
    → ((q : Process) → t 1 ≡ some q → (c : ℕ) → has c cs ≡ true → has c q.children ≡ true)
    → Linked (adopt cs t)
unfolding adopt child
adopt-Linked [] t v l = v
adopt-Linked (c ∷ cs) t v l =
    let rest : (q : Process) → t 1 ≡ some q → (d : ℕ) → has d cs ≡ true → has d q.children ≡ true =
      λ q h d k. l q h d (ground arith) in
    elim (Option-cases (t c)) [
      | inl n ↦ subst (λ o. Linked (adopt cs (reparent o c t))) (sym n) (adopt-Linked cs t v rest)
      | inr (p, e) ↦
          let first : (q : Process) → t 1 ≡ some q → has c q.children ≡ true =
            λ q h. l q h c (ground (arith, ==_refl c)) in
          subst (λ o. Linked (adopt cs (reparent o c t))) (sym e)
            (adopt-Linked cs (reparent (some p) c t) (adopted-Linked t c p v e first)
              (λ x f d k. still_listed t c p v e first d (λ q h. rest q h d k) x f))
    ]

leave_parent-Linked :
    (p : Process) (t : Pids) (o : Option Process)
    → Linked t
    → t p.pid ≡ none
    → t p.ppid ≡ o
    → Linked (leave_parent o p t)
leave_parent-Linked p t none v n e = v
leave_parent-Linked p t (some q) v n e =
    relisted-Linked t p.ppid q (record q { children = remove_child p.pid q.children }) v e refl
      (λ c x f h.
        has-remove_child c p.pid q.children
          (λ z. let k : none ≡ some x = sym n ∙ ap t (sym z) ∙ f in absurd (ground (arith, k))) h)

leave_children-Linked :
    (p : Process) (t : Pids) (o : Option Process)
    → Linked t
    → t 1 ≡ o
    → Linked (leave_children o p t)
leave_children-Linked p t none v e = v
leave_children-Linked p t (some q) v e =
    let new : Process = record q { children = q.children ++ p.children } in
    adopt-Linked p.children (update t 1 (some new))
      (relisted-Linked t 1 q new v e refl
        (λ c x f h. has-append c q.children p.children ∙ ground (arith, h)))
      (λ x f c h.
        subst (λ (y : Process). has c y.children ≡ true) (from_some new x f)
          (has-append c q.children p.children ∙ ground (arith, h)))

-- When each process whose parent exists stands in the parent's list of children, it is so after
-- process_free too, whether the freed process has children or not, and whether the process 1 exists.
pub process_free-Linked : (p : Process) (t : Pids) → Linked t → Linked (process_free p t)
unfolding process_free
process_free-Linked p t v =
    let t0 : Pids = update t p.pid none in
    let gone : t0 p.pid ≡ none = rw (==_refl p.pid) refl in
    let x = leave_parent-Linked p t0 (t0 p.ppid) (dropped-Linked t p.pid v) gone refl in
    let t1 : Pids = leave_parent (t0 p.ppid) p t0 in
    elim (Bool-cases (length p.children == 0)) [
      | inl z ↦ rw z x
      | inr z ↦ rw z (leave_children-Linked p t1 (t1 1) x refl)
    ]
