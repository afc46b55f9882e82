-- ===== src/Cred/Confined.antt =====
-- A process without privilege keeps to the IDs that it has.
use pml.Common.{ℕ, ◌≡◌, ◌≢◌, ◌⊎◌, List, [], ◌∷◌, arith, ◌∙◌}
use pml.Cred.{
  Cred, Call, step, setuid, seteuid, setreuid, setresuid, setgid, setegid, setregid, setresgid,
  setgroups, set_uid, set_euid, set_gid, set_egid, set_reuid, set_regid, set_resuid, set_resgid,
  set_groups,
}

-- one of the three
abbrev pub Among : ℕ → ℕ → ℕ → ℕ → Type 0
Among x a b c = (x ≡ a) ⊎ ((x ≡ b) ⊎ (x ≡ c))

-- The IDs of `c` are among those of `o`, users and groups each, and the groups list is the same.
pub record Within (o c : Cred) : Type 0 where
  pub real : Among c.uid o.uid o.euid o.suid
  pub effective : Among c.euid o.uid o.euid o.suid
  pub saved : Among c.suid o.uid o.euid o.suid
  pub real_group : Among c.gid o.gid o.egid o.sgid
  pub effective_group : Among c.egid o.gid o.egid o.sgid
  pub saved_group : Among c.sgid o.gid o.egid o.sgid
  pub groups : c.sup_gids ≡ o.sup_gids
  pub count : c.nsup_gids ≡ o.nsup_gids

-- No user ID is that of the super-user.
pub record IsUser (c : Cred) : Type 0 where
  pub real_ne : c.uid ≢ 0
  pub effective_ne : c.euid ≢ 0
  pub saved_ne : c.suid ≢ 0

Among-trans :
    {x a b c o p q : ℕ}
    → Among a o p q
    → Among b o p q
    → Among c o p q
    → Among x a b c
    → Among x o p q
Among-trans h k l m = ground arith

Within-refl : (c : Cred) → Within c c
Within-refl c = ground arith

Within-trans : {o c d : Cred} → Within o c → Within c d → Within o d
Within-trans h k = record {
  real = Among-trans h.real h.effective h.saved k.real;
  effective = Among-trans h.real h.effective h.saved k.effective;
  saved = Among-trans h.real h.effective h.saved k.saved;
  real_group = Among-trans h.real_group h.effective_group h.saved_group k.real_group;
  effective_group = Among-trans h.real_group h.effective_group h.saved_group k.effective_group;
  saved_group = Among-trans h.real_group h.effective_group h.saved_group k.saved_group;
  groups = k.groups ∙ h.groups;
  count = k.count ∙ h.count;
}

Within-IsUser : {o c : Cred} → IsUser o → Within o c → IsUser c
Within-IsUser u w = ground arith

module _ (c : Cred) (u : IsUser c) where
  setuid-Within : (x : ℕ) → Within c (setuid x c).1
  unfolding setuid
  setuid-Within x = ground arith

  setresuid-Within : (r e s : ℕ) → Within c (setresuid r e s c).1
  unfolding setresuid
  setresuid-Within r e s = ground arith

  setreuid-Within : (r e : ℕ) → Within c (setreuid r e c).1
  unfolding setreuid
  setreuid-Within r e = ground arith

  setgid-Within : (x : ℕ) → Within c (setgid x c).1
  unfolding setgid
  setgid-Within x = ground arith

  setresgid-Within : (r e s : ℕ) → Within c (setresgid r e s c).1
  unfolding setresgid
  setresgid-Within r e s = ground arith

  setregid-Within : (r e : ℕ) → Within c (setregid r e c).1
  unfolding setregid
  setregid-Within r e = ground arith

  setgroups-Within : (n : ℕ) (l : List ℕ) → Within c (setgroups n l c).1
  unfolding setgroups
  setgroups-Within n l = ground arith

  step-Within : (k : Call) → Within c (step k c).1
  unfolding step seteuid setegid
  step-Within (set_uid x) = setuid-Within x
  step-Within (set_euid x) = setresuid-Within _ x _
  step-Within (set_gid x) = setgid-Within x
  step-Within (set_egid x) = setresgid-Within _ x _
  step-Within (set_reuid r e) = setreuid-Within r e
  step-Within (set_regid r e) = setregid-Within r e
  step-Within (set_resuid r e s) = setresuid-Within r e s
  step-Within (set_resgid r e s) = setresgid-Within r e s
  step-Within (set_groups n l) = setgroups-Within n l

pub run : List Call → Cred → Cred
run [] c = c
run (k ∷ ks) c = run ks (step k c).1

-- A process none of whose user IDs is 0 keeps, through any sequence of calls, user IDs among the
-- three that it had, group IDs among the three that it had, and its list of groups.
pub run-Within : (ks : List Call) {c : Cred} → IsUser c → Within c (run ks c)
unfolding run
run-Within [] {c} u = Within-refl c
run-Within (k ∷ ks) {c} u =
    let w = step-Within c u k in Within-trans w (run-Within ks (Within-IsUser u w))
