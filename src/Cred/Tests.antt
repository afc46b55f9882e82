-- ===== src/Cred/Tests.antt =====
-- The ID calls at small inputs.
use pml.Common.{◌≡◌, refl, ◌≢◌, ◌⊎◌, ◌↔◌, [], ◌∷◌, arith}
use pml.Common.Int.{pos}
use pml.Errno.{ok, err, done, eperm}
use pml.Cred.{
  Cred, no_id, setuid, setreuid, setresuid, setgroups, getgroups, getresuid, set_uid, set_reuid,
  set_resuid,
}
use pml.Cred.Confined.{IsUser, Within, run, run-Within}
use pml.Cred.Root.{getresuid-setresuid, setresuid_refused, setreuid_swap, getgroups-setgroups}

-- A program with a user's real ID and another effective ID.
abbrev helper : Cred
helper = record {
  uid = 1000;
  euid = 33;
  suid = 33;
  gid = 100;
  egid = 100;
  sgid = 100;
  sup_gids = 4 ∷ 5 ∷ [];
  nsup_gids = 2;
}

abbrev root : Cred
root = record helper { uid = 0; euid = 0; suid = 0 }

helper-IsUser : IsUser helper
helper-IsUser = omega arith

refuses_root : setuid 0 helper ≡ (err eperm, helper)
unfolding setuid
refuses_root = refl

run-Within_example :
    Within helper (run (set_reuid 33 1000 ∷ set_resuid 0 0 0 ∷ set_uid 33 ∷ []) helper)
run-Within_example =
    run-Within (set_reuid 33 1000 ∷ set_resuid 0 0 0 ∷ set_uid 33 ∷ []) {c = helper} helper-IsUser

getresuid-setresuid_example :
    ((setresuid 7 no_id 9 root).0 ≡ done) × (getresuid (setresuid 7 no_id 9 root).1 ≡ (7, 0, 9))
getresuid-setresuid_example = getresuid-setresuid 7 no_id 9 root (omega arith)

setresuid_refused_example : (setresuid 1000 5 no_id helper ≡ (err eperm, helper)) ↔ (
    ((1000 ≢ no_id) × (1000 ≢ helper.uid) × (1000 ≢ helper.euid) × (1000 ≢ helper.suid))
    ⊎ (((5 ≢ no_id) × (5 ≢ helper.uid) × (5 ≢ helper.euid) × (5 ≢ helper.suid))
        ⊎ ((no_id ≢ no_id) × (no_id ≢ helper.uid) × (no_id ≢ helper.euid) × (no_id ≢ helper.suid))))
setresuid_refused_example = setresuid_refused 1000 5 no_id helper (omega arith)

setreuid_swap_example :
    setreuid 33 1000 helper ≡ (done, record helper { uid = 33; euid = 1000; suid = 1000 })
setreuid_swap_example = setreuid_swap helper (omega arith) (omega arith) (omega arith)

getgroups-setgroups_example :
    let c = (setgroups 3 (7 ∷ 8 ∷ 9 ∷ []) root).1 in
    ((getgroups (pos 0) c).0 ≡ ok 3) × (getgroups (pos 16) c ≡ (ok 0, 7 ∷ 8 ∷ 9 ∷ []))
getgroups-setgroups_example =
    getgroups-setgroups (7 ∷ 8 ∷ 9 ∷ []) 16 root (omega arith) (omega arith) (omega arith)
      (omega arith)
