-- ===== src/Cred/Root.antt =====
-- What the calls do for the super-user, what they refuse to others, and the list of groups.
use pml.Common.{ℕ, ◌≤◌, ◌≡◌, refl, ◌≢◌, ◌⊎◌, ◌↔◌, List, [], ◌∷◌, ◌++◌, arith, take, drop, length}
use pml.Common.Int.{pos}
use pml.Errno.{ok, err, done, eperm}
use pml.Cred.{Cred, no_id, given, setreuid, setresuid, setgroups, getgroups, getresuid, ngroups_max}

-- With effective user ID 0, `setresuid` sets each ID that is given and leaves the others, which
-- `getresuid` then reads back.
pub getresuid-setresuid :
    (r e s : ℕ) (c : Cred)
    → c.euid ≡ 0
    → ((setresuid r e s c).0 ≡ done)
      × (getresuid (setresuid r e s c).1 ≡ (given r c.uid, given e c.euid, given s c.suid))
unfolding setresuid getresuid
getresuid-setresuid r e s c h = ground arith

-- Without effective user ID 0, `setresuid` fails with EPERM and changes nothing exactly when an ID
-- that is given is none of the three that the process has.
pub setresuid_refused :
    (r e s : ℕ) (c : Cred)
    → c.euid ≢ 0
    → (setresuid r e s c ≡ (err eperm, c)) ↔ (
        ((r ≢ no_id) × (r ≢ c.uid) × (r ≢ c.euid) × (r ≢ c.suid))
        ⊎ (((e ≢ no_id) × (e ≢ c.uid) × (e ≢ c.euid) × (e ≢ c.suid))
            ⊎ ((s ≢ no_id) × (s ≢ c.uid) × (s ≢ c.euid) × (s ≢ c.suid))))
unfolding setresuid
setresuid_refused r e s c h = (λ q. ground arith, λ q. ground arith)

-- When the saved ID was left behind by `setreuid`, it is the effective one.
pub setreuid_swap :
    (c : Cred)
    → c.uid ≢ no_id
    → c.euid ≢ no_id
    → c.uid ≢ c.euid
    → setreuid c.euid c.uid c ≡ (done, record c { uid = c.euid; euid = c.uid; suid = c.uid })
unfolding setreuid
setreuid_swap c p q h = ground arith

take-take_append : (xs ys : List ℕ) → take (length xs) (take (length xs) xs ++ ys) ≡ xs
take-take_append [] ys = refl
take-take_append (x ∷ xs) ys = rw (take-take_append xs ys)

-- The super-user's `setgroups` of at most `NGROUPS_MAX` groups is read back by `getgroups`, which
-- reports their number for size 0 and copies them for a size that holds them.
pub getgroups-setgroups :
    (list : List ℕ) (size : ℕ) (c : Cred)
    → c.euid ≡ 0
    → length list ≤ ngroups_max
    → length list ≤ size
    → size ≢ 0
    → let c' = (setgroups (length list) list c).1 in
      ((getgroups (pos 0) c').0 ≡ ok (length list)) × (getgroups (pos size) c' ≡ (ok 0, list))
unfolding setgroups getgroups
getgroups-setgroups list size c h p q r =
    ground (arith, take-take_append list (drop (length list) c.sup_gids))
