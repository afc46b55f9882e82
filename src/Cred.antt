-- ===== src/Cred.antt =====
-- The user and group IDs of a process and the calls of kernel/pid.c that read and change them. An
-- ID is an `unsigned int`; the argument `(uid_t) -1` means "leave it as it is".
pub mod Confined
pub mod Root
mod Tests
use pml.Common.{
  ℕ, ◌-◌, ◌^◌, Bool, not, ◌&&◌, ◌||◌, Option, none, some, List, ◌++◌, ltb, leb, ◌==◌, if◌then◌else◌,
  take, drop,
}
use pml.Common.Int.{ℤ, pos, negsuc}
use pml.Errno.{Result, ok, err, Done, done, eperm, einval}

-- the fields of `struct process` that hold IDs
pub record Cred : Type 0 where
  pub uid : ℕ
  pub euid : ℕ
  pub suid : ℕ
  pub gid : ℕ
  pub egid : ℕ
  pub sgid : ℕ
  pub sup_gids : List ℕ
  pub nsup_gids : ℕ

-- `(uid_t) -1` and `(gid_t) -1`
abbrev pub no_id : ℕ
no_id = 2 ^ 32 - 1

-- `NGROUPS_MAX`
abbrev pub ngroups_max : ℕ
ngroups_max = 16

abbrev pub privileged : Cred → Bool
privileged c = c.euid == 0

-- The test of one argument: it is given, and it is neither of two IDs, or none of three.
abbrev pub neither : ℕ → ℕ → ℕ → Bool
neither x a b = not (x == no_id) && (not (x == a) && not (x == b))

abbrev pub none_of : ℕ → ℕ → ℕ → ℕ → Bool
none_of x a b c = not (x == no_id) && (not (x == a) && (not (x == b) && not (x == c)))

-- An ID that is set unless the argument says to leave it.
abbrev pub given : ℕ → ℕ → ℕ
given x old = if x == no_id then old else x

pub setuid : ℕ → Cred → Done × Cred
setuid uid c =
    if not (c.euid == 0) && not (c.uid == uid)
    then (err eperm, c)
    else (done, record c { uid = uid; euid = uid; suid = uid })

pub setresuid : (ruid euid suid : ℕ) → Cred → Done × Cred
setresuid ruid euid suid c =
    if not (c.euid == 0)
      && (none_of ruid c.uid c.euid c.suid
          || (none_of euid c.uid c.euid c.suid || none_of suid c.uid c.euid c.suid))
    then (err eperm, c)
    else (
      done,
      record c { uid = given ruid c.uid; euid = given euid c.euid; suid = given suid c.suid },
    )

pub seteuid : ℕ → Cred → Done × Cred
seteuid euid c = setresuid no_id euid no_id c

-- The effective ID is set first: the saved ID follows it when it differs from the real ID.
abbrev pub with_euid : ℕ → Cred → Cred
with_euid euid c =
    if euid == no_id
    then c
    else record c { suid = if c.uid == euid then c.suid else euid; euid = euid }

abbrev pub with_ruid : ℕ → Cred → Cred
with_ruid ruid c = if ruid == no_id then c else record c { uid = ruid; suid = c.euid }

pub setreuid : (ruid euid : ℕ) → Cred → Done × Cred
setreuid ruid euid c =
    if not (c.euid == 0) && (neither ruid c.uid c.euid || none_of euid c.uid c.euid c.suid)
    then (err eperm, c)
    else (done, with_ruid ruid (with_euid euid c))

-- The group calls test the effective user ID too.
pub setgid : ℕ → Cred → Done × Cred
setgid gid c =
    if not (c.euid == 0) && not (c.gid == gid)
    then (err eperm, c)
    else (done, record c { gid = gid; egid = gid; sgid = gid })

pub setresgid : (rgid egid sgid : ℕ) → Cred → Done × Cred
setresgid rgid egid sgid c =
    if not (c.euid == 0)
      && (none_of rgid c.gid c.egid c.sgid
          || (none_of egid c.gid c.egid c.sgid || none_of sgid c.gid c.egid c.sgid))
    then (err eperm, c)
    else (
      done,
      record c { gid = given rgid c.gid; egid = given egid c.egid; sgid = given sgid c.sgid },
    )

pub setegid : ℕ → Cred → Done × Cred
setegid egid c = setresgid no_id egid no_id c

abbrev pub with_egid : ℕ → Cred → Cred
with_egid egid c =
    if egid == no_id
    then c
    else record c { sgid = if c.gid == egid then c.sgid else egid; egid = egid }

abbrev pub with_rgid : ℕ → Cred → Cred
with_rgid rgid c = if rgid == no_id then c else record c { gid = rgid; sgid = c.egid }

pub setregid : (rgid egid : ℕ) → Cred → Done × Cred
setregid rgid egid c =
    if not (c.euid == 0) && (neither rgid c.gid c.egid || none_of egid c.gid c.egid c.sgid)
    then (err eperm, c)
    else (done, with_rgid rgid (with_egid egid c))

-- `getresuid` and `getresgid` with three places to write to.
pub getresuid : Cred → ℕ × ℕ × ℕ
getresuid c = (c.uid, c.euid, c.suid)

pub getresgid : Cred → ℕ × ℕ × ℕ
getresgid c = (c.gid, c.egid, c.sgid)

-- The value returned, and what is copied to `list`. A negative `size`, taken as a `size_t`, is
-- larger than any number of groups.
pub getgroups : ℤ → Cred → Result ℕ × List ℕ
getgroups (negsuc _) c = (ok 0, take c.nsup_gids c.sup_gids)
getgroups (pos size) c =
    if size == 0
    then (ok c.nsup_gids, take 0 c.sup_gids)
    else if ltb size c.nsup_gids
    then (err einval, take 0 c.sup_gids)
    else (ok 0, take c.nsup_gids c.sup_gids)

-- The first `size` groups are overwritten; the rest of the array stays.
pub setgroups : ℕ → List ℕ → Cred → Done × Cred
setgroups size list c =
    if not (c.euid == 0)
    then (err eperm, c)
    else if ltb ngroups_max size
    then (err einval, c)
    else (done, record c { sup_gids = take size list ++ drop size c.sup_gids; nsup_gids = size })

-- A call of a process on its own IDs.
pub data Call : Type 0 where
  set_uid set_euid set_gid set_egid : ℕ → Call
  set_reuid set_regid : ℕ → ℕ → Call
  set_resuid set_resgid : ℕ → ℕ → ℕ → Call
  set_groups : ℕ → List ℕ → Call

pub step : Call → Cred → Done × Cred
step (set_uid u) c = setuid u c
step (set_euid u) c = seteuid u c
step (set_gid g) c = setgid g c
step (set_egid g) c = setegid g c
step (set_reuid r e) c = setreuid r e c
step (set_regid r e) c = setregid r e c
step (set_resuid r e s) c = setresuid r e s c
step (set_resgid r e s) c = setresgid r e s c
step (set_groups n l) c = setgroups n l c
