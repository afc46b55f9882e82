-- ===== src/Perm.antt =====
-- The permission checks of drivers/fs/perm.c on a vnode. A result is 1, or 0 with `errno`.
pub mod Classes
mod Tests
use pml.Common.{ℕ, ◌*◌, ◌+◌, Bool, true, false, not, ◌&&◌, ◌||◌, bit_and, ◌==◌, if◌then◌else◌}
use pml.Errno.{Done, done, err, eacces, espipe}
use pml.Cred.{Cred}

-- the fields of `struct vnode` that the checks read
pub record Vnode : Type 0 where
  pub mode : ℕ
  pub uid : ℕ
  pub gid : ℕ

-- The bits of stat.h: read, write and execute for the owner, the group and others; the file types.
abbrev pub s_irusr : ℕ
s_irusr = 0o400

abbrev pub s_iwusr : ℕ
s_iwusr = 0o200

abbrev pub s_ixusr : ℕ
s_ixusr = 0o100

abbrev pub s_irgrp : ℕ
s_irgrp = 0o040

abbrev pub s_iwgrp : ℕ
s_iwgrp = 0o020

abbrev pub s_ixgrp : ℕ
s_ixgrp = 0o010

abbrev pub s_iroth : ℕ
s_iroth = 0o004

abbrev pub s_iwoth : ℕ
s_iwoth = 0o002

abbrev pub s_ixoth : ℕ
s_ixoth = 0o001

abbrev pub s_ifmt : ℕ
s_ifmt = 0o170000

abbrev pub s_ififo : ℕ
s_ififo = 0o010000

abbrev pub s_ifchr : ℕ
s_ifchr = 0o020000

abbrev pub s_ifdir : ℕ
s_ifdir = 0o040000

abbrev pub s_ifsock : ℕ
s_ifsock = 0o140000

-- `mode & bit`, as a test
abbrev pub has : ℕ → ℕ → Bool
has mode bit = not (bit_and mode bit == 0)

-- `S_ISDIR` and its like
abbrev pub is_type : ℕ → ℕ → Bool
is_type mode type = bit_and mode s_ifmt == type

-- `THIS_PROCESS->uid` or `THIS_PROCESS->euid`, by the flag `real`; so for the group.
abbrev pub user_of : Bool → Cred → ℕ
user_of real c = if real then c.uid else c.euid

abbrev pub group_of : Bool → Cred → ℕ
group_of real c = if real then c.gid else c.egid

abbrev pub pass : Done
pass = done

abbrev pub fail : Done
fail = err eacces

pub can_read : Vnode → (real : Bool) → Cred → Done
can_read vp real c =
    let uid = user_of real c in
    let gid = group_of real c in
    if uid == 0
    then pass
    else if vp.uid == uid
    then (if not (has vp.mode s_irusr)
        then fail
        else if is_type vp.mode s_ifdir && not (has vp.mode s_ixusr)
        then fail
        else pass)
    else if vp.gid == gid
    then (if not (has vp.mode s_irgrp)
        then fail
        else if is_type vp.mode s_ifdir && not (has vp.mode s_ixgrp)
        then fail
        else pass)
    else if not (has vp.mode s_iroth)
    then fail
    else if is_type vp.mode s_ifdir && not (has vp.mode s_ixoth)
    then fail
    else pass

pub can_write : Vnode → (real : Bool) → Cred → Done
can_write vp real c =
    let uid = user_of real c in
    let gid = group_of real c in
    if uid == 0
    then pass
    else if vp.uid == uid
    then (if not (has vp.mode s_iwusr)
        then fail
        else if is_type vp.mode s_ifdir && not (has vp.mode s_ixusr)
        then fail
        else pass)
    else if vp.gid == gid
    then (if not (has vp.mode s_iwgrp)
        then fail
        else if is_type vp.mode s_ifdir && not (has vp.mode s_ixgrp)
        then fail
        else pass)
    else if not (has vp.mode s_iwoth)
    then fail
    else if is_type vp.mode s_ifdir && not (has vp.mode s_ixoth)
    then fail
    else pass

pub can_exec : Vnode → (real : Bool) → Cred → Done
can_exec vp real c =
    let uid = user_of real c in
    let gid = group_of real c in
    if uid == 0
    then (if has vp.mode (s_ixusr + s_ixgrp + s_ixoth) then pass else fail)
    else if vp.uid == uid
    then (if not (has vp.mode s_ixusr) then fail else pass)
    else if vp.gid == gid
    then (if not (has vp.mode s_ixgrp) then fail else pass)
    else if not (has vp.mode s_ixoth)
    then fail
    else pass

pub can_seek : Vnode → Done
can_seek vp =
    if is_type vp.mode s_ififo || (is_type vp.mode s_ifsock || is_type vp.mode s_ifchr)
    then err espipe
    else done
