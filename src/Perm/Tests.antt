-- ===== src/Perm/Tests.antt =====
-- The permission checks at concrete modes.
use pml.Common.{[], ◌≡◌, refl, true, false}
use pml.Cred.{Cred}
use pml.Perm.{Vnode, can_read, can_write, can_exec, fail}
use pml.Perm.Classes.{access, grants, decide, can_read_lem, can_write_lem, can_exec_lem}

-- a user of the file's group, and a private directory of another
abbrev user : Cred
user = record {
  uid = 7;
  euid = 7;
  suid = 7;
  gid = 5;
  egid = 5;
  sgid = 5;
  sup_gids = [];
  nsup_gids = 0;
}

abbrev listed : Vnode
listed = record { mode = 0o040741; uid = 3; gid = 5 }

-- The group's digit is 4: a directory that can be listed by no one who cannot search it.
group_refused : can_read listed true user ≡ fail
unfolding can_read
group_refused = refl

can_read_lem_example : can_read listed true user ≡ decide (access listed true user 4)
can_read_lem_example = can_read_lem listed true user

can_write_lem_example : can_write listed false user ≡ decide (access listed false user 2)
can_write_lem_example = can_write_lem listed false user

can_exec_lem_example : can_exec listed false user ≡ decide (grants listed false user 1)
can_exec_lem_example = can_exec_lem listed false user
