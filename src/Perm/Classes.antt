-- ===== src/Perm/Classes.antt =====
-- The checks in terms of the three octal digits of the mode: one class of bits decides, the owner's,
-- the group's or the others', and for reading and writing a directory has to be searchable too.
use pml.Common.{ℕ, ◌/◌, ◌%◌, ◌^◌, ◌≡◌, Bool, not, ◌&&◌, ◌||◌, arith, ◌==◌, if◌then◌else◌}
use pml.Common.Bits.{bit_and-pow}
use pml.Cred.{Cred}
use pml.Errno.{Done}
use pml.Perm.{
  Vnode, has, is_type, user_of, group_of, can_read, can_write, can_exec, pass, fail, s_ifdir,
}

-- which digit of the mode decides: 2 for the owner, 1 for the group, 0 for others
abbrev pub class : Vnode → Bool → Cred → ℕ
class vp real c = if vp.uid == user_of real c then 2 else if vp.gid == group_of real c then 1 else 0

-- whether that digit, of weights 4 to read, 2 to write and 1 to execute, has a weight
abbrev pub grants : Vnode → Bool → Cred → ℕ → Bool
grants vp real c weight = vp.mode / 8 ^ class vp real c % 8 / weight % 2 == 1

-- the access that reading and writing ask for: the weight, and for a directory the weight 1 too
abbrev pub access : Vnode → Bool → Cred → ℕ → Bool
access vp real c weight =
    user_of real c == 0
    || (grants vp real c weight && (not (is_type vp.mode s_ifdir) || grants vp real c 1))

abbrev pub decide : Bool → Done
decide b = if b then pass else fail

has_8 : (m : ℕ) → has m 0o400 ≡ (m / 64 % 8 / 4 % 2 == 1)
has_8 m = rw (bit_and-pow m 8) (ground arith)

has_7 : (m : ℕ) → has m 0o200 ≡ (m / 64 % 8 / 2 % 2 == 1)
has_7 m = rw (bit_and-pow m 7) (ground arith)

has_6 : (m : ℕ) → has m 0o100 ≡ (m / 64 % 8 / 1 % 2 == 1)
has_6 m = rw (bit_and-pow m 6) (ground arith)

has_5 : (m : ℕ) → has m 0o040 ≡ (m / 8 % 8 / 4 % 2 == 1)
has_5 m = rw (bit_and-pow m 5) (ground arith)

has_4 : (m : ℕ) → has m 0o020 ≡ (m / 8 % 8 / 2 % 2 == 1)
has_4 m = rw (bit_and-pow m 4) (ground arith)

has_3 : (m : ℕ) → has m 0o010 ≡ (m / 8 % 8 / 1 % 2 == 1)
has_3 m = rw (bit_and-pow m 3) (ground arith)

has_2 : (m : ℕ) → has m 0o004 ≡ (m / 1 % 8 / 4 % 2 == 1)
has_2 m = rw (bit_and-pow m 2) (ground arith)

has_1 : (m : ℕ) → has m 0o002 ≡ (m / 1 % 8 / 2 % 2 == 1)
has_1 m = rw (bit_and-pow m 1) (ground arith)

has_0 : (m : ℕ) → has m 0o001 ≡ (m / 1 % 8 / 1 % 2 == 1)
has_0 m = rw (bit_and-pow m 0) (ground arith)

-- The super-user may read any file; another user needs the weight 4 in the deciding digit, and for
-- a directory the weight 1 too.
pub can_read_lem :
    (vp : Vnode) (real : Bool) (c : Cred) → can_read vp real c ≡ decide (access vp real c 4)
unfolding can_read
can_read_lem vp real c =
    rw (has_8 vp.mode, has_6 vp.mode, has_5 vp.mode, has_3 vp.mode, has_2 vp.mode, has_0 vp.mode)
      (ground arith)

-- The super-user may write any file; another user needs the weight 2 in the deciding digit, and for
-- a directory the weight 1 too.
pub can_write_lem :
    (vp : Vnode) (real : Bool) (c : Cred) → can_write vp real c ≡ decide (access vp real c 2)
unfolding can_write
can_write_lem vp real c =
    rw (has_7 vp.mode, has_6 vp.mode, has_4 vp.mode, has_3 vp.mode, has_1 vp.mode, has_0 vp.mode)
      (ground arith)

-- The super-user may execute a file if the mode has an execute bit; any other user needs the
-- weight 1 in the deciding digit.
pub can_exec_lem :
    (vp : Vnode) (real : Bool) (c : Cred)
    → can_exec vp real c
      ≡ decide (if user_of real c == 0 then has vp.mode 0o111 else grants vp real c 1)
unfolding can_exec
can_exec_lem vp real c = rw (has_6 vp.mode, has_3 vp.mode, has_0 vp.mode) (ground arith)
