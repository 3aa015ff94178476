-- ===== src/Kernel/Cred.antt =====
-- kernel/sys.c: the user and group ids of a process and the calls that change them. Of the
-- `task_struct` a `Cred` keeps the six ids, which are `unsigned short`; the arguments are `int`.
pub mod Guard
pub mod Privilege
mod Tests
use lambda_linux_kernel.Prelude.{
  ℕ, ◌%◌, ◌^◌, Bool, true, false, ◌||◌, ◌&&◌, not, List, [], ◌∷◌, ◌==◌, if◌then◌else◌,
}
use lambda_linux_kernel.Prelude.Int.{ℤ, pos, negsuc, ltb_ℤ, eqb_ℤ, to_word}

pub record Cred : Type 0 where
  pub uid : ℕ
  pub euid : ℕ
  pub suid : ℕ
  pub gid : ℕ
  pub egid : ℕ
  pub sgid : ℕ

-- What a call returns, and the ids after it.
abbrev pub Outcome : Type 0
Outcome = ℤ × Cred

-- `-EPERM`
abbrev pub eperm : ℤ
eperm = negsuc 0

abbrev pub ok : ℤ
ok = pos 0

-- An `int` stored in an `unsigned short`.
pub to_short : ℤ → ℕ
unfolding to_word
to_short z = to_word z % 2 ^ 16

-- `suser()`
abbrev pub suser : Cred → Bool
suser c = c.euid == 0

-- An id compared with an argument.
abbrev pub is_id : ℕ → ℤ → Bool
is_id i z = eqb_ℤ (pos i) z

abbrev pub positive : ℤ → Bool
positive z = ltb_ℤ (pos 0) z

-- The second half of `sys_setregid`, with the ids as the first half left them.
set_egid : ℤ → Cred → Outcome
set_egid egid c =
    if positive egid
    then if is_id c.gid egid || is_id c.egid egid || suser c
      then (ok, record c { egid = to_short egid; sgid = to_short egid })
      else (eperm, c)
    else (ok, c)

pub sys_setregid : ℤ → ℤ → Cred → Outcome
unfolding set_egid
sys_setregid rgid egid c =
    if positive rgid
    then if is_id c.gid rgid || suser c
      then set_egid egid (record c { gid = to_short rgid })
      else (eperm, c)
    else set_egid egid c

pub sys_setgid : ℤ → Cred → Outcome
sys_setgid gid c =
    if suser c
    then (ok, record c { gid = to_short gid; egid = to_short gid; sgid = to_short gid })
    else if is_id c.gid gid || is_id c.sgid gid
    then (ok, record c { egid = to_short gid })
    else (eperm, c)

-- The second half of `sys_setreuid`: a refusal puts `uid` back.
set_euid : (old_ruid : ℕ) → ℤ → Cred → Outcome
set_euid old_ruid euid c =
    if positive euid
    then if is_id old_ruid euid || is_id c.euid euid || suser c
      then (ok, record c { euid = to_short euid; suid = to_short euid })
      else (eperm, record c { uid = old_ruid })
    else (ok, c)

pub sys_setreuid : ℤ → ℤ → Cred → Outcome
unfolding set_euid
sys_setreuid ruid euid c =
    if positive ruid
    then if is_id c.euid ruid || is_id c.uid ruid || suser c
      then set_euid c.uid euid (record c { uid = to_short ruid })
      else (eperm, c)
    else set_euid c.uid euid c

pub sys_setuid : ℤ → Cred → Outcome
sys_setuid uid c =
    if suser c
    then (ok, record c { uid = to_short uid; euid = to_short uid; suid = to_short uid })
    else if is_id c.uid uid || is_id c.suid uid
    then (ok, record c { euid = to_short uid })
    else (eperm, c)

-- The calls that a process can make in any order.
pub data Call : Type 0 where
  setregid : ℤ → ℤ → Call
  setgid : ℤ → Call
  setreuid : ℤ → ℤ → Call
  setuid : ℤ → Call

pub call : Call → Cred → Outcome
call (setregid r e) c = sys_setregid r e c
call (setgid g) c = sys_setgid g c
call (setreuid r e) c = sys_setreuid r e c
call (setuid u) c = sys_setuid u c

pub calls : List Call → Cred → Cred
calls [] c = c
calls (k ∷ ks) c = calls ks (call k c).1
