-- ===== src/Kernel/Cred/Tests.antt =====
-- The theorems on the ids at concrete processes.
use lambda_linux_kernel.Prelude.{◌≡◌, refl, ◌⊎◌, [], ◌∷◌, arith}
use lambda_linux_kernel.Prelude.Int.{pos}
use lambda_linux_kernel.Kernel.Cred.{
  Cred, ok, eperm, call, calls, setuid, setreuid, setregid, sys_setregid,
}
use lambda_linux_kernel.Kernel.Cred.Guard.{IsCred, call_atomic}
use lambda_linux_kernel.Kernel.Cred.Privilege.{UserAmong, GroupAmong, calls-IdsAmong, setuid_drops}

-- A set-user-id program of user 5 run by user 100.
abbrev user : Cred
user = record { uid = 100; euid = 5; suid = 5; gid = 20; egid = 30; sgid = 30 }

abbrev root : Cred
root = record { uid = 0; euid = 0; suid = 0; gid = 0; egid = 0; sgid = 0 }

-- `setregid` does not take the effective group for the real one.
refuses_egid : sys_setregid (pos 30) (pos 0) user ≡ (eperm, user)
unfolding sys_setregid
refuses_egid = refl

user-IsCred : IsCred user
user-IsCred = omega arith

root-IsCred : IsCred root
root-IsCred = omega arith

call_atomic_example :
    ((call (setreuid (pos 5) (pos 7)) user).0 ≡ ok)
    ⊎ (((call (setreuid (pos 5) (pos 7)) user).0 ≡ eperm)
        × ((call (setreuid (pos 5) (pos 7)) user).1 ≡ user))
call_atomic_example = call_atomic (setreuid (pos 5) (pos 7)) user user-IsCred

calls-IdsAmong_example :
    UserAmong 100 5 5 (calls (setregid (pos 20) (pos 20) ∷ setreuid (pos 5) (pos 100) ∷ []) user)
    × GroupAmong 20 30 30
        (calls (setregid (pos 20) (pos 20) ∷ setreuid (pos 5) (pos 100) ∷ []) user)
calls-IdsAmong_example =
    calls-IdsAmong (setregid (pos 20) (pos 20) ∷ setreuid (pos 5) (pos 100) ∷ []) 100 5 5 20 30 30
      user user-IsCred (omega arith) (omega arith) (omega arith) (omega arith) (omega arith)

setuid_drops_example :
    ((calls (setuid (pos 100) ∷ setuid (pos 0) ∷ []) root).uid ≡ 100)
    × ((calls (setuid (pos 100) ∷ setuid (pos 0) ∷ []) root).euid ≡ 100)
    × ((calls (setuid (pos 100) ∷ setuid (pos 0) ∷ []) root).suid ≡ 100)
setuid_drops_example =
    setuid_drops (setuid (pos 0) ∷ []) 100 root root-IsCred refl (omega arith) (omega arith)
