-- ===== src/Kernel/Cred/Guard.antt =====
-- A call on the ids that fails changes none of them.
use lambda_linux_kernel.Prelude.{ℕ, ◌^◌, ◌<◌, ◌≡◌, true, arith, ◌⊎◌}
use lambda_linux_kernel.Prelude.Int.{ℤ, pos, negsuc, to_word}
use lambda_linux_kernel.Kernel.Cred.{
  Cred, ok, eperm, to_short, is_id, sys_setregid, sys_setgid, sys_setreuid, sys_setuid, Call,
  setregid, setgid, setreuid, setuid, call,
}

-- The ids are unsigned shorts.
pub record IsCred (c : Cred) : Type 0 where
  pub uid_fits : c.uid < 2 ^ 16
  pub euid_fits : c.euid < 2 ^ 16
  pub suid_fits : c.suid < 2 ^ 16
  pub gid_fits : c.gid < 2 ^ 16
  pub egid_fits : c.egid < 2 ^ 16
  pub sgid_fits : c.sgid < 2 ^ 16

pub to_short-lt : (z : ℤ) → to_short z < 2 ^ 16
unfolding to_short
to_short-lt z = omega arith

-- An id that equals an argument is what storing that argument gives.
pub to_short_id : (i : ℕ) (z : ℤ) → i < 2 ^ 16 → is_id i z ≡ true → to_short z ≡ i
unfolding to_short to_word
to_short_id i (pos n) h e = ground arith
to_short_id i (negsuc n) h e = ground arith

-- Every call keeps the ids in their range.
pub call-IsCred : (k : Call) (c : Cred) → IsCred c → IsCred (call k c).1
unfolding call sys_setregid sys_setgid sys_setreuid sys_setuid
call-IsCred (setregid r e) c v = ground (arith, to_short-lt r, to_short-lt e)
call-IsCred (setgid g) c v = ground (arith, to_short-lt g)
call-IsCred (setreuid r e) c v = ground (arith, to_short-lt r, to_short-lt e)
call-IsCred (setuid u) c v = ground (arith, to_short-lt u)

-- Each of the four calls returns 0 or -EPERM, and with -EPERM it leaves all six ids as they were.
pub call_atomic :
    (k : Call) (c : Cred)
    → IsCred c
    → ((call k c).0 ≡ ok) ⊎ (((call k c).0 ≡ eperm) × ((call k c).1 ≡ c))
unfolding call sys_setregid sys_setgid sys_setreuid sys_setuid
call_atomic (setregid r e) c v = ground (arith, to_short_id c.gid r)
call_atomic (setgid g) c v = ground arith
call_atomic (setreuid r e) c v = ground arith
call_atomic (setuid u) c v = ground arith
