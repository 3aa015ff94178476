-- ===== src/Kernel/Signal.antt =====
-- kernel/exit.c: send_sig and kill_pg. A process is the fields that they read and write; `handlers`
-- is `sa_handler` of the 32 signals. The table is the task slots, an empty one `none`; what a read of
-- `pgrp` through its null pointer finds is an argument.
pub mod Send
pub mod Group
mod Tests
use lambda_linux_kernel.Prelude.{
  ℕ, zero, suc, ◌+◌, ◌-◌, ◌^◌, Bool, true, false, not, ◌&&◌, ◌||◌, Option, none, some, List, [],
  ◌∷◌, ltb, leb, ◌==◌, if◌then◌else◌, get_or, bit_and, bit_or,
}
use lambda_linux_kernel.Prelude.Int.{ℤ, pos, negsuc, eqb_ℤ}
use lambda_linux_kernel.Kernel.Sched.{TaskState, running, stopped, complement}

pub record Process : Type 0 where
  pub pgrp : ℕ
  pub euid : ℕ
  pub state : TaskState
  pub exit_code : ℕ
  pub signal : ℕ
  pub handlers : List ℕ

-- -EPERM, -ESRCH and -EINVAL.
abbrev pub eperm : ℤ
eperm = negsuc 0

abbrev pub esrch : ℤ
esrch = negsuc 2

abbrev pub einval : ℤ
einval = negsuc 21

-- SIGSTOP (19), SIGTSTP (20), SIGTTIN (21) and SIGTTOU (22).
abbrev pub stop_mask : ℕ
stop_mask = bit_or (2 ^ 18) (bit_or (2 ^ 19) (bit_or (2 ^ 20) (2 ^ 21)))

abbrev pub is_stopped : TaskState → Bool
is_stopped stopped = true
is_stopped _ = false

-- What SIGKILL (9) and SIGCONT (18) do first.
pub resume : Process → Process
resume p = record p {
  state = if is_stopped p.state then running else p.state;
  exit_code = 0;
  signal = bit_and p.signal (complement stop_mask);
}

abbrev pub resumes : ℕ → Bool
resumes sig = sig == 9 || sig == 18

abbrev pub stops : ℕ → Bool
stops sig = leb 19 sig && leb sig 22

-- A stop signal takes back SIGCONT; then the signal is posted.
pub post : ℕ → Process → Process
post sig p =
    let pending = if stops sig then bit_and p.signal (complement (2 ^ 17)) else p.signal in
    record p { signal = bit_or pending (2 ^ (sig - 1)) }

abbrev pub is_ignored : ℕ → Process → Bool
is_ignored sig p = get_or p.handlers (sig - 1) 0 == 1

-- `send_sig` on a process that is there, with permission.
pub deliver : ℕ → Process → Process
deliver sig p =
    let q = if resumes sig then resume p else p in if is_ignored sig p then q else post sig q

-- `send_sig` for signals 1 to 32; `euid` is that of the caller.
pub send_sig : (euid sig : ℕ) (priv : Bool) → Option Process → ℤ × Option Process
send_sig euid sig priv none = (einval, none)
send_sig euid sig priv (some p) =
    if not priv && (not (euid == p.euid) && not (euid == 0))
    then (eperm, some p)
    else (pos 0, some (deliver sig p))

abbrev pub pgrp_of : (null_pgrp : ℕ) → Option Process → ℕ
pgrp_of null_pgrp none = null_pgrp
pgrp_of null_pgrp (some p) = p.pgrp

-- The loop of `kill_pg`, from the last slot down: the slots, `retval` and `found`.
pub kill_loop :
    (null_pgrp euid pgrp sig : ℕ) (priv : Bool)
    → List (Option Process)
    → List (Option Process) × ℤ × ℕ
kill_loop null_pgrp euid pgrp sig priv [] = ([], esrch, 0)
kill_loop null_pgrp euid pgrp sig priv (p ∷ ps) =
    let (qs, retval, found) = kill_loop null_pgrp euid pgrp sig priv ps in
    let (err, q) = send_sig euid sig priv p in
    if pgrp_of null_pgrp p == pgrp
    then if eqb_ℤ err (pos 0) then (q ∷ qs, retval, found + 1) else (q ∷ qs, err, found)
    else (p ∷ qs, retval, found)

-- Slot 0, `FIRST_TASK`, is left out. A negative `sig` or `pgrp` is refused as 0 is.
pub kill_pg :
    (null_pgrp euid pgrp sig : ℕ) (priv : Bool) → List (Option Process) → ℤ × List (Option Process)
kill_pg null_pgrp euid pgrp sig priv [] = (einval, [])
kill_pg null_pgrp euid pgrp sig priv (first ∷ ps) =
    let (qs, retval, found) = kill_loop null_pgrp euid pgrp sig priv ps in
    if ltb sig 1 || (ltb 32 sig || pgrp == 0)
    then (einval, first ∷ ps)
    else (if found == 0 then retval else pos 0, first ∷ qs)
