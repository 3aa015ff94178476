-- ===== src/Kernel/Action.antt =====
-- kernel/signal.c: signal masks, the actions of the signals, and what do_signal does on the way back to
-- the user. Words are numbers below 2 ^ 32, a negative number its complement. What is written to user
-- memory is part of the result; the check of that memory may copy pages and changes nothing here.
pub mod Unblocked
mod Tests
use lambda_linux_kernel.Prelude.{
  ℕ, zero, suc, ◌+◌, ◌-◌, ◌*◌, ◌/◌, ◌%◌, ◌^◌, Bool, true, false, not, ◌&&◌, ◌||◌, List, [], ◌∷◌,
  ◌++◌, ltb, ◌==◌, if◌then◌else◌, get_or, set, bit_and, bit_or,
}
use lambda_linux_kernel.Prelude.Bits.{bit}
use lambda_linux_kernel.Kernel.Sched.{TaskState, stopped, complement}

pub record Sigaction : Type 0 where
  pub sa_handler : ℕ
  pub sa_mask : ℕ
  pub sa_flags : ℕ
  pub sa_restorer : ℕ

-- The current process, with the pending signals and the flags for SIGCHLD of its parent.
pub record Task : Type 0 where
  pub blocked : ℕ
  pub signal : ℕ
  pub state : TaskState
  pub exit_code : ℕ
  pub actions : List Sigaction
  pub parent_signal : ℕ
  pub parent_flags : ℕ

abbrev pub minus : ℕ → ℕ
minus n = 2 ^ 32 - n

abbrev pub eintr : ℕ
eintr = 4

abbrev pub einval : ℕ
einval = 22

abbrev pub erestartsys : ℕ
erestartsys = 512

abbrev pub erestartnointr : ℕ
erestartnointr = 513

abbrev pub no_action : Sigaction
no_action = record { sa_handler = 0; sa_mask = 0; sa_flags = 0; sa_restorer = 0 }

-- `sigaction[signum - 1]`
abbrev pub action : ℕ → Task → Sigaction
action signum t = get_or t.actions (signum - 1) no_action

abbrev pub set_action : ℕ → Sigaction → Task → Task
set_action signum sa t = record t { actions = set t.actions (signum - 1) sa }

-- SA_INTERRUPT, SA_NOMASK and SA_ONESHOT are bits 29, 30 and 31.
abbrev pub has_flag : ℕ → Sigaction → Bool
has_flag k sa = bit sa.sa_flags k == 1

pub sys_sgetmask : Task → ℕ
sys_sgetmask t = t.blocked

pub sys_ssetmask : ℕ → Task → ℕ × Task
sys_ssetmask newmask t = (
  t.blocked,
  record t { blocked = bit_and (bit_and newmask (complement (2 ^ 8))) (complement (2 ^ 18)) },
)

-- What is stored at `set`.
pub sys_sigpending : Task → ℕ
sys_sigpending t = bit_and t.blocked t.signal

-- The arguments are changed on the stack for the restart: restart and old_mask are returned with the
-- result. `paused` is what the task is once sys_pause returns.
pub sys_sigsuspend :
    (paused : Task → Task) (restart old_mask new_mask : ℕ) → Task → (ℕ × ℕ × ℕ) × Task
sys_sigsuspend paused restart old_mask new_mask t =
    if restart == 0
    then ((minus erestartnointr, 1, t.blocked), paused (record t { blocked = new_mask }))
    else ((minus eintr, restart, old_mask), record t { blocked = old_mask })

abbrev pub is_fixed : ℕ → Bool
is_fixed signum = ltb signum 1 || ltb 32 signum || signum == 9 || signum == 19

pub sys_signal : (signum handler restorer : ℕ) → Task → ℕ × Task
sys_signal signum handler restorer t = if is_fixed signum then (minus einval, t) else (
  (action signum t).sa_handler,
  set_action signum
      (record {
        sa_handler = handler;
        sa_mask = 0;
        sa_flags = 2 ^ 31 + 2 ^ 30;
        sa_restorer = restorer;
      })
      t,
)

-- The action that is stored for the new one that the user gives.
abbrev pub stored_action : ℕ → Sigaction → Sigaction
stored_action signum sa =
    if has_flag 30 sa
    then record sa { sa_mask = 0 }
    else record sa { sa_mask = bit_or sa.sa_mask (2 ^ (signum - 1)) }

-- With the result, the old action, which is stored if there is a place for it.
pub sys_sigaction : (signum : ℕ) → Sigaction → Task → (ℕ × Sigaction) × Task
sys_sigaction signum new t =
    if is_fixed signum
    then ((minus einval, no_action), t)
    else ((0, action signum t), set_action signum (stored_action signum new) t)

-- The registers of the user, as they lie on the kernel stack.
pub record Regs : Type 0 where
  pub eax : ℕ
  pub ecx : ℕ
  pub edx : ℕ
  pub orig_eax : ℕ
  pub eip : ℕ
  pub eflags : ℕ
  pub esp : ℕ

-- What do_signal comes to: on to the next signal, the end of the process, or the handler, with the
-- longs from `esp` up.
pub data Outcome : Type 0 where
  ignored : Regs → Task → Outcome
  exits : (code : ℕ) → Task → Outcome
  handled : (frame : List ℕ) → Regs → Task → Outcome

-- The restart of a system call that the signal has interrupted.
pub restart_call : (signr : ℕ) → Sigaction → Regs → Regs
restart_call signr sa r =
    if not (r.orig_eax == minus 1) && (r.eax == minus erestartsys || r.eax == minus erestartnointr)
    then if r.eax == minus erestartsys && (has_flag 29 sa || ltb signr 18 || ltb 22 signr)
      then record r { eax = minus eintr }
      else record r { eax = r.orig_eax; eip = (r.eip + 2 ^ 32 - 2) % 2 ^ 32 }
    else r

-- The parent is told, unless it has set SA_NOCLDSTOP.
pub stop_task : ℕ → Task → Task
stop_task signr t =
    let t' = record t { state = stopped; exit_code = signr } in
    if bit t.parent_flags 0 == 1
    then t'
    else record t' { parent_signal = bit_or t.parent_signal (2 ^ 16) }

-- The default action. `core_dump` returns 0, so all that dump their core end alike.
pub default_action : (signr : ℕ) → Regs → Task → Outcome
default_action signr r t =
    if signr == 18 || signr == 17
    then ignored r t
    else if signr == 19 || signr == 20 || signr == 21 || signr == 22
    then ignored r (stop_task signr t)
    else exits signr t

-- `tmp_esp`: what the handler finds on its stack.
pub frame_of : (signr : ℕ) → Sigaction → Regs → Task → List ℕ
frame_of signr sa r t =
    (sa.sa_restorer ∷ signr ∷ [])
    ++ (if has_flag 30 sa then [] else t.blocked ∷ [])
    ++ (r.eax ∷ r.ecx ∷ r.edx ∷ r.eflags ∷ r.eip ∷ [])

pub call_handler : (signr : ℕ) → Sigaction → Regs → Task → Outcome
call_handler signr sa r t =
    let t' = if has_flag 31 sa then set_action signr (record sa { sa_handler = 0 }) t else t in
    let longs = if has_flag 30 sa then 7 else 8 in
    handled (frame_of signr sa r t)
      (record r { eip = sa.sa_handler; esp = (r.esp + 2 ^ 32 - 4 * longs) % 2 ^ 32 })
      (record t' { blocked = bit_or t.blocked sa.sa_mask })

pub do_signal : (signr : ℕ) → Regs → Task → Outcome
do_signal signr r t =
    let sa = action signr t in
    let r' = restart_call signr sa r in
    if sa.sa_handler == 1
    then ignored r' t
    else if sa.sa_handler == 0
    then default_action signr r' t
    else call_handler signr sa r' t
