-- ===== src/Kernel/Action/Unblocked.antt =====
-- kernel/signal.c: SIGKILL and SIGSTOP, whatever a process does before.
use lambda_linux_kernel.Prelude.{
  ℕ, ◌-◌, ◌≤◌, ◌≡◌, ◌≢◌, refl, true, ◌||◌, List, [], ◌∷◌, ◌==◌, get_or, get_or-set_ne,
  get_or-set_cases, arith, ap, ◌∙◌, inl, inr, Bool-cases,
}
use lambda_linux_kernel.Prelude.Bits.{bit}
use lambda_linux_kernel.Kernel.Sched.{stopped}
use lambda_linux_kernel.Kernel.Action.{
  Sigaction, Task, Regs, Outcome, ignored, exits, handled, action, set_action, no_action, is_fixed,
  has_flag, stored_action, sys_ssetmask, sys_signal, sys_sigaction, do_signal, default_action,
  call_handler, restart_call, stop_task,
}

-- What a process can do to its masks and actions, and the delivery of a signal.
pub data Call : Type 0 where
  set_mask : ℕ → Call
  set_handler : (signum handler restorer : ℕ) → Call
  set_sigaction : ℕ → Sigaction → Call
  take_signal : ℕ → Regs → Call

abbrev pub task_of : Outcome → Task
task_of (ignored r t) = t
task_of (exits code t) = t
task_of (handled frame r t) = t

abbrev pub apply : Call → Task → Task
apply (set_mask newmask) t = (sys_ssetmask newmask t).1
apply (set_handler signum handler restorer) t = (sys_signal signum handler restorer t).1
apply (set_sigaction signum sa) t = (sys_sigaction signum sa t).1
apply (take_signal signr r) t = task_of (do_signal signr r t)

abbrev pub run : List Call → Task → Task
run [] t = t
run (c ∷ calls) t = run calls (apply c t)

abbrev pub IsStopped : ℕ → Outcome → Type 0
IsStopped signr (ignored r t) = (t.state ≡ stopped) × (t.exit_code ≡ signr)
IsStopped signr (exits code t) = ⊥
IsStopped signr (handled frame r t) = ⊥

abbrev HasDefault : ℕ → Task → Type 0
HasDefault n t = (action n t).sa_handler ≡ 0

-- An action set at a signal other than `n`, or to the default.
set_action-HasDefault :
    (n signum : ℕ) (sa : Sigaction) (t : Task)
    → HasDefault n t
    → signum - 1 ≢ n - 1
    → HasDefault n (set_action signum sa t)
set_action-HasDefault n signum sa t d ne =
    ap (λ (x : Sigaction). x.sa_handler) (get_or-set_ne t.actions sa no_action ne) ∙ d

sys_signal-HasDefault :
    (n signum handler restorer : ℕ) (t : Task)
    → is_fixed n ≡ true
    → 1 ≤ n
    → HasDefault n t
    → HasDefault n (sys_signal signum handler restorer t).1
unfolding sys_signal
sys_signal-HasDefault n signum handler restorer t fixed le d = elim (Bool-cases (is_fixed signum)) [
  | inl same ↦ rw same d
  | inr free ↦ rw free (set_action-HasDefault n signum _ t d (λ e. ground arith))
]

sys_sigaction-HasDefault :
    (n signum : ℕ) (sa : Sigaction) (t : Task)
    → is_fixed n ≡ true
    → 1 ≤ n
    → HasDefault n t
    → HasDefault n (sys_sigaction signum sa t).1
unfolding sys_sigaction
sys_sigaction-HasDefault n signum sa t fixed le d = elim (Bool-cases (is_fixed signum)) [
  | inl same ↦ rw same d
  | inr free ↦
      rw free (set_action-HasDefault n signum (stored_action signum sa) t d (λ e. ground arith))
]

stop_task-actions : (signr : ℕ) (t : Task) → (stop_task signr t).actions ≡ t.actions
unfolding stop_task
stop_task-actions signr t = elim (Bool-cases (bit t.parent_flags 0 == 1)) [
  | inl e ↦ rw e refl
  | inr e ↦ rw e refl
]

default_action-actions :
    (signr : ℕ) (r : Regs) (t : Task) → (task_of (default_action signr r t)).actions ≡ t.actions
unfolding default_action
default_action-actions signr r t = elim (Bool-cases (signr == 18 || signr == 17)) [
  | inl e ↦ rw e refl
  | inr e ↦ rw e (elim (Bool-cases (signr == 19 || signr == 20 || signr == 21 || signr == 22)) [
    | inl stops ↦ rw stops (stop_task-actions signr t)
    | inr ends ↦ rw ends refl
  ])
]

-- A handler that is called may be reset.
call_handler-HasDefault :
    (n signr : ℕ) (sa : Sigaction) (r : Regs) (t : Task)
    → HasDefault n t
    → HasDefault n (task_of (call_handler signr sa r t))
unfolding call_handler
call_handler-HasDefault n signr sa r t d = elim (Bool-cases (has_flag 31 sa)) [
  | inr e ↦ rw e d
  | inl e ↦
      rw e
        (elim (get_or-set_cases t.actions (signr - 1) (n - 1) (record sa { sa_handler = 0 })
          no_action) [
            | inl new ↦ ap (λ (x : Sigaction). x.sa_handler) new
            | inr old ↦ ap (λ (x : Sigaction). x.sa_handler) old ∙ d
          ])
]

do_signal-HasDefault :
    (n signr : ℕ) (r : Regs) (t : Task)
    → HasDefault n t
    → HasDefault n (task_of (do_signal signr r t))
unfolding do_signal
do_signal-HasDefault n signr r t d =
    let sa = action signr t in
    let r' = restart_call signr sa r in
    elim (Bool-cases (sa.sa_handler == 1)) [
      | inl e ↦ rw e d
      | inr e ↦ rw e (elim (Bool-cases (sa.sa_handler == 0)) [
        | inl e ↦ rw e (
            ap (λ (sas : List Sigaction). (get_or sas (n - 1) no_action).sa_handler)
              (default_action-actions signr r' t)
            ∙ d)
        | inr e ↦ rw e (call_handler-HasDefault n signr sa r' t d)
      ])
    ]

apply-HasDefault :
    (n : ℕ) (c : Call) (t : Task)
    → is_fixed n ≡ true
    → 1 ≤ n
    → HasDefault n t
    → HasDefault n (apply c t)
unfolding sys_ssetmask
apply-HasDefault n (set_mask newmask) t fixed le d = d
apply-HasDefault n (set_handler signum handler restorer) t fixed le d =
    sys_signal-HasDefault n signum handler restorer t fixed le d
apply-HasDefault n (set_sigaction signum sa) t fixed le d =
    sys_sigaction-HasDefault n signum sa t fixed le d
apply-HasDefault n (take_signal signr r) t fixed le d = do_signal-HasDefault n signr r t d

run-HasDefault :
    (n : ℕ) (calls : List Call) (t : Task)
    → is_fixed n ≡ true
    → 1 ≤ n
    → HasDefault n t
    → HasDefault n (run calls t)
run-HasDefault n [] t fixed le d = d
run-HasDefault n (c ∷ calls) t fixed le d =
    run-HasDefault n calls (apply c t) fixed le (apply-HasDefault n c t fixed le d)

kill_exits : (r : Regs) (t : Task) → HasDefault 9 t → do_signal 9 r t ≡ exits 9 t
unfolding do_signal default_action
kill_exits r t d = rw d refl

stop-IsStopped : (r : Regs) (t : Task) → HasDefault 19 t → IsStopped 19 (do_signal 19 r t)
unfolding do_signal default_action stop_task
stop-IsStopped r t d = rw d (elim (Bool-cases (bit t.parent_flags 0 == 1)) [
  | inl e ↦ rw e (refl, refl)
  | inr e ↦ rw e (refl, refl)
])

-- In a task whose actions for SIGKILL and SIGSTOP are the default, whatever ssetmask, signal,
-- sigaction and deliveries of signals come before, a SIGKILL that do_signal delivers ends the
-- process with code 9, and a SIGSTOP stops it with code 19.
pub run-IsStopped :
    (calls : List Call) (t : Task) (r : Regs)
    → (action 9 t).sa_handler ≡ 0
    → (action 19 t).sa_handler ≡ 0
    → (do_signal 9 r (run calls t) ≡ exits 9 (run calls t))
      × IsStopped 19 (do_signal 19 r (run calls t))
run-IsStopped calls t r d d' = (
  kill_exits r (run calls t) (run-HasDefault 9 calls t refl (omega arith) d),
  stop-IsStopped r (run calls t) (run-HasDefault 19 calls t refl (omega arith) d'),
)
