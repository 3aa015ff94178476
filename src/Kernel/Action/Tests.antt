-- ===== src/Kernel/Action/Tests.antt =====
-- kernel/signal.c: a process that catches SIGINT once, and tries to catch SIGKILL.
use lambda_linux_kernel.Prelude.{◌^◌, ◌-◌, ◌≡◌, refl, List, [], ◌∷◌, replicate}
use lambda_linux_kernel.Kernel.Sched.{running}
use lambda_linux_kernel.Kernel.Action.{Task, Regs, no_action, exits, do_signal}
use lambda_linux_kernel.Kernel.Action.Unblocked.{
  Call, set_handler, set_mask, take_signal, run, IsStopped, run-IsStopped,
}

abbrev task : Task
task = record {
  blocked = 0;
  signal = 0;
  state = running;
  exit_code = 0;
  actions = replicate 32 no_action;
  parent_signal = 0;
  parent_flags = 0;
}

abbrev regs : Regs
regs = record {
  eax = 1;
  ecx = 2;
  edx = 3;
  orig_eax = 2 ^ 32 - 1;
  eip = 0x1000;
  eflags = 0;
  esp = 0x4000;
}

abbrev calls : List Call
calls =
    set_handler 9 0x2000 0x3000
    ∷ set_handler 2 0x2000 0x3000
    ∷ take_signal 2 regs
    ∷ set_mask (2 ^ 32 - 1)
    ∷ []

run-IsStopped_example :
    (do_signal 9 regs (run calls task) ≡ exits 9 (run calls task))
    × IsStopped 19 (do_signal 19 regs (run calls task))
run-IsStopped_example = run-IsStopped calls task regs refl refl
