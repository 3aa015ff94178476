-- ===== src/Kernel/Tree/Tests.antt =====
-- kernel/fork.c: a slot and a pid among three tasks of which one holds the next pid.
use lambda_linux_kernel.Prelude.{ℕ, ◌≡◌, refl, none, some, [], ◌∷◌, replicate, arith}
use lambda_linux_kernel.Kernel.Sched.{running}
use lambda_linux_kernel.Kernel.Signal.{Process}
use lambda_linux_kernel.Kernel.Tree.{Task, Tasks, no_links, find_empty_process, find_pid}
use lambda_linux_kernel.Kernel.Tree.Pids.{IsFound, find_empty_process-IsFound}

abbrev sleeper : ℕ → Process
sleeper pgrp = record {
  pgrp = pgrp;
  euid = 0;
  state = running;
  exit_code = 0;
  signal = 0;
  handlers = replicate 32 0;
}

abbrev process : ℕ → ℕ → Task
process pid pgrp = record { pid = pid; session = 0; process = sleeper pgrp; links = no_links }

abbrev tasks : Tasks
tasks = some (process 0 0) ∷ some (process 6 7) ∷ none ∷ some (process 8 1) ∷ []

skips_group : find_empty_process 5 tasks ≡ some (9, some 2)
unfolding find_empty_process find_pid
skips_group = refl

find_empty_process-IsFound_example : IsFound tasks (find_empty_process 5 tasks)
find_empty_process-IsFound_example =
    find_empty_process-IsFound 5 (some (process 0 0))
      (some (process 6 7) ∷ none ∷ some (process 8 1) ∷ []) (omega arith) (omega arith)
