-- ===== src/Kernel/Sched/Tests.antt =====
-- Runs of the scheduler, and its theorems at concrete tasks.
use lambda_linux_kernel.Prelude.{ℕ, zero, suc, ◌^◌, ◌≡◌, refl, inl, inr, none, some, [], ◌∷◌, arith}
use lambda_linux_kernel.Prelude.Int.{pos, wrap32, asr1, ◌+ℤ◌}
use lambda_linux_kernel.Prelude.Bits.{bit}
use lambda_linux_kernel.Kernel.Sched.{
  Task, Slots, running, interruptible, check_timeout, check_alarm, check_signal, check_task,
  each_but_first, check_all, consider, select_loop, select, refill, refill_all, schedule_loop,
  schedule,
}
use lambda_linux_kernel.Kernel.Sched.Run.{AllFair, Switched, schedule-Switched}
use lambda_linux_kernel.Kernel.Sched.Wake.{check_task_wakes}

abbrev idle : Task
idle = record {
  state = running;
  counter = pos 15;
  priority = pos 15;
  signal = 0;
  blocked = 0;
  timeout = 0;
  alarm = 0;
}

-- A task at the end of its time slice, and one that sleeps with an alarm at 500.
abbrev spent : Task
spent = record idle { counter = pos 0 }

abbrev sleeper : Task
sleeper = record idle { state = interruptible; counter = pos 0; priority = pos 20; alarm = 500 }

abbrev tasks : Slots
tasks = some idle ∷ some spent ∷ none ∷ some sleeper ∷ []

-- At 400 only the spent task runs, after a refill; at 600 the alarm has woken the sleeper.
runs_spent :
    schedule 2 400 tasks
    ≡ some (
      some idle
          ∷ some (record spent { counter = pos 15 })
          ∷ none
          ∷ some (record sleeper { counter = pos 20 })
          ∷ [],
      1,
    )
unfolding schedule schedule_loop check_all check_task check_signal check_alarm check_timeout
    each_but_first select select_loop consider refill_all refill wrap32 asr1 ◌+ℤ◌
runs_spent = refl

runs_sleeper :
    schedule 2 600 tasks
    ≡ some (
      some idle
          ∷ some (record spent { counter = pos 15 })
          ∷ none
          ∷ some (record sleeper { state = running; counter = pos 20; signal = 2 ^ 13; alarm = 0 })
          ∷ [],
      3,
    )
unfolding schedule schedule_loop check_all check_task check_signal check_alarm check_timeout
    each_but_first select select_loop consider refill_all refill wrap32 asr1 ◌+ℤ◌
runs_sleeper = refl

tasks-AllFair : AllFair tasks
tasks-AllFair zero t h = ground arith
tasks-AllFair (suc zero) t h = ground arith
tasks-AllFair (suc (suc zero)) t h = ground arith
tasks-AllFair (suc (suc (suc zero))) t h = ground arith
tasks-AllFair (suc (suc (suc (suc i)))) t h = ground arith

schedule-Switched_example :
    (out : Slots) × (next : ℕ) × (schedule 2 400 tasks ≡ some (out, next))
    × Switched (check_all 400 tasks) out next
schedule-Switched_example = schedule-Switched 400 tasks tasks-AllFair

check_task_wakes_example : (check_task 600 sleeper).state ≡ running
unfolding bit
check_task_wakes_example =
    check_task_wakes 600 sleeper 13 refl (inr (refl, omega arith, omega arith)) (inl refl)
      (omega arith)
