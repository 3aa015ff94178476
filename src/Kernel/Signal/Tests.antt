-- ===== src/Kernel/Signal/Tests.antt =====
-- The theorems on signals at two processes of one group.
use lambda_linux_kernel.Prelude.{◌≡◌, false, none, some, [], ◌∷◌, map, replicate, arith}
use lambda_linux_kernel.Prelude.Int.{pos, eqb_ℤ}
use lambda_linux_kernel.Kernel.Sched.{running, stopped}
use lambda_linux_kernel.Kernel.Signal.{Process, send_sig, kill_pg}
use lambda_linux_kernel.Kernel.Signal.Send.{Sent, send_sig-Sent}
use lambda_linux_kernel.Kernel.Signal.Group.{signalled, any_takes, kill_pg_lem}

-- Stopped, with SIGTSTP pending.
abbrev editor : Process
editor = record {
  pgrp = 5;
  euid = 7;
  state = stopped;
  exit_code = 0;
  signal = 0x80000;
  handlers = replicate 32 0;
}

abbrev shell : Process
shell = record editor { state = running; signal = 0; pgrp = 4 }

send_sig-Sent_example : Sent 7 18 false (some editor) (send_sig 7 18 false (some editor))
send_sig-Sent_example = send_sig-Sent 7 18 false (some editor) (omega arith) (omega arith)

kill_pg_lem_example :
    ((kill_pg 0 7 5 18 false (some shell ∷ some editor ∷ none ∷ some shell ∷ [])).1
      ≡ some shell ∷ map (signalled 0 7 5 18 false) (some editor ∷ none ∷ some shell ∷ []))
    × (eqb_ℤ (kill_pg 0 7 5 18 false (some shell ∷ some editor ∷ none ∷ some shell ∷ [])).0 (pos 0)
        ≡ any_takes 0 7 5 18 false (some editor ∷ none ∷ some shell ∷ []))
kill_pg_lem_example =
    kill_pg_lem 0 7 5 18 false (some shell) (some editor ∷ none ∷ some shell ∷ []) (omega arith)
      (omega arith) (omega arith)
