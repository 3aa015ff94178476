-- ===== src/Kernel/Timer/Tests.antt =====
-- The timer theorems at concrete chains.
use lambda_linux_kernel.Prelude.{◌≡◌, refl, ◌++◌, [], ◌∷◌, arith, ◌-◌}
use lambda_linux_kernel.Prelude.Int.{pos}
use lambda_linux_kernel.Kernel.Timer.{Chain, timer, move_back, add_timer, queued}
use lambda_linux_kernel.Kernel.Timer.Insert.{
  deadlines, before, after, last_before, delay, add_timer-deadlines,
}
use lambda_linux_kernel.Kernel.Timer.Ticks.{due, left, ticks, ticks-due}

-- Function 7 is due at 10, function 8 at 15.
abbrev chain : Chain
chain = timer 10 7 ∷ timer 5 8 ∷ []

-- A timer for 4 puts both off by 4.
puts_off : add_timer (pos 4) 9 chain ≡ queued (timer 4 9 ∷ timer 10 7 ∷ timer 5 8 ∷ [])
unfolding add_timer move_back
puts_off = refl

add_timer-deadlines_example :
    (c' : Chain) × (add_timer (pos 12) 9 chain ≡ queued c')
    × (deadlines 0 c'
        ≡ before 12 (deadlines 0 chain)
          ++ ((12, 9)
              ∷ delay (12 - last_before 0 12 (deadlines 0 chain)) (after 12 (deadlines 0 chain))))
add_timer-deadlines_example =
    add_timer-deadlines 12 9 chain (omega arith) (omega arith) (omega arith)

ticks-due_example :
    ((ticks 12 chain).0 ≡ due 12 (deadlines 0 chain))
    × (deadlines 0 (ticks 12 chain).1 ≡ left 12 (deadlines 0 chain))
ticks-due_example = ticks-due 12 chain (omega arith) (omega arith)
