-- ===== src/Kernel/Timer.antt =====
-- kernel/sched.c: the delta list of kernel timers, `add_timer` and the part of `do_timer` that
-- runs it. A slot of `timer_list` has a function exactly while it is on the chain of `next_timer`,
-- so the chain in order is the state. A function is the number that stands for its address.
-- Stored delays are never negative: `add_timer` stores positive ones and takes smaller ones off,
-- and `do_timer` unlinks a timer that comes to 0.
pub mod Insert
mod Tests
pub mod Ticks
use lambda_linux_kernel.Prelude.{
  ℕ, zero, suc, ◌-◌, List, [], ◌∷◌, ltb, leb, ◌==◌, if◌then◌else◌, length,
}
use lambda_linux_kernel.Prelude.Int.{ℤ, pos, leb_ℤ, pos_part}

pub record Timer : Type 0 where
  pub jiffies : ℕ
  pub fn : ℕ

abbrev pub Chain : Type 0
Chain = List Timer

abbrev pub timer : ℕ → ℕ → Timer
timer n f = record { jiffies = n; fn = f }

abbrev pub time_requests : ℕ
time_requests = 64

-- The new timer moves behind each timer with a smaller delay, which it takes off its own.
pub move_back : ℕ → ℕ → Chain → Chain
move_back n f [] = timer n f ∷ []
move_back n f (q ∷ rest) =
    if ltb q.jiffies n then q ∷ move_back (n - q.jiffies) f rest else timer n f ∷ q ∷ rest

-- What a call does: nothing without a function, the call of the function, a panic, or a new chain.
pub data Added : Type 0 where
  ignored : Added
  called : ℕ → Added
  panicked : Added
  queued : Chain → Added

pub add_timer : ℤ → ℕ → Chain → Added
add_timer jiffies fn chain =
    if fn == 0
    then ignored
    else if leb_ℤ jiffies (pos 0)
    then called fn
    else if leb time_requests (length chain)
    then panicked
    else queued (move_back (pos_part jiffies) fn chain)

-- The `while` of `do_timer`: the functions called, in order, and the chain left.
pub run_expired : Chain → List ℕ × Chain
run_expired [] = ([], [])
run_expired (t ∷ ts) =
    let (calls, rest) = run_expired ts in
    if t.jiffies == 0 then (t.fn ∷ calls, rest) else ([], t ∷ ts)

pub tick : Chain → List ℕ × Chain
tick [] = ([], [])
tick (t ∷ ts) = run_expired (timer (t.jiffies - 1) t.fn ∷ ts)
