-- ===== src/Kernel/Sched.antt =====
-- kernel/sched.c: the scheduler proper. `task[]` is a list of slots, in which an empty slot is
-- `none`; of a task it keeps the fields that `schedule` reads and writes.
pub mod Select
pub mod Run
mod Tests
pub mod Wake
use lambda_linux_kernel.Prelude.{
  ℕ, zero, suc, ◌-◌, ◌^◌, Bool, true, false, not, ◌&&◌, Option, none, some, List, [], ◌∷◌, map, ltb,
  ◌==◌, if◌then◌else◌, get_or, bit_and, bit_or,
}
use lambda_linux_kernel.Prelude.Int.{ℤ, pos, negsuc, ltb_ℤ, eqb_ℤ, wrap32, asr1, ◌+ℤ◌}

-- The values of `state`.
pub data TaskState : Type 0 where
  running interruptible uninterruptible zombie stopped : TaskState

abbrev pub is_running : TaskState → Bool
is_running running = true
is_running _ = false

abbrev pub is_interruptible : TaskState → Bool
is_interruptible interruptible = true
is_interruptible _ = false

-- `counter` and `priority` are `long`; `signal` and `blocked` are the 32 bits of a mask.
pub record Task : Type 0 where
  pub state : TaskState
  pub counter : ℤ
  pub priority : ℤ
  pub signal : ℕ
  pub blocked : ℕ
  pub timeout : ℕ
  pub alarm : ℕ

abbrev pub Slots : Type 0
Slots = List (Option Task)

abbrev pub nr_tasks : ℕ
nr_tasks = 64

abbrev pub slot : Slots → ℕ → Option Task
slot tasks i = get_or tasks i none

-- `~x` of an unsigned long.
abbrev pub complement : ℕ → ℕ
complement x = 2 ^ 32 - 1 - x

-- `_BLOCKABLE`: all but SIGKILL (9) and SIGSTOP (19).
abbrev pub blockable : ℕ
blockable = complement (bit_or (2 ^ 8) (2 ^ 18))

-- The signals of a task that are not blocked.
abbrev pub deliverable : Task → ℕ
deliverable t = bit_and t.signal (complement (bit_and blockable t.blocked))

-- The three tests that the first loop of `schedule` makes of a task.
pub check_timeout : ℕ → Task → Task
check_timeout jiffies t =
    if not (t.timeout == 0) && ltb t.timeout jiffies
    then record t { timeout = 0; state = if is_interruptible t.state then running else t.state }
    else t

pub check_alarm : ℕ → Task → Task
check_alarm jiffies t =
    if not (t.alarm == 0) && ltb t.alarm jiffies
    then record t { signal = bit_or t.signal (2 ^ 13); alarm = 0 }
    else t

pub check_signal : Task → Task
check_signal t =
    if not (deliverable t == 0) && is_interruptible t.state then record t { state = running } else t

pub check_task : ℕ → Task → Task
check_task jiffies t = check_signal (check_alarm jiffies (check_timeout jiffies t))

abbrev pub in_slot : (Task → Task) → Option Task → Option Task
in_slot f none = none
in_slot f (some t) = some (f t)

-- `for (p = &LAST_TASK ; p > &FIRST_TASK ; --p)`: every slot but the first, each on its own.
pub each_but_first : (Task → Task) → Slots → Slots
each_but_first f [] = []
each_but_first f (t ∷ ts) = t ∷ map (in_slot f) ts

pub check_all : ℕ → Slots → Slots
check_all jiffies tasks = each_but_first (check_task jiffies) tasks

-- One round of `while (--i)`: `c` and `next` after slot `i`.
pub consider : Option Task → ℕ → ℤ → ℕ → ℤ × ℕ
consider none i c next = (c, next)
consider (some t) i c next =
    if is_running t.state && ltb_ℤ c t.counter then (t.counter, i) else (c, next)

-- The rounds for slots `i` down to 1.
pub select_loop : Slots → ℕ → ℤ → ℕ → ℤ × ℕ
select_loop tasks zero c next = (c, next)
select_loop tasks (suc i) c next =
    let (c', next') = consider (slot tasks (suc i)) (suc i) c next in select_loop tasks i c' next'

pub select : Slots → ℤ × ℕ
select tasks = select_loop tasks (nr_tasks - 1) (negsuc 0) 0

pub refill : Task → Task
refill t = record t { counter = wrap32 (asr1 t.counter +ℤ t.priority) }

pub refill_all : Slots → Slots
refill_all tasks = each_but_first refill tasks

-- `while (1)`, on fuel: the slots as the refills left them, and the task to switch to.
pub schedule_loop : ℕ → Slots → Option (Slots × ℕ)
schedule_loop zero tasks = none
schedule_loop (suc fuel) tasks =
    let again = schedule_loop fuel (refill_all tasks) in
    let (c, next) = select tasks in if eqb_ℤ c (pos 0) then again else some (tasks, next)

pub schedule : ℕ → ℕ → Slots → Option (Slots × ℕ)
schedule fuel jiffies tasks = schedule_loop fuel (check_all jiffies tasks)
