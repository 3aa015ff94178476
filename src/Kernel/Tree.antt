-- ===== src/Kernel/Tree.antt =====
-- kernel/fork.c and kernel/exit.c: the tree of processes, and how fork and release link it. A
-- pointer to a task is the number of its slot. A task is the fields that these calls decide on, with
-- those that signals work on as a process of Kernel/Signal; what a read through a null pointer of the
-- task table finds is an argument.
pub mod Chains
pub mod Forked
pub mod Grow
pub mod Without
pub mod Unlinked
pub mod Prune
pub mod Pids
mod Tests
use lambda_linux_kernel.Prelude.{
  ℕ, zero, suc, ◌+◌, ◌-◌, ◌*◌, ◌^◌, Bool, true, false, not, ◌&&◌, ◌||◌, Option, none, some, List,
  [], ◌∷◌, ltb, leb, ◌==◌, if◌then◌else◌, is_some, get_or, set, length, bit_or, map,
}
use lambda_linux_kernel.Prelude.Int.{ℤ, pos, negsuc}
use lambda_linux_kernel.Kernel.Sched.{
  TaskState, running, interruptible, uninterruptible, zombie, stopped,
}
use lambda_linux_kernel.Kernel.Signal.{Process, kill_pg, is_stopped}

-- `p_pptr`, `p_cptr`, `p_ysptr` and `p_osptr`.
pub record Links : Type 0 where
  pub parent : Option ℕ
  pub child : Option ℕ
  pub younger : Option ℕ
  pub older : Option ℕ

pub record Task : Type 0 where
  pub pid : ℕ
  pub session : ℕ
  pub process : Process
  pub links : Links

abbrev pub Tasks : Type 0
Tasks = List (Option Task)

abbrev pub no_links : Links
no_links = record { parent = none; child = none; younger = none; older = none }

abbrev pub links_of : Option Task → Links
links_of none = no_links
links_of (some t) = t.links

abbrev pub task : Tasks → ℕ → Option Task
task ts i = get_or ts i none

abbrev pub links : Tasks → ℕ → Links
links ts i = links_of (task ts i)

abbrev pub at_task : (Task → Task) → Option Task → Option Task
at_task f none = none
at_task f (some t) = some (f t)

-- A write to a field of a task.
abbrev pub update : ℕ → (Task → Task) → Tasks → Tasks
update i f ts = set ts i (at_task f (task ts i))

abbrev pub relink : ℕ → (Links → Links) → Tasks → Tasks
relink i f ts = update i (λ t. record t { links = f t.links }) ts

-- A write through a pointer that is tested first.
abbrev pub relink_if : Option ℕ → (Links → Links) → Tasks → Tasks
relink_if none f ts = ts
relink_if (some i) f ts = relink i f ts

-- The end of copy_process: the new task is the youngest child.
pub link_child : (nr current : ℕ) → Tasks → Tasks
link_child nr current ts =
    let oldest = (links ts current).child in
    let ts1 =
      relink nr
        (λ l. record { parent = some current; child = none; younger = none; older = oldest }) ts in
    relink current (λ l. record l { child = some nr })
      (relink_if oldest (λ l. record l { younger = some nr }) ts1)

-- The fields of the new task, those of its parent but for these.
abbrev pub forked : (last_pid : ℕ) → Task → Task
forked last_pid t = record t {
  pid = last_pid;
  process = record t.process { state = uninterruptible; signal = 0 };
}

-- copy_process with a page for the task and its memory copied.
pub copy_process : (nr current last_pid : ℕ) → Tasks → Tasks
copy_process nr current last_pid ts =
    update nr (λ t. record t { process = record t.process { state = running } })
      (link_child nr current (set ts nr (at_task (forked last_pid) (task ts current))))

abbrev pub has_id : ℕ → Option Task → Bool
has_id id none = false
has_id id (some t) = t.pid == id || t.process.pgrp == id

-- The first loop of find_empty_process: whether it goes to repeat.
abbrev pub in_use : ℕ → Tasks → Bool
in_use id [] = false
in_use id (t ∷ ts) = has_id id t || in_use id ts

-- `if ((++last_pid)<0) last_pid=1`, for an int.
abbrev pub next_pid : ℕ → ℕ
next_pid last_pid = if ltb (last_pid + 1) (2 ^ 31) then last_pid + 1 else 1

-- `repeat`: the pid.
pub find_pid : (fuel last_pid : ℕ) → Tasks → Option ℕ
find_pid zero last_pid ts = none
find_pid (suc fuel) last_pid ts =
    let rest = find_pid fuel (next_pid last_pid) ts in
    if in_use (next_pid last_pid) ts then rest else some (next_pid last_pid)

-- The second loop, from slot `i` on.
abbrev pub find_slot : (i : ℕ) → Tasks → Option ℕ
find_slot i [] = none
find_slot i (none ∷ ts) = some i
find_slot i (some t ∷ ts) = find_slot (suc i) ts

abbrev pub rest_of : Tasks → Tasks
rest_of [] = []
rest_of (_ ∷ ts) = ts

-- The new last_pid and the slot, none for -EAGAIN.
pub find_empty_process : (last_pid : ℕ) → Tasks → Option (ℕ × Option ℕ)
find_empty_process last_pid ts = elim (find_pid (2 * length ts + 1) last_pid ts) [
  | none ↦ none
  | some pid ↦ some (pid, find_slot 1 (rest_of ts))
]

pub data Released : Type 0 where
  itself : Released
  released : Tasks → Released
  panics : Released

-- The body of the loop of release at the slot.
pub unlink : ℕ → Tasks → Tasks
unlink p ts =
    let l = links ts p in
    let ts1 = relink_if l.older (λ k. record k { younger = l.younger }) ts in
    let ts2 : Tasks = elim l.younger [
      | some y ↦ relink y (λ k. record k { older = l.older }) ts1
      | none ↦ relink_if l.parent (λ k. record k { child = l.older }) ts1
    ] in
    set ts2 p none

-- free_page and schedule come after it.
pub release : (current p : ℕ) → Tasks → Released
release current p ts =
    if p == current
    then itself
    else if not (p == 0) && is_some (task ts p)
    then released (unlink p ts)
    else panics
