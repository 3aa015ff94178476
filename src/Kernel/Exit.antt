-- ===== src/Kernel/Exit.antt =====
-- kernel/exit.c: do_exit from the point where the task becomes a zombie to where init has its children.
-- `nothing` is what a read through a null pointer finds.
pub mod Quiet
pub mod Inherit
pub mod Adopt
pub mod Gone
pub mod Family
pub mod Steps
mod Tests
use lambda_linux_kernel.Prelude.{
  ℕ, zero, suc, ◌+◌, ◌-◌, ◌*◌, ◌^◌, Bool, true, false, not, ◌&&◌, ◌||◌, Option, none, some, List,
  [], ◌∷◌, ltb, leb, ◌==◌, if◌then◌else◌, is_some, get_or, set, length, bit_or, map,
}
use lambda_linux_kernel.Kernel.Sched.{
  TaskState, running, interruptible, uninterruptible, zombie, stopped,
}
use lambda_linux_kernel.Kernel.Signal.{Process, kill_pg, is_stopped}
use lambda_linux_kernel.Kernel.Tree.{
  Links, Task, Tasks, task, links, update, relink, relink_if, rest_of,
}

abbrev pub or_null : Task → Option Task → Task
or_null nothing none = nothing
or_null nothing (some t) = t

-- What a pointer points to.
abbrev pub follow : Task → Tasks → Option ℕ → Task
follow nothing ts none = nothing
follow nothing ts (some i) = or_null nothing (task ts i)

abbrev pub is_zombie : TaskState → Bool
is_zombie zombie = true
is_zombie _ = false

-- A task of the group whose parent is in another one of the session.
abbrev pub connects : Task → (pgrp : ℕ) → Tasks → Option Task → Bool
connects nothing pgrp ts none = false
connects nothing pgrp ts (some t) =
    let parent = follow nothing ts t.links.parent in
    t.process.pgrp == pgrp
    && not (is_zombie t.process.state)
    && not (parent.pid == 1)
    && not (parent.process.pgrp == pgrp)
    && parent.session == t.session

abbrev any_slot : (Option Task → Bool) → Tasks → Bool
any_slot f [] = false
any_slot f (t ∷ ts) = any_slot f ts || f t

pub is_orphaned_pgrp : Task → (pgrp : ℕ) → Tasks → Bool
is_orphaned_pgrp nothing pgrp ts = not (any_slot (connects nothing pgrp ts) (rest_of ts))

abbrev pub is_stopped_job : Task → (pgrp : ℕ) → Option Task → Bool
is_stopped_job nothing pgrp t =
    (or_null nothing t).process.pgrp == pgrp && is_stopped (or_null nothing t).process.state

pub has_stopped_jobs : Task → (pgrp : ℕ) → Tasks → Bool
has_stopped_jobs nothing pgrp ts = any_slot (is_stopped_job nothing pgrp) (rest_of ts)

abbrev pub process_of : Option Task → Option Process
process_of none = none
process_of (some t) = some t.process

abbrev pub with_process : Option Task → Option Process → Option Task
with_process (some t) (some p) = some (record t { process = p })
with_process t p = t

abbrev pub put_back : Tasks → List (Option Process) → Tasks
put_back (t ∷ ts) (p ∷ ps) = with_process t p ∷ put_back ts ps
put_back ts ps = ts

-- kill_pg with `priv` set.
abbrev pub signal_group : Task → (euid pgrp sig : ℕ) → Tasks → Tasks
signal_group nothing euid pgrp sig ts =
    put_back ts (kill_pg nothing.process.pgrp euid pgrp sig true (map process_of ts)).1

-- SIGHUP and SIGCONT for a group that the exit of `t` leaves an orphan: that of `p`, where `q` was
-- the connection outside.
pub hang_up : Task → (t p q : Task) → Tasks → Tasks
hang_up nothing t p q ts =
    if not (q.process.pgrp == p.process.pgrp)
      && q.session == p.session
      && is_orphaned_pgrp nothing p.process.pgrp ts
      && has_stopped_jobs nothing p.process.pgrp ts
    then signal_group nothing t.process.euid p.process.pgrp 18
        (signal_group nothing t.process.euid p.process.pgrp 1 ts)
    else ts

-- `p_pptr->signal |= (1<<(SIGCHLD-1))`.
abbrev pub tell : Option ℕ → Tasks → Tasks
tell none ts = ts
tell (some i) ts =
    update i
      (λ t. record t { process = record t.process { signal = bit_or t.process.signal (2 ^ 16) } })
      ts

-- "link everything into init's children": `p` is the oldest.
pub adopt : (current p : ℕ) → Tasks → Tasks
adopt current p ts =
    let ts1 = relink p (λ l. record l { older = (links ts 1).child }) ts in
    let ts2 = relink_if (links ts 1).child (λ l. record l { younger = some p }) ts1 in
    let ts3 = relink 1 (λ l. record l { child = (links ts2 current).child }) ts2 in
    relink current (λ l. record l { child = none }) ts3

-- The body of the loop over the children up to the test of p_osptr.
pub inherit_one : Task → (current p : ℕ) → Tasks → Tasks
inherit_one nothing current p ts =
    let ts1 = relink p (λ l. record l { parent = some 1 }) ts in
    let ts2 =
      if is_zombie (or_null nothing (task ts1 p)).process.state then tell (some 1) ts1 else ts1 in
    let t = or_null nothing (task ts2 current) in
    hang_up nothing t (or_null nothing (task ts2 p)) t ts2

pub inherit : Task → (fuel current p : ℕ) → Tasks → Option Tasks
inherit nothing zero current p ts = none
inherit nothing (suc fuel) current p ts =
    let ts1 = inherit_one nothing current p ts in
    elim (links ts1 p).older [
      | some q ↦ inherit nothing fuel current q ts1
      | none ↦ some (adopt current p ts1)
    ]

-- The zombie, its group and its father.
pub die : Task → (current code : ℕ) → Tasks → Tasks
die nothing current code ts =
    let ts1 =
      update current
        (λ t. record t { process = record t.process { state = zombie; exit_code = code } }) ts in
    let t = or_null nothing (task ts1 current) in
    let ts2 = hang_up nothing t t (follow nothing ts1 t.links.parent) ts1 in
    tell (links ts2 current).parent ts2

-- `none` is out of fuel.
pub do_exit : Task → (current code : ℕ) → Tasks → Option Tasks
do_exit nothing current code ts = elim (links (die nothing current code ts) current).child [
  | none ↦ some (die nothing current code ts)
  | some p ↦ inherit nothing (length ts) current p (die nothing current code ts)
]
