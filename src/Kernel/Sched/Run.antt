-- ===== src/Kernel/Sched/Run.antt =====
-- `schedule` as a whole: it ends, after one refill at most, and what it switches to.
use lambda_linux_kernel.Prelude.{
  ℕ, zero, suc, ◌^◌, ◌<◌, ◌≡◌, refl, ◌⊎◌, inl, inr, ◌≢◌, Option, none, some, [], ◌∷◌, map,
  Bool-cases, arith, ◌+◌, true, false, not, ◌&&◌, ◌==◌, ◌∙◌, sym, subst, ◌/◌,
}
use lambda_linux_kernel.Prelude.Int.{
  ℤ, pos, negsuc, ◌≤ℤ◌, ◌+ℤ◌, eqb_ℤ, asr1, wrap32, wrap32_in, +ℤ-pos,
}
use lambda_linux_kernel.Kernel.Sched.{
  deliverable, is_interruptible, Task, Slots, slot, select, nr_tasks, in_slot, each_but_first,
  refill, refill_all, check_all, check_task, check_signal, check_alarm, check_timeout,
  schedule_loop, schedule,
}
use lambda_linux_kernel.Kernel.Sched.Select.{IsRunnable, IsBest, select-IsBest}

-- The bounds that `fork`, `sys_nice` and `do_timer` keep: a positive priority, no negative counter.
pub record IsFair (t : Task) : Type 0 where
  pub counter_low : pos 0 ≤ℤ t.counter
  pub counter_high : t.counter ≤ℤ pos (2 ^ 30)
  pub priority_low : pos 1 ≤ℤ t.priority
  pub priority_high : t.priority ≤ℤ pos (2 ^ 29)

abbrev pub AllFair : Slots → Type 0
AllFair tasks = (i : ℕ) (t : Task) → slot tasks i ≡ some t → IsFair t

slot-map :
    (f : Task → Task) (ts : Slots) (i : ℕ) → slot (map (in_slot f) ts) i ≡ in_slot f (slot ts i)
slot-map f [] i = refl
slot-map f (t ∷ ts) zero = refl
slot-map f (t ∷ ts) (suc i) = slot-map f ts i

-- A task of the slots after a pass is one from before it, as it was or passed through `f`.
slot-each_but_first :
    (f : Task → Task) (tasks : Slots) (i : ℕ) (t : Task)
    → slot (each_but_first f tasks) i ≡ some t
    → (u : Task) × (slot tasks i ≡ some u) × ((t ≡ u) × (i ≡ 0) ⊎ (t ≡ f u))
unfolding each_but_first
slot-each_but_first f [] i t h = ground arith
slot-each_but_first f (o ∷ os) zero t h = (t, h, inl (refl, refl))
slot-each_but_first f (o ∷ os) (suc i) t h = found (slot os i) refl
  where
    found :
        (u : Option Task)
        → slot os i ≡ u
        → (u : Task) × (slot os i ≡ some u) × ((t ≡ u) × (suc i ≡ 0) ⊎ (t ≡ f u))
    found none e = ground (arith, slot-map f os i)
    found (some u) e = (u, e, inr (ground (arith, slot-map f os i)))

-- A refill does not wrap, ends above 0, and stays in bounds.
refill_value :
    (c p : ℤ)
    → pos 0 ≤ℤ c
    → c ≤ℤ pos (2 ^ 30)
    → pos 1 ≤ℤ p
    → p ≤ℤ pos (2 ^ 29)
    → (pos 1 ≤ℤ wrap32 (asr1 c +ℤ p)) × (wrap32 (asr1 c +ℤ p) ≤ℤ pos (2 ^ 30))
unfolding asr1
refill_value (pos n) (pos m) cl ch pl ph =
    rw (+ℤ-pos (n / 2) m, wrap32_in (pos (n / 2 + m)) (omega arith) (omega arith))
      (omega arith, omega arith)
refill_value (pos n) (negsuc m) cl ch pl ph = absurd (omega arith)
refill_value (negsuc n) p cl ch pl ph = absurd (omega arith)

refill_bounds :
    (t : Task) → IsFair t → (pos 1 ≤ℤ (refill t).counter) × ((refill t).counter ≤ℤ pos (2 ^ 30))
unfolding refill
refill_bounds t v =
    refill_value t.counter t.priority v.counter_low v.counter_high v.priority_low v.priority_high

refill-IsFair : (t : Task) → IsFair t → IsFair (refill t)
unfolding refill
refill-IsFair t v = record {
  counter_low = omega (arith, refill_bounds t v);
  counter_high = (refill_bounds t v).1;
  priority_low = v.priority_low;
  priority_high = v.priority_high;
}

-- The first loop leaves the counter and the priority alone.
check_timeout-IsFair : (j : ℕ) (t : Task) → IsFair t → IsFair (check_timeout j t)
unfolding check_timeout
check_timeout-IsFair j t v = ground arith

check_alarm-IsFair : (j : ℕ) (t : Task) → IsFair t → IsFair (check_alarm j t)
unfolding check_alarm
check_alarm-IsFair j t v = ground arith

check_signal-IsFair : (t : Task) → IsFair t → IsFair (check_signal t)
unfolding check_signal
check_signal-IsFair t v = elim (Bool-cases (not (deliverable t == 0) && is_interruptible t.state)) [
  | inl e ↦ rw e record {
    counter_low = v.counter_low;
    counter_high = v.counter_high;
    priority_low = v.priority_low;
    priority_high = v.priority_high;
  }
  | inr e ↦ rw e v
]

check_task-IsFair : (j : ℕ) (t : Task) → IsFair t → IsFair (check_task j t)
unfolding check_task
check_task-IsFair j t v =
    check_signal-IsFair _ (check_alarm-IsFair j _ (check_timeout-IsFair j t v))

each-AllFair :
    (f : Task → Task)
    → ((t : Task) → IsFair t → IsFair (f t))
    → (tasks : Slots) → AllFair tasks
    → AllFair (each_but_first f tasks)
each-AllFair f keep tasks fair i t h = back (slot-each_but_first f tasks i t h)
  where
    back : (u : Task) × (slot tasks i ≡ some u) × ((t ≡ u) × (i ≡ 0) ⊎ (t ≡ f u)) → IsFair t
    back (u, e, inl (same, _)) = subst IsFair (sym same) (fair i u e)
    back (u, e, inr new) = subst IsFair (sym new) (keep u (fair i u e))

pub check_all-AllFair : (j : ℕ) (tasks : Slots) → AllFair tasks → AllFair (check_all j tasks)
unfolding check_all
check_all-AllFair j tasks = each-AllFair (check_task j) (check_task-IsFair j) tasks

-- What `schedule` has done when it switches to `next`, with the slots then as `out`.
pub record Switched (tasks : Slots) (out : Slots) (next : ℕ) : Type 0 where
  pub c : ℤ
  pub best : IsBest out c next
  pub usable : c ≢ pos 0
  -- time slices are refilled only when no runnable task has any left
  pub refilled :
      (out ≡ tasks)
      ⊎ ((out ≡ refill_all tasks)
          × ((j : ℕ) (t : Task) → IsRunnable tasks j t → 0 < j → j < nr_tasks → t.counter ≤ℤ pos 0))

-- After a refill every counter of slots 1 to 63 is positive, so the choice ends the loop.
refilled_usable : (tasks : Slots) → AllFair tasks → (select (refill_all tasks)).0 ≢ pos 0
unfolding refill_all
refilled_usable tasks fair e = clash (select-IsBest after).from
  where
    after : Slots
    after = each_but_first refill tasks

    clash :
        ((select after).0 ≡ negsuc 0) × ((select after).1 ≡ 0)
          ⊎ ((t : Task) × IsRunnable after (select after).1 t
              × (t.counter ≡ (select after).0)
              × (0 < (select after).1)
              × ((select after).1 < nr_tasks))
        → ⊥
    clash (inl (none_left, _)) = cc
    clash (inr (t, r, same, lo, hi)) =
        full (slot-each_but_first refill tasks (select after).1 t r.held)
      where
        full :
            (u : Task) × (slot tasks (select after).1 ≡ some u)
              × ((t ≡ u) × ((select after).1 ≡ 0) ⊎ (t ≡ refill u))
            → ⊥
        full (u, at, inl (_, z)) = absurd (omega arith)
        full (u, at, inr new) = ground (arith, refill_bounds u (fair (select after).1 u at))

loop_stop :
    (fuel : ℕ) (tasks : Slots)
    → eqb_ℤ (select tasks).0 (pos 0) ≡ false
    → schedule_loop (suc fuel) tasks ≡ some (tasks, (select tasks).1)
unfolding schedule_loop
loop_stop fuel tasks e = rw e

loop_again :
    (fuel : ℕ) (tasks : Slots)
    → eqb_ℤ (select tasks).0 (pos 0) ≡ true
    → schedule_loop (suc fuel) tasks ≡ schedule_loop fuel (refill_all tasks)
unfolding schedule_loop
loop_again fuel tasks e = rw e

eqb_of_ne : (c : ℤ) → c ≢ pos 0 → eqb_ℤ c (pos 0) ≡ false
eqb_of_ne (pos zero) ne = absurd (ne refl)
eqb_of_ne (pos (suc n)) ne = ground arith
eqb_of_ne (negsuc n) ne = ground arith

-- schedule ends within two rounds of its while (1) when every task has a positive priority and a
-- counter in range, and then it switches to a runnable task of slots 1 to 63 with the largest
-- counter, which is not 0, or to task 0 if none is runnable; time slices are refilled only if no
-- runnable task has any left.
pub schedule-Switched :
    (jiffies : ℕ) (tasks : Slots)
    → AllFair tasks
    → (out : Slots) × (next : ℕ) × (schedule 2 jiffies tasks ≡ some (out, next))
      × Switched (check_all jiffies tasks) out next
unfolding schedule
schedule-Switched jiffies tasks fair = split (Bool-cases (eqb_ℤ (select now).0 (pos 0)))
  where
    now : Slots
    now = check_all jiffies tasks

    fair_now : AllFair now
    fair_now = check_all-AllFair jiffies tasks fair

    Goal : Type 0
    Goal =
        (out : Slots) × (next : ℕ) × (schedule_loop 2 now ≡ some (out, next))
        × Switched now out next

    again : Slots
    again = refill_all now

    split : (eqb_ℤ (select now).0 (pos 0) ≡ true) ⊎ (eqb_ℤ (select now).0 (pos 0) ≡ false) → Goal
    split (inr e) = (
      now,
      (select now).1,
      loop_stop 1 now e,
      record {
        c = (select now).0;
        best = select-IsBest now;
        usable = λ z. ground arith;
        refilled = inl refl;
      },
    )
    split (inl e) = (
      again,
      (select again).1,
      loop_again 1 now e
          ∙ loop_stop 0 again (eqb_of_ne (select again).0 (refilled_usable now fair_now)),
      record {
        c = (select again).0;
        best = select-IsBest again;
        usable = refilled_usable now fair_now;
        refilled =
            inr (refl, λ j t r lo hi. ground (arith, (select-IsBest now).covers j t r lo hi));
      },
    )
