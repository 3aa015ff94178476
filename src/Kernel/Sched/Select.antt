-- ===== src/Kernel/Sched/Select.antt =====
-- The choice of `schedule`: a runnable task with the largest counter.
use lambda_linux_kernel.Prelude.{
  ℕ, zero, suc, ◌≤◌, ◌<◌, ◌≡◌, refl, ◌⊎◌, inl, inr, Option, none, some, Bool-cases, arith, ◌&&◌,
  true, ◌∙◌, sym, subst, ap,
}
use native.Mathlib.Decide.{ℕ_discrete}
use lambda_linux_kernel.Prelude.Int.{ℤ, pos, negsuc, ◌≤ℤ◌, ltb_ℤ}
use lambda_linux_kernel.Kernel.Sched.{
  Task, Slots, TaskState, running, slot, consider, select_loop, select, nr_tasks, is_running,
}

-- The runnable task of a slot.
pub record IsRunnable (tasks : Slots) (i : ℕ) (t : Task) : Type 0 where
  pub held : slot tasks i ≡ some t
  pub runs : t.state ≡ running

is_running-running : (s : TaskState) → is_running s ≡ true → s ≡ running
is_running-running running h = refl
is_running-running TaskState.interruptible h = ground arith
is_running-running TaskState.uninterruptible h = ground arith
is_running-running TaskState.zombie h = ground arith
is_running-running TaskState.stopped h = ground arith

-- A round never lowers `c`, and lifts it to the counter of a runnable task.
consider-grows : (o : Option Task) (i : ℕ) (c : ℤ) (next : ℕ) → c ≤ℤ (consider o i c next).0
unfolding consider
consider-grows none i c next = omega arith
consider-grows (some t) i c next = ground arith

consider-covers :
    (o : Option Task) (t : Task) (i : ℕ) (c : ℤ) (next : ℕ)
    → o ≡ some t
    → t.state ≡ running
    → t.counter ≤ℤ (consider o i c next).0
unfolding consider
consider-covers none t i c next e h = ground arith
consider-covers (some u) t i c next e h = ground arith

-- Where the choice of a round comes from.
Chosen : Slots → ℕ → ℤ → ℕ → Type 0
Chosen tasks top c next =
    (t : Task) × IsRunnable tasks next t × (t.counter ≡ c) × (0 < next) × (next ≤ top)

select_loop-grows : (tasks : Slots) (i : ℕ) (c : ℤ) (next : ℕ) → c ≤ℤ (select_loop tasks i c next).0
unfolding select_loop
select_loop-grows tasks zero c next = omega arith
select_loop-grows tasks (suc i) c next =
    let r = consider (slot tasks (suc i)) (suc i) c next in
    omega
      (arith, consider-grows (slot tasks (suc i)) (suc i) c next, select_loop-grows tasks i r.0 r.1)

select_loop-covers :
    (tasks : Slots) (i : ℕ) (c : ℤ) (next : ℕ) (j : ℕ) (t : Task)
    → IsRunnable tasks j t
    → 0 < j
    → j ≤ i
    → t.counter ≤ℤ (select_loop tasks i c next).0
unfolding select_loop
select_loop-covers tasks zero c next j t r lo hi = absurd (omega arith)
select_loop-covers tasks (suc i) c next j t r lo hi = elim (ℕ_discrete j (suc i)) [
  | yes e ↦
      let out = consider (slot tasks (suc i)) (suc i) c next in
      omega (
        arith,
        consider-covers (slot tasks (suc i)) t (suc i) c next (rw e at r.held) r.runs,
        select_loop-grows tasks i out.0 out.1,
      )
  | no ne ↦
      let out = consider (slot tasks (suc i)) (suc i) c next in
      select_loop-covers tasks i out.0 out.1 j t r lo (omega arith)
]

consider-from :
    (tasks : Slots) (o : Option Task) (i : ℕ) (c : ℤ) (next : ℕ)
    → slot tasks i ≡ o
    → 0 < i
    → (consider o i c next ≡ (c, next))
      ⊎ (Chosen tasks i (consider o i c next).0 (consider o i c next).1)
unfolding consider Chosen
consider-from tasks none i c next e lo = inl refl
consider-from tasks (some t) i c next e lo =
    elim (Bool-cases (is_running t.state && ltb_ℤ c t.counter)) [
      | inl hit ↦ rw hit (
          inr (
            t,
            record { held = e; runs = is_running-running t.state (ground arith) },
            refl,
            lo,
            omega arith,
          ))
      | inr miss ↦ rw miss (inl refl)
    ]

extend :
    (tasks : Slots) (i : ℕ) (start out end : ℤ × ℕ)
    → (out ≡ start) ⊎ (Chosen tasks (suc i) out.0 out.1)
    → (end ≡ out) ⊎ (Chosen tasks i end.0 end.1)
    → (end ≡ start) ⊎ (Chosen tasks (suc i) end.0 end.1)
unfolding Chosen
extend tasks i start out end (inl p) (inl q) = inl (q ∙ p)
extend tasks i start out end (inr ch) (inl q) =
    inr (subst (λ r. Chosen tasks (suc i) r.0 r.1) (sym q) ch)
extend tasks i start out end _ (inr (t, r, e, lo, hi)) = inr (t, r, e, lo, omega arith)

select_loop-from :
    (tasks : Slots) (i : ℕ) (c : ℤ) (next : ℕ)
    → (select_loop tasks i c next ≡ (c, next))
      ⊎ (Chosen tasks i (select_loop tasks i c next).0 (select_loop tasks i c next).1)
unfolding select_loop
select_loop-from tasks zero c next = inl refl
select_loop-from tasks (suc i) c next =
    let out = consider (slot tasks (suc i)) (suc i) c next in
    extend tasks i (c, next) out (select_loop tasks i out.0 out.1)
      (consider-from tasks (slot tasks (suc i)) (suc i) c next refl (omega arith))
      (select_loop-from tasks i out.0 out.1)

-- Counters are never negative: `do_timer` stops them at 0, and a refill adds a positive priority.
abbrev pub HasCounters : Slots → Type 0
HasCounters tasks = (i : ℕ) (t : Task) → slot tasks i ≡ some t → pos 0 ≤ℤ t.counter

-- What one pass over the slots finds.
pub record IsBest (tasks : Slots) (c : ℤ) (next : ℕ) : Type 0 where
  -- no runnable task of slots 1 to 63 has a counter above `c`
  pub covers : (j : ℕ) (t : Task) → IsRunnable tasks j t → 0 < j → j < nr_tasks → t.counter ≤ℤ c
  -- and `c` is that of the runnable task in slot `next`, or there is none and `next` is 0
  pub from :
      ((c ≡ negsuc 0) × (next ≡ 0))
      ⊎ ((t : Task) × IsRunnable tasks next t × (t.counter ≡ c) × (0 < next) × (next < nr_tasks))

pub select-IsBest : (tasks : Slots) → IsBest tasks (select tasks).0 (select tasks).1
unfolding select Chosen
select-IsBest tasks = record {
  covers = λ j t r lo hi. select_loop-covers tasks 63 (negsuc 0) 0 j t r lo (omega arith);
  from = elim (select_loop-from tasks 63 (negsuc 0) 0) [
    | inl e ↦ inl (ap (λ (p : ℤ × ℕ). p.0) e, ap (λ (p : ℤ × ℕ). p.1) e)
    | inr (t, r, e, lo, hi) ↦ inr (t, r, e, lo, omega arith)
  ];
}
