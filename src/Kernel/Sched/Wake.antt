-- ===== src/Kernel/Sched/Wake.antt =====
-- The first loop of `schedule`: which tasks it wakes.
use lambda_linux_kernel.Prelude.{ℕ, ◌^◌, ◌<◌, ◌≡◌, ◌⊎◌, inl, inr, ◌≢◌, arith, bit_and, ◌∙◌, sym}
use lambda_linux_kernel.Prelude.Bits.{
  bit, bit-lt_two, bit-bit_and, bit-bit_or, bit-complement, bit_and-le, ne_zero_of_bit,
}
use lambda_linux_kernel.Kernel.Sched.{
  Task, running, interruptible, complement, blockable, deliverable, check_task, check_signal,
  check_alarm, check_timeout,
}

-- Bit `k` stands for signal `k + 1`. No mask holds back SIGKILL (9) or SIGSTOP (19).
abbrev pub Unblocked : Task → ℕ → Type 0
Unblocked t k = (bit t.blocked k ≡ 0) ⊎ (k ≡ 8) ⊎ (k ≡ 18)

bit-blockable : (k : ℕ) → (k ≡ 8) ⊎ (k ≡ 18) → bit blockable k ≡ 0
unfolding bit
bit-blockable k (inl e) = rw e
bit-blockable k (inr e) = rw e

masked : (t : Task) (k : ℕ) → Unblocked t k → bit (bit_and blockable t.blocked) k ≡ 0
masked t k (inl e) = omega (arith, bit-bit_and blockable t.blocked k)
masked t k (inr h) = omega (arith, bit-bit_and blockable t.blocked k, bit-blockable k h)

-- A pending signal that is not blocked shows in the word that `schedule` tests.
deliverable-ne_zero :
    (t : Task) (k : ℕ) → bit t.signal k ≡ 1 → Unblocked t k → k < 32 → deliverable t ≢ 0
deliverable-ne_zero t k pending free lt = ne_zero_of_bit (deliverable t) k (
    omega (
      arith,
      bit-bit_and t.signal (complement mask) k,
      bit-complement 32 mask k (omega (arith, bit_and-le blockable t.blocked)) lt,
      masked t k free,
    ))
  where
    mask : ℕ
    mask = bit_and blockable t.blocked

check_signal_wakes :
    (t : Task) (k : ℕ)
    → bit t.signal k ≡ 1
    → Unblocked t k
    → k < 32
    → (t.state ≡ interruptible) ⊎ (t.state ≡ running)
    → (check_signal t).state ≡ running
unfolding check_signal
check_signal_wakes t k pending free lt s = ground (arith, deliverable-ne_zero t k pending free lt)

-- The two tests before keep what `check_signal_wakes` asks of the task.
check_timeout_keeps :
    (j : ℕ) (t : Task)
    → t.state ≡ interruptible
    → ((check_timeout j t).signal ≡ t.signal)
      × ((check_timeout j t).blocked ≡ t.blocked)
      × ((check_timeout j t).alarm ≡ t.alarm)
      × (((check_timeout j t).state ≡ interruptible) ⊎ ((check_timeout j t).state ≡ running))
unfolding check_timeout
check_timeout_keeps j t s = ground arith

check_alarm_keeps :
    (j : ℕ) (t : Task)
    → ((check_alarm j t).state ≡ t.state) × ((check_alarm j t).blocked ≡ t.blocked)
unfolding check_alarm
check_alarm_keeps j t = ground arith

-- A signal pending before the loop, or SIGALRM (14) if the alarm has passed.
abbrev pub Pending : ℕ → Task → ℕ → Type 0
Pending j t k = (bit t.signal k ≡ 1) ⊎ (k ≡ 13) × (t.alarm ≢ 0) × (t.alarm < j)

bit-alarm : (k : ℕ) → k ≡ 13 → bit (2 ^ 13) k ≡ 1
unfolding bit
bit-alarm k e = rw e

check_alarm_raises : (j : ℕ) (t : Task) (k : ℕ) → Pending j t k → bit (check_alarm j t).signal k ≡ 1
unfolding check_alarm
check_alarm_raises j t k (inl e) =
    ground (arith, bit-bit_or t.signal (2 ^ 13) k, bit-lt_two (2 ^ 13) k)
check_alarm_raises j t k (inr (e, set, late)) =
    ground (arith, bit-bit_or t.signal (2 ^ 13) k, bit-alarm k e, bit-lt_two t.signal k)

-- The first loop of schedule makes an interruptible task runnable if a signal is pending that its
-- mask lets through, or SIGKILL or SIGSTOP whatever its mask, SIGALRM counting as pending once
-- the alarm has passed.
pub check_task_wakes :
    (j : ℕ) (t : Task) (k : ℕ)
    → t.state ≡ interruptible
    → Pending j t k
    → Unblocked t k
    → k < 32
    → (check_task j t).state ≡ running
unfolding check_task
check_task_wakes j t k s pending free lt =
    check_signal_wakes alarmed k (check_alarm_raises j timed k still)
      (ground (arith, check_timeout_keeps j t s, check_alarm_keeps j timed)) lt
      (ground (arith, check_timeout_keeps j t s, check_alarm_keeps j timed))
  where
    timed : Task
    timed = check_timeout j t

    alarmed : Task
    alarmed = check_alarm j timed

    still : Pending j timed k
    still = ground (arith, check_timeout_keeps j t s)

check_timeout_leaves :
    (j : ℕ) (t : Task) → t.state ≢ interruptible → (check_timeout j t).state ≡ t.state
unfolding check_timeout
check_timeout_leaves j t h = ground arith

check_signal_leaves : (t : Task) → t.state ≢ interruptible → (check_signal t).state ≡ t.state
unfolding check_signal
check_signal_leaves t h = ground arith

check_task_leaves : (j : ℕ) (t : Task) → t.state ≢ interruptible → (check_task j t).state ≡ t.state
unfolding check_task
check_task_leaves j t h =
    let e = check_timeout_leaves j t h in
    let e' = (check_alarm_keeps j (check_timeout j t)).0 in
    check_signal_leaves _ (λ p. h (sym e ∙ (sym e' ∙ p))) ∙ (e' ∙ e)
