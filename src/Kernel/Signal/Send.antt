-- ===== src/Kernel/Signal/Send.antt =====
-- What `send_sig` leaves pending.
use lambda_linux_kernel.Prelude.{
  ℕ, zero, suc, ◌+◌, ◌-◌, ◌/◌, ◌^◌, ◌≤◌, ◌<◌, ◌≡◌, ◌≢◌, refl, ◌⊎◌, inl, inr, Bool, true, false, not,
  ◌&&◌, Option, none, some, leb, ◌==◌, if◌then◌else◌, arith, all_below_sound, Bool-cases, bit_and,
  ◌∙◌,
}
use lambda_linux_kernel.Prelude.Int.{ℤ, pos}
use lambda_linux_kernel.Prelude.Bits.{
  bit, bit-lt_two, bit-bit_and, bit-bit_or, bit-complement, zero-bit,
}
use native.Mathlib.Nat.{pow-suc}
use lambda_linux_kernel.Kernel.Sched.{running, complement}
use lambda_linux_kernel.Kernel.Signal.{
  Process, stop_mask, is_stopped, resume, resumes, stops, post, is_ignored, deliver, send_sig,
  eperm, einval,
}

bit-pow : (n k : ℕ) → bit (2 ^ n) k ≡ (if n == k then 1 else 0)
unfolding bit
bit-pow zero zero = refl
bit-pow zero (suc k) = zero-bit k ∙ ground arith
bit-pow (suc n) zero = ground (arith, pow-suc 2 n)
bit-pow (suc n) (suc k) =
    let half : 2 ^ suc n / 2 ≡ 2 ^ n = omega (arith, pow-suc 2 n) in
    rw half (bit-pow n k ∙ ground arith)

-- Bit `k` of the mask of the stop signals.
abbrev pub stop_bit : ℕ → ℕ
stop_bit k = if leb 18 k && leb k 21 then 1 else 0

bit-stop_mask : (k : ℕ) → k < 32 → bit stop_mask k ≡ stop_bit k
unfolding bit
bit-stop_mask k lt =
    ground (arith, all_below_sound 32 (λ n. bit stop_mask n == stop_bit n) k refl lt)

-- Whether signal `k + 1` is pending after `sig` has been posted.
abbrev pub pending_after : ℕ → Process → ℕ → ℕ
pending_after sig p k =
    if k + 1 == sig
    then 1
    else if resumes sig && (leb 18 k && leb k 21)
    then 0
    else if stops sig && k == 17
    then 0
    else bit p.signal k

-- A signal masked out.
bit-mask :
    (x m k : ℕ)
    → m < 2 ^ 32
    → k < 32
    → bit (bit_and x (complement m)) k ≡ (if bit m k == 1 then 0 else bit x k)
bit-mask x m k small lt =
    let masked = bit-bit_and x (complement m) k in
    let turned = bit-complement 32 m k small lt in
    let two = bit-lt_two x k in let two' = bit-lt_two m k in ground arith

resume-bits :
    (sig : ℕ) (p : Process) (k : ℕ)
    → k < 32
    → bit (if resumes sig then resume p else p).signal k
      ≡ (if resumes sig && (leb 18 k && leb k 21) then 0 else bit p.signal k)
unfolding resume
resume-bits sig p k lt = elim (Bool-cases (resumes sig)) [
  | inr e ↦ rw e refl
  | inl e ↦
      let masked = bit-mask p.signal stop_mask k (omega arith) lt in
      let in_mask = bit-stop_mask k lt in rw e (ground arith)
]

post-bits :
    (sig : ℕ) (q : Process) (k : ℕ)
    → 1 ≤ sig
    → k < 32
    → bit (post sig q).signal k
      ≡ (if k + 1 == sig then 1 else if stops sig && k == 17 then 0 else bit q.signal k)
unfolding post
post-bits sig q k lo lt =
    let own = bit-pow (sig - 1) k in
    elim (Bool-cases (stops sig)) [
      | inl e ↦
          let masked = bit-mask q.signal (2 ^ 17) k (omega arith) lt in
          let cont = bit-pow 17 k in
          let both = bit-bit_or (bit_and q.signal (complement (2 ^ 17))) (2 ^ (sig - 1)) k in
          let two = bit-lt_two q.signal k in rw e (ground arith)
      | inr e ↦
          let both = bit-bit_or q.signal (2 ^ (sig - 1)) k in
          let two = bit-lt_two q.signal k in rw e (ground arith)
    ]

deliver-bits :
    (sig : ℕ) (p : Process) (k : ℕ)
    → 1 ≤ sig
    → is_ignored sig p ≡ false
    → k < 32
    → bit (deliver sig p).signal k ≡ pending_after sig p k
unfolding deliver
deliver-bits sig p k lo heard lt =
    let q = if resumes sig then resume p else p in
    let posted = post-bits sig q k lo lt in
    let resumed = resume-bits sig p k lt in rw heard (posted ∙ rw resumed (ground arith))

-- What `send_sig` can come to, on an empty slot and on a process.
pub data Sent (euid sig : ℕ) (priv : Bool) : Option Process → ℤ × Option Process → Type 0 where
  nobody : Sent euid sig priv none (einval, none)
  denied :
      (p : Process)
      → priv ≡ false
      → euid ≢ p.euid
      → euid ≢ 0
      → Sent euid sig priv (some p) (eperm, some p)
  sent :
      (p q : Process)
      → (priv ≡ true) ⊎ (euid ≡ p.euid) ⊎ (euid ≡ 0)
      → q.state ≡ (if resumes sig && is_stopped p.state then running else p.state)
      → ((k : ℕ)
          → k < 32
          → bit q.signal k ≡ (
              if is_ignored sig p
              then if resumes sig && (leb 18 k && leb k 21) then 0 else bit p.signal k
              else pending_after sig p k))
      → Sent euid sig priv (some p) (pos 0, some q)

deliver-state :
    (sig : ℕ) (p : Process)
    → (deliver sig p).state ≡ (if resumes sig && is_stopped p.state then running else p.state)
unfolding deliver post resume
deliver-state sig p = elim (Bool-cases (is_ignored sig p)) [
  | inl e ↦ rw e (ground arith)
  | inr e ↦ rw e (ground arith)
]

deliver-signal :
    (sig : ℕ) (p : Process) (k : ℕ)
    → 1 ≤ sig
    → k < 32
    → bit (deliver sig p).signal k ≡ (
        if is_ignored sig p
        then if resumes sig && (leb 18 k && leb k 21) then 0 else bit p.signal k
        else pending_after sig p k)
unfolding deliver
deliver-signal sig p k lo lt = elim (Bool-cases (is_ignored sig p)) [
  | inl e ↦ let resumed = resume-bits sig p k lt in rw e resumed
  | inr e ↦ let posted = deliver-bits sig p k lo e lt in rw e (rw e at posted)
]

-- send_sig of a signal from 1 to 32 refuses an empty slot with -EINVAL, and a process of another
-- user with -EPERM unless the caller is the superuser or privileged; otherwise SIGKILL and
-- SIGCONT make a stopped process runnable and take back pending stop signals, a stop signal takes
-- back SIGCONT unless it is ignored, the signal is then pending unless it is ignored, and all
-- other pending signals stay as they were.
pub send_sig-Sent :
    (euid sig : ℕ) (priv : Bool) (slot : Option Process)
    → 1 ≤ sig
    → sig ≤ 32
    → Sent euid sig priv slot (send_sig euid sig priv slot)
unfolding send_sig
send_sig-Sent euid sig priv none lo hi = nobody
send_sig-Sent euid sig priv (some p) lo hi =
    elim (Bool-cases (not priv && (not (euid == p.euid) && not (euid == 0)))) [
      | inl e ↦ rw e (denied p (ground arith) (λ same. ground arith) (λ zero. ground arith))
      | inr e ↦ rw e (
          sent p (deliver sig p) (ground arith) (deliver-state sig p)
            (λ k lt. deliver-signal sig p k lo lt))
    ]
