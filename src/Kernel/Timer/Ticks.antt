-- ===== src/Kernel/Timer/Ticks.antt =====
-- What the clock ticks of `do_timer` make of a chain: each timer runs at the tick it is due.
use lambda_linux_kernel.Prelude.{
  ℕ, zero, suc, ◌+◌, ◌-◌, ◌<◌, ◌≡◌, refl, List, [], ◌∷◌, ◌++◌, if◌then◌else◌, arith, Bool-cases,
  inl, inr, ap, ap₂, sym, ◌∙◌, ◌==◌, leb, false,
}
use mathlib.Core.List.{append-nil}
use lambda_linux_kernel.Kernel.Timer.{Chain, timer, run_expired, tick}
use lambda_linux_kernel.Kernel.Timer.Insert.{Due, deadlines}

-- The functions due within `k` ticks, in order, and the entries that are left then.
abbrev pub due : ℕ → List Due → List ℕ
due k [] = []
due k ((e, g) ∷ ds) = if leb e k then g ∷ due k ds else []

abbrev pub advance : ℕ → List Due → List Due
advance k [] = []
advance k ((e, g) ∷ ds) = (e - k, g) ∷ advance k ds

abbrev pub left : ℕ → List Due → List Due
left k [] = []
left k ((e, g) ∷ ds) = if leb e k then left k ds else advance k ((e, g) ∷ ds)

-- `k` ticks with no new timer: all functions called, in order, and the chain left.
pub ticks : ℕ → Chain → List ℕ × Chain
ticks zero c = ([], c)
ticks (suc k) c =
    let (first, rest) = tick c in let (later, end) = ticks k rest in (first ++ later, end)

-- The first timer of a chain at rest has time to go.
abbrev pub IsWaiting : Chain → Type 0
IsWaiting [] = Unit
IsWaiting (t ∷ ts) = 0 < t.jiffies

advance-deadlines : (b c : ℕ) (ts : Chain) → c ≡ b + 1 → advance 1 (deadlines c ts) ≡ deadlines b ts
advance-deadlines b c [] h = refl
advance-deadlines b c (t ∷ ts) h =
    ap₂ ◌∷◌ (ground arith) (advance-deadlines (b + t.jiffies) (c + t.jiffies) ts (omega arith))

-- One tick, stated of the chain after its first timer has been counted down.
record IsRun (c : Chain) (out : List ℕ × Chain) : Type 0 where
  calls : out.0 ≡ due 1 (deadlines 1 c)
  rest : deadlines 0 out.1 ≡ left 1 (deadlines 1 c)
  waits : IsWaiting out.1

run_expired-IsRun : (c : Chain) → IsRun c (run_expired c)
unfolding run_expired
run_expired-IsRun [] = record { calls = refl; rest = refl; waits = tt }
run_expired-IsRun (t ∷ ts) = elim (Bool-cases (t.jiffies == 0)) [
  | inl z ↦
      let next = run_expired-IsRun ts in
      let now : 1 + t.jiffies ≡ 1 = ground arith in
      rw z (record {
        calls = rw now (ap (λ fs. t.fn ∷ fs) next.calls);
        rest = rw now next.rest;
        waits = next.waits;
      })
  | inr nz ↦
      let later : leb (1 + t.jiffies) 1 ≡ false = ground arith in
      rw nz (record {
        calls = rw later;
        rest = rw later (sym (advance-deadlines 0 1 (t ∷ ts) (omega arith)));
        waits = ground arith;
      })
]

-- The same of a chain at rest.
record IsTick (c : Chain) (out : List ℕ × Chain) : Type 0 where
  calls : out.0 ≡ due 1 (deadlines 0 c)
  rest : deadlines 0 out.1 ≡ left 1 (deadlines 0 c)
  waits : IsWaiting out.1

tick-IsTick : (c : Chain) → IsWaiting c → IsTick c (tick c)
unfolding tick
tick-IsTick [] h = record { calls = refl; rest = refl; waits = tt }
tick-IsTick (t ∷ ts) h =
    let r = run_expired-IsRun (timer (t.jiffies - 1) t.fn ∷ ts) in
    let same : 1 + (t.jiffies - 1) ≡ 0 + t.jiffies = omega arith in
    record { calls = rw same at r.calls; rest = rw same at r.rest; waits = r.waits }

due-advance : (k : ℕ) (ds : List Due) → due k (advance 1 ds) ≡ due (suc k) ds
due-advance k [] = refl
due-advance k ((e, g) ∷ ds) = ground (arith, due-advance k ds)

advance-advance : (k : ℕ) (ds : List Due) → advance k (advance 1 ds) ≡ advance (suc k) ds
advance-advance k [] = refl
advance-advance k ((e, g) ∷ ds) = ap₂ ◌∷◌ (ground arith) (advance-advance k ds)

left-advance : (k : ℕ) (ds : List Due) → left k (advance 1 ds) ≡ left (suc k) ds
left-advance k [] = refl
left-advance k ((e, g) ∷ ds) = ground (arith, left-advance k ds, advance-advance k ds)

due-split : (k : ℕ) (ds : List Due) → due (suc k) ds ≡ due 1 ds ++ due k (left 1 ds)
due-split k [] = refl
due-split k ((e, g) ∷ ds) = ground (arith, due-split k ds, due-advance k ds)

left-split : (k : ℕ) (ds : List Due) → left (suc k) ds ≡ left k (left 1 ds)
left-split k [] = refl
left-split k ((e, g) ∷ ds) =
    ground (arith, left-split k ds, left-advance k ds, advance-advance k ds)

-- For a chain whose first timer has time to go, k ticks (k positive) of do_timer with no new
-- timer call exactly the functions due within k ticks, in order, and leave every other timer k
-- ticks less to wait.
pub ticks-due :
    (k : ℕ) (c : Chain)
    → 0 < k
    → IsWaiting c
    → ((ticks k c).0 ≡ due k (deadlines 0 c)) × (deadlines 0 (ticks k c).1 ≡ left k (deadlines 0 c))
unfolding ticks
ticks-due zero c h w = absurd (omega arith)
ticks-due (suc zero) c h w =
    let one = tick-IsTick c w in (append-nil (tick c).0 ∙ one.calls, one.rest)
ticks-due (suc (suc k)) c h w =
    let one = tick-IsTick c w in
    let more = ticks-due (suc k) (tick c).1 (omega arith) one.waits in
    let start = deadlines 0 c in
    (
      ap₂ ◌++◌ one.calls (more.0 ∙ ap (due (suc k)) one.rest) ∙ sym (due-split (suc k) start),
      more.1 ∙ ap (left (suc k)) one.rest ∙ sym (left-split (suc k) start),
    )
