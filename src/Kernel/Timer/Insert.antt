-- ===== src/Kernel/Timer/Insert.antt =====
-- When the timers of a chain are due, and what `add_timer` makes of that.
use lambda_linux_kernel.Prelude.{
  ℕ, ◌+◌, ◌-◌, ◌<◌, ◌≡◌, refl, List, [], ◌∷◌, ◌++◌, ltb, if◌then◌else◌, arith, Bool-cases, inl, inr,
  ap, ap₂, sym, true, false, length, ◌≢◌, ltb,
}
use lambda_linux_kernel.Prelude.Int.{pos}
use lambda_linux_kernel.Kernel.Timer.{Chain, move_back, add_timer, queued, time_requests}

-- A function and the number of ticks after which it is due.
abbrev pub Due : Type 0
Due = ℕ × ℕ

abbrev pub deadlines : ℕ → Chain → List Due
deadlines base [] = []
deadlines base (t ∷ ts) = (base + t.jiffies, t.fn) ∷ deadlines (base + t.jiffies) ts

-- The entries due before `d`, and the rest.
abbrev pub before : ℕ → List Due → List Due
before d [] = []
before d ((e, g) ∷ ds) = if ltb e d then (e, g) ∷ before d ds else []

abbrev pub after : ℕ → List Due → List Due
after d [] = []
after d ((e, g) ∷ ds) = if ltb e d then after d ds else (e, g) ∷ ds

-- The last time before `d` at which an entry is due, `base` if there is none.
abbrev pub last_before : ℕ → ℕ → List Due → ℕ
last_before base d [] = base
last_before base d ((e, g) ∷ ds) = if ltb e d then last_before e d ds else base

abbrev pub delay : ℕ → List Due → List Due
delay n [] = []
delay n ((e, g) ∷ ds) = (e + n, g) ∷ delay n ds

deadlines-delay : (n b c : ℕ) (ts : Chain) → c ≡ b + n → deadlines c ts ≡ delay n (deadlines b ts)
deadlines-delay n b c [] h = refl
deadlines-delay n b c (t ∷ ts) h =
    ap₂ ◌∷◌ (ground arith) (deadlines-delay n (b + t.jiffies) (c + t.jiffies) ts (omega arith))

move_back-deadlines :
    (b n d f : ℕ) (c : Chain)
    → d ≡ b + n
    → deadlines b (move_back n f c)
      ≡ before d (deadlines b c)
        ++ ((d, f) ∷ delay (d - last_before b d (deadlines b c)) (after d (deadlines b c)))
unfolding move_back
move_back-deadlines b n d f [] h = ground arith
move_back-deadlines b n d f (q ∷ rest) h = elim (Bool-cases (ltb q.jiffies n)) [
  | inl lt ↦ rw lt (
      let sooner : ltb (b + q.jiffies) d ≡ true = ground arith in
      rw sooner (
        ap (λ ds. (b + q.jiffies, q.fn) ∷ ds)
          (move_back-deadlines (b + q.jiffies) (n - q.jiffies) d f rest (ground arith))))
  | inr ge ↦ rw ge (
      let later : ltb (b + q.jiffies) d ≡ false = ground arith in
      rw later (
        ap₂ (λ e ds. (e, f) ∷ ds) (sym h)
          (deadlines-delay (d - b) b (b + n) (q ∷ rest) (omega arith))))
]

-- add_timer with a positive delay, a function and a free slot makes the new timer due after
-- exactly that delay and keeps the times of the timers due before it, but puts off each timer due
-- then or later by the time from the last of those before to the new one.
pub add_timer-deadlines :
    (n f : ℕ) (c : Chain)
    → 0 < n
    → f ≢ 0
    → length c < time_requests
    → (c' : Chain) × (add_timer (pos n) f c ≡ queued c')
      × (deadlines 0 c'
          ≡ before n (deadlines 0 c)
            ++ ((n, f) ∷ delay (n - last_before 0 n (deadlines 0 c)) (after n (deadlines 0 c))))
unfolding add_timer
add_timer-deadlines n f c some_delay some_fn room =
    (move_back n f c, ground arith, move_back-deadlines 0 n n f c (omega arith))
