-- ===== src/Kernel/Time/Calendar.antt =====
-- `kernel_mktime` against the Gregorian calendar.
use lambda_linux_kernel.Prelude.{
  ℕ, zero, suc, ◌+◌, ◌-◌, ◌*◌, ◌/◌, ◌%◌, ◌^◌, ◌≤◌, ◌<◌, ◌≡◌, refl, Bool, true, false, not, ◌&&◌,
  ◌||◌, ltb, leb, ◌==◌, if◌then◌else◌, get_or, arith, ap, ◌∙◌, ==_iff, all_below_sound,
}
use lambda_linux_kernel.Prelude.Int.{
  pos, ◌+ℤ◌, ◌-ℤ◌, wrap32_in, sub_ℕ, ◌≤ℤ◌, sub_ℕ-pos, +ℤ-pos, -ℤ-pos,
}
use lambda_linux_kernel.Kernel.Time.{
  Tm, kernel_mktime, scale, quarter, divisible_by_four, month, day, hour_length, minute,
  year_length,
}

abbrev pub is_leap : ℕ → Bool
is_leap y = y % 4 == 0 && not (y % 100 == 0) || y % 400 == 0

-- The days of the `n` years from 1970 on.
abbrev pub days_of_years : ℕ → ℕ
days_of_years zero = 0
days_of_years (suc n) = days_of_years n + (if is_leap (1970 + n) then 366 else 365)

-- Months count from 0.
abbrev pub days_in_month : Bool → ℕ → ℕ
days_in_month leap m =
    if m == 1
    then if leap then 29 else 28
    else if m == 3 || m == 5 || m == 8 || m == 10
    then 30
    else 31

abbrev pub days_of_months : Bool → ℕ → ℕ
days_of_months leap zero = 0
days_of_months leap (suc m) = days_of_months leap m + days_in_month leap m

abbrev pub seconds : Tm → ℕ
seconds tm =
    let years = tm.year - 70 in
    let days =
      days_of_years years + days_of_months (is_leap (1970 + years)) tm.mon + (tm.mday - 1) in
    days * 86400 + tm.hour * 3600 + tm.minutes * 60 + tm.sec

days_of_years_closed : (n : ℕ) → n < 130 → days_of_years n ≡ 365 * n + (n + 1) / 4
days_of_years_closed zero h = refl
days_of_years_closed (suc n) h = ground (arith, days_of_years_closed n (omega arith))

leap_rule : (n : ℕ) → n < 130 → is_leap (1970 + n) ≡ ((n + 2) % 4 == 0)
leap_rule n h = ground arith

-- The table against the months, for both kinds of year.
abbrev february : Bool → ℕ → ℕ
february leap m = if ltb 1 m && not leap then day else 0

abbrev right : Bool → ℕ → Bool
right leap m = get_or month m 0 == days_of_months leap m * 86400 + february leap m

month_table :
    (leap : Bool) (m : ℕ)
    → m < 12
    → get_or month m 0 ≡ days_of_months leap m * 86400 + february leap m
month_table true m h = (==_iff _ _).0 (all_below_sound 12 (right true) m refl h)
month_table false m h = (==_iff _ _).0 (all_below_sound 12 (right false) m refl h)

-- The sums of the code, none of which is negative.
to_month :
    (n s : ℕ)
    → scale year_length (pos n) +ℤ scale day (quarter (pos n +ℤ pos 1)) +ℤ pos s
      ≡ pos (year_length * n + day * ((n + 1) / 4) + s)
to_month n s = simp (+ℤ-pos)

from_month :
    (x d h m t : ℕ)
    → 1 ≤ d
    → pos x +ℤ scale day (sub_ℕ d 1) +ℤ pos (hour_length * h) +ℤ pos (minute * m) +ℤ pos t
      ≡ pos (x + day * (d - 1) + hour_length * h + minute * m + t)
from_month x d h m t hd = simp (+ℤ-pos, sub_ℕ-pos d 1 hd)

-- The February correction, on the sum so far.
adjust :
    (n mon x : ℕ)
    → (1 < mon → day ≤ x)
    → (if ltb 1 mon && not (divisible_by_four (pos n +ℤ pos 2)) then pos x -ℤ pos day else pos x)
      ≡ pos (x - (if ltb 1 mon && not ((n + 2) % 4 == 0) then day else 0))
adjust n mon x h = rw (+ℤ-pos n 2) (ground (arith, -ℤ-pos x day, h))

-- Of a month after January the table has 31 days at least, and 335 at most of any.
month_bounds :
    (m : ℕ) → m < 12 → (get_or month m 0 ≤ 335 * day) × (1 < m → 31 * day ≤ get_or month m 0)
month_bounds m h =
    let ok =
      all_below_sound 12
        (λ m. leb (get_or month m 0) (335 * day) && (leb m 1 || leb (31 * day) (get_or month m 0)))
        m refl h in
    (ground arith, λ p. ground arith)

-- A broken-down time of the years 1970 to 2037, with fields in their ranges.
pub record IsTime (tm : Tm) : Type 0 where
  pub year_low : 70 ≤ tm.year
  pub year_high : tm.year ≤ 137
  pub mon_in : tm.mon < 12
  pub mday_low : 1 ≤ tm.mday
  pub mday_high : tm.mday ≤ 31
  pub hour_in : tm.hour < 24
  pub minutes_in : tm.minutes < 60
  pub sec_in : tm.sec < 60

-- For a broken-down time of the years 1970 to 2037 with fields in range, kernel_mktime gives the
-- seconds since 1970 of the Gregorian calendar.
pub kernel_mktime-seconds : (tm : Tm) → IsTime tm → kernel_mktime tm ≡ pos (seconds tm)
unfolding kernel_mktime
kernel_mktime-seconds tm v = rw (sub_ℕ-pos tm.year 70 v.year_low) (
    rw (to_month n start) (
      rw (adjust n tm.mon so_far (λ p. ground (arith, bounds.1))) (
        rw (from_month adjusted tm.mday tm.hour tm.minutes tm.sec v.mday_low)
          (wrap32_in (pos total) (omega arith) fits ∙ ap pos same))))
  where
    n : ℕ
    n = tm.year - 70

    start : ℕ
    start = get_or month tm.mon 0

    so_far : ℕ
    so_far = year_length * n + day * ((n + 1) / 4) + start

    adjusted : ℕ
    adjusted = so_far - (if ltb 1 tm.mon && not ((n + 2) % 4 == 0) then day else 0)

    total : ℕ
    total = adjusted + day * (tm.mday - 1) + hour_length * tm.hour + minute * tm.minutes + tm.sec

    bounds : (start ≤ 335 * day) × (1 < tm.mon → 31 * day ≤ start)
    bounds = month_bounds tm.mon v.mon_in

    fits : pos total ≤ℤ pos (2 ^ 31 - 1)
    fits = omega (arith, bounds.0)

    same : total ≡ seconds tm
    same = ground (
      arith,
      days_of_years_closed n (omega arith),
      leap_rule n (omega arith),
      month_table (is_leap (1970 + n)) tm.mon v.mon_in,
      bounds.1,
    )
