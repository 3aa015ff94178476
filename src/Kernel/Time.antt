-- ===== src/Kernel/Time.antt =====
-- kernel/mktime.c: the seconds since 1970 of the clock's broken-down time, whose fields are bytes of
-- the CMOS clock (init/main.c, time_init) and so not negative.
pub mod Calendar
mod Tests
use lambda_linux_kernel.Prelude.{
  ℕ, suc, ◌+◌, ◌*◌, ◌/◌, ◌%◌, Bool, not, ◌&&◌, List, [], ◌∷◌, ltb, ◌==◌, if◌then◌else◌, get_or,
}
use lambda_linux_kernel.Prelude.Int.{ℤ, pos, negsuc, sub_ℕ, ◌+ℤ◌, ◌-ℤ◌, wrap32}

-- `struct tm`, the fields that `kernel_mktime` reads.
pub record Tm : Type 0 where
  pub sec : ℕ
  pub minutes : ℕ
  pub hour : ℕ
  pub mday : ℕ
  pub mon : ℕ
  pub year : ℕ

abbrev pub minute : ℕ
minute = 60

abbrev pub hour_length : ℕ
hour_length = 60 * minute

abbrev pub day : ℕ
day = 24 * hour_length

abbrev pub year_length : ℕ
year_length = 365 * day

-- `k * z`, and C's `z / 4` and `z % 4`, which round towards 0.
abbrev pub scale : ℕ → ℤ → ℤ
scale k (pos n) = pos (k * n)
scale k (negsuc n) = sub_ℕ 0 (k * suc n)

abbrev pub quarter : ℤ → ℤ
quarter (pos n) = pos (n / 4)
quarter (negsuc n) = sub_ℕ 0 (suc n / 4)

abbrev pub divisible_by_four : ℤ → Bool
divisible_by_four (pos n) = n % 4 == 0
divisible_by_four (negsuc n) = suc n % 4 == 0

-- `month[]`: the start of each month in a leap year.
abbrev pub month : List ℕ
month =
    0
    ∷ (day * 31)
    ∷ (day * (31 + 29))
    ∷ (day * (31 + 29 + 31))
    ∷ (day * (31 + 29 + 31 + 30))
    ∷ (day * (31 + 29 + 31 + 30 + 31))
    ∷ (day * (31 + 29 + 31 + 30 + 31 + 30))
    ∷ (day * (31 + 29 + 31 + 30 + 31 + 30 + 31))
    ∷ (day * (31 + 29 + 31 + 30 + 31 + 30 + 31 + 31))
    ∷ (day * (31 + 29 + 31 + 30 + 31 + 30 + 31 + 31 + 30))
    ∷ (day * (31 + 29 + 31 + 30 + 31 + 30 + 31 + 31 + 30 + 31))
    ∷ (day * (31 + 29 + 31 + 30 + 31 + 30 + 31 + 31 + 30 + 31 + 30))
    ∷ []

-- The sum is taken whole and wrapped once, which is what wrapping each partial sum comes to.
pub kernel_mktime : Tm → ℤ
kernel_mktime tm =
    let y = sub_ℕ tm.year 70 in
    let years = scale year_length y +ℤ scale day (quarter (y +ℤ pos 1)) in
    let months = years +ℤ pos (get_or month tm.mon 0) in
    let adjusted =
      if ltb 1 tm.mon && not (divisible_by_four (y +ℤ pos 2)) then months -ℤ pos day else months in
    wrap32 (
      adjusted
      +ℤ scale day (sub_ℕ tm.mday 1)
      +ℤ pos (hour_length * tm.hour)
      +ℤ pos (minute * tm.minutes)
      +ℤ pos tm.sec)
