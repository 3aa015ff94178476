-- ===== src/Kernel/Time/Tests.antt =====
-- `kernel_mktime` at a date.
use lambda_linux_kernel.Prelude.{◌≡◌, refl, arith}
use lambda_linux_kernel.Prelude.Int.{pos, wrap32, ◌+ℤ◌, ◌-ℤ◌}
use lambda_linux_kernel.Kernel.Time.{Tm, kernel_mktime}
use lambda_linux_kernel.Kernel.Time.Calendar.{seconds, kernel_mktime-seconds}

-- 12 January 1992, 23:30:05
abbrev evening : Tm
evening = record { sec = 5; minutes = 30; hour = 23; mday = 12; mon = 0; year = 92 }

evening_seconds : kernel_mktime evening ≡ pos 695259005
unfolding kernel_mktime wrap32 ◌+ℤ◌ ◌-ℤ◌
evening_seconds = refl

kernel_mktime-seconds_example : kernel_mktime evening ≡ pos (seconds evening)
kernel_mktime-seconds_example = kernel_mktime-seconds evening (omega arith)
