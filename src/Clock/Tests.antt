-- ===== src/Clock/Tests.antt =====
-- Tests of kernel/mktime.c, and its theorem at concrete times.
use neantis.Prelude.{◌+◌, ◌*◌, ◌≡◌, refl, arith}
use neantis.Clock.{Tm, kernel_mktime, year_of}
use neantis.Clock.Calendar.{
  seconds_since_1970, days_before_year, days_before_month, kernel_mktime-seconds_since_1970,
}

-- 1 March 2000, 12:34:56
abbrev leap_day : Tm
leap_day = record { tm_sec = 56; tm_min = 34; tm_hour = 12; tm_mday = 1; tm_mon = 2; tm_year = 0 }

reference_time : seconds_since_1970 leap_day ≡ 951_914_096
unfolding seconds_since_1970 days_before_year days_before_month year_of
reference_time = refl

source_time : kernel_mktime leap_day ≡ 951_912_150
unfolding kernel_mktime
source_time = refl

leap_day_year : year_of leap_day.tm_year ≡ 30
unfolding year_of
leap_day_year = refl

kernel_mktime-seconds_since_1970_example :
    kernel_mktime leap_day + 60 * 34 ≡ seconds_since_1970 leap_day + 60 + 34
kernel_mktime-seconds_since_1970_example =
    kernel_mktime-seconds_since_1970 leap_day (omega arith) (omega (arith, leap_day_year))
