-- ===== src/Clock/Calendar.antt =====
-- kernel/mktime.c against the calendar: years and months counted one by one.
use neantis.Prelude.{
  ℕ, zero, suc, ◌+◌, ◌-◌, ◌*◌, ◌/◌, ◌%◌, ◌≤◌, ◌<◌, ◌≡◌, refl, ◌≢◌, Bool, arith, ltb, ◌==◌,
  if◌then◌else◌, ◌||◌, passes, passes_lem, ==_iff, ◌≢◌, get_or, ◌&&◌, not, true, false,
}
use neantis.Clock.{Tm, kernel_mktime, year_of, minute, hour, day, month}

-- The years from 1970 to 2099: every fourth one is a leap year.
abbrev pub is_leap : ℕ → Bool
is_leap y = (1970 + y) % 4 == 0

abbrev pub year_days : ℕ → ℕ
year_days y = if is_leap y then 366 else 365

-- the days before 1 January of the year 1970 + `y`
unfoldable pub days_before_year : ℕ → ℕ
days_before_year zero = 0
days_before_year (suc y) = days_before_year y + year_days y

-- February is month 1; April, June, September and November have 30 days.
abbrev pub month_days : Bool → ℕ → ℕ
month_days leap m =
    if m == 1
    then (if leap then 29 else 28)
    else if m == 3 || m == 5 || m == 8 || m == 10
    then 30
    else 31

-- the days before the first of month `m`, counted from 0
unfoldable pub days_before_month : Bool → ℕ → ℕ
days_before_month leap zero = 0
days_before_month leap (suc m) = days_before_month leap m + month_days leap m

-- The seconds from 1 January 1970 to the time that the fields name.
unfoldable pub seconds_since_1970 : Tm → ℕ
seconds_since_1970 tm =
    let y = year_of tm.tm_year in
    (days_before_year y + days_before_month (is_leap y) tm.tm_mon + (tm.tm_mday - 1)) * day
    + tm.tm_hour * hour
    + tm.tm_min * minute
    + tm.tm_sec

-- the fields of a date and time
pub record IsTime (tm : Tm) : Type 0 where
  pub mon : tm.tm_mon < 12
  pub mday_pos : 1 ≤ tm.tm_mday
  pub mday : tm.tm_mday ≤ 31
  pub hours : tm.tm_hour < 24
  pub minutes : tm.tm_min < 60
  pub seconds : tm.tm_sec < 60

days_before_year_lem : (y : ℕ) → days_before_year y ≡ 365 * y + (y + 1) / 4
unfolding days_before_year
days_before_year_lem zero = refl
days_before_year_lem (suc y) = ground (arith, days_before_year_lem y)

-- The table of the source counts the months of a leap year; the correction takes one day back.
abbrev table_entry : Bool → ℕ → Bool
table_entry leap m =
    days_before_month leap m * day + (if ltb 1 m && not leap then day else 0) == get_or month m 0

table : (leap : Bool) → passes (table_entry leap) 12 ≡ true
unfolding passes days_before_month
table true = refl
table false = refl

days_before_month_lem :
    (leap : Bool) (m : ℕ)
    → m < 12
    → days_before_month leap m * day + (if ltb 1 m && not leap then day else 0) ≡ get_or month m 0
days_before_month_lem leap m h = (==_iff _ _).0 (passes_lem (table_entry leap) 12 m h (table leap))

is_leap_lem : (y : ℕ) → is_leap y ≡ ((y + 2) % 4 == 0)
is_leap_lem y = ground arith

-- For every date of the years 1970 to 2037, the result is the right number of seconds but for the
-- minutes: it counts 60 seconds and one for each minute where the calendar has 60 for each.
pub kernel_mktime-seconds_since_1970 :
    (tm : Tm)
    → IsTime tm
    → year_of tm.tm_year < 68
    → kernel_mktime tm + minute * tm.tm_min ≡ seconds_since_1970 tm + minute + tm.tm_min
unfolding kernel_mktime seconds_since_1970
kernel_mktime-seconds_since_1970 tm t small = ground (
  arith,
  days_before_year_lem (year_of tm.tm_year),
  days_before_month_lem (is_leap (year_of tm.tm_year)) tm.tm_mon,
  is_leap_lem (year_of tm.tm_year),
)

-- For every date and time of the years 1970 to 2037 the result of `kernel_mktime` is not the
-- number of seconds since 1970.
kernel_mktime-ne :
    (tm : Tm) → IsTime tm → year_of tm.tm_year < 68 → kernel_mktime tm ≢ seconds_since_1970 tm
kernel_mktime-ne tm t small e = omega (arith, kernel_mktime-seconds_since_1970 tm t small)
