-- ===== src/Clock.antt =====
-- kernel/mktime.c: seconds since 1970 from the fields of a `struct tm`.
-- The fields come from the CMOS clock and are not negative; a `long` is its pattern of 32 bits.
pub mod Calendar
mod Tests
use neantis.Prelude.{
  ℕ, ◌+◌, ◌-◌, ◌*◌, ◌/◌, ◌%◌, ◌^◌, ◌&&◌, not, List, [], ◌∷◌, ltb, leb, ◌==◌, if◌then◌else◌, get_or,
}
use neantis.Prelude.Words.{u32, sub32}

abbrev pub minute : ℕ
minute = 60

abbrev pub hour : ℕ
hour = 60 * minute

abbrev pub day : ℕ
day = 24 * hour

abbrev pub year : ℕ
year = 365 * day

pub record Tm : Type 0 where
  pub tm_sec : ℕ
  pub tm_min : ℕ
  pub tm_hour : ℕ
  pub tm_mday : ℕ
  pub tm_mon : ℕ
  pub tm_year : ℕ

-- the seconds before each month of a leap year
abbrev pub month : List ℕ
month =
    0
    ∷ (day * 31)
    ∷ (day * (31 + 29))
    ∷ (day * (31 + 29 + 31))
    ∷ (day * (31 + 29 + 31 + 30))
    ∷ (day * (31 + 29 + 31 + 30 + 31))
    ∷ (day * (31 + 29 + 31 + 30 + 31 + 30))
    ∷ (day * (31 + 29 + 31 + 30 + 31 + 30 + 31))
    ∷ (day * (31 + 29 + 31 + 30 + 31 + 30 + 31 + 31))
    ∷ (day * (31 + 29 + 31 + 30 + 31 + 30 + 31 + 31 + 30))
    ∷ (day * (31 + 29 + 31 + 30 + 31 + 30 + 31 + 31 + 30 + 31))
    ∷ (day * (31 + 29 + 31 + 30 + 31 + 30 + 31 + 31 + 30 + 31 + 30))
    ∷ []

-- two digits of the year: below 70 they are of the next century
unfoldable pub year_of : ℕ → ℕ
year_of tm_year = if leb 70 tm_year then tm_year - 70 else tm_year + 100 - 70

-- Each assignment to `res` is one `let`; `MINUTE+tm->tm_min` is the sum that the source has.
unfoldable pub kernel_mktime : Tm → ℕ
unfolding year_of
kernel_mktime tm =
    let y = year_of tm.tm_year in
    let r₀ = u32 (year * y + day * ((y + 1) / 4)) in
    let r₁ = u32 (r₀ + get_or month tm.tm_mon 0) in
    let r₂ = if ltb 1 tm.tm_mon && not ((y + 2) % 4 == 0) then sub32 r₁ day else r₁ in
    let r₃ = u32 (r₂ + sub32 (u32 (day * tm.tm_mday)) day) in
    let r₄ = u32 (r₃ + hour * tm.tm_hour) in
    let r₅ = u32 (r₄ + (minute + tm.tm_min)) in u32 (r₅ + tm.tm_sec)
