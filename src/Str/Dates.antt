-- ===== src/Str/Dates.antt =====
-- `datetime.date`: the dates that `fromisoformat` reads from `YYYY-MM-DD`, and `toordinal`.
pub mod Order
use tai_mcp_ssh.Prelude.{
  ℕ, zero, suc, ◌+◌, ◌-◌, ◌*◌, ◌/◌, ◌%◌, Bool, true, false, not, ◌&&◌, ◌||◌, leb, ◌==◌,
  if◌then◌else◌, Option, none, some,
}

pub record Date : Type 0 where
  pub year : ℕ
  pub month : ℕ
  pub day : ℕ

abbrev pub is_leap : ℕ → Bool
is_leap y = (y % 4 == 0) && (not (y % 100 == 0) || (y % 400 == 0))

abbrev pub leap_day : ℕ → ℕ
leap_day y = if is_leap y then 1 else 0

-- the lengths of the months of a year, by their numbers
unfoldable pub days_in_month : ℕ → ℕ → ℕ
days_in_month y m =
    if m == 2 then 28 + leap_day y else if m == 4 || m == 6 || m == 9 || m == 11 then 30 else 31

-- the days of the year before a month
unfoldable pub days_before_month : ℕ → ℕ → ℕ
days_before_month y zero = 0
days_before_month y (suc zero) = 0
days_before_month y (suc (suc m)) = days_before_month y (suc m) + days_in_month y (suc m)

-- the days before the first of January, counted from the first of January of the year 1
abbrev pub days_before_year : ℕ → ℕ
days_before_year y = let z = y - 1 in z * 365 + z / 4 - z / 100 + z / 400

-- `d.toordinal()`
unfoldable pub ordinal : Date → ℕ
ordinal d = days_before_year d.year + days_before_month d.year d.month + d.day

-- whether there is such a date
unfoldable pub is_date : Date → Bool
is_date d =
    leb 1 d.year
    && leb 1 d.month
    && leb d.month 12
    && leb 1 d.day
    && leb d.day (days_in_month d.year d.month)
