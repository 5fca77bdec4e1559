-- ===== src/Str/Dates/Order.antt =====
-- The ordinals of dates go as the dates do.
use tai_mcp_ssh.Prelude.{ℕ, zero, suc, ◌+◌, ◌≤◌, ◌<◌, true, ◌≡◌, sym, arith, inl, inr, ◌⊎◌}
use tai_mcp_ssh.Str.Dates.{
  Date, leap_day, days_in_month, days_before_month, days_before_year, ordinal, is_date,
}

le_cases : (m n : ℕ) → m ≤ n → (m ≡ n) ⊎ (m < n)
le_cases m n h = ground (arith, h)

-- a year has 365 days, or 366
next_year : (y : ℕ) → 1 ≤ y → days_before_year (suc y) ≡ days_before_year y + 365 + leap_day y
next_year y h = ground arith

-- the days before January of the next year
year_length : (y : ℕ) → days_before_month y 13 ≡ 365 + leap_day y
unfolding days_before_month days_in_month
year_length y = ground arith

year_later : (y z : ℕ) → 1 ≤ y → y < z → days_before_year y + 365 + leap_day y ≤ days_before_year z
year_later y zero h l = absurd (omega arith)
year_later y (suc z) h l = elim (le_cases y z (omega arith)) [
  | inl e ↦ rw (sym e, next_year y h) (omega arith)
  | inr lt ↦
      let earlier = year_later y z h lt in
      let next = next_year z (omega arith) in omega (arith, earlier, next)
]

month_later :
    (y m n : ℕ) → 1 ≤ m → m < n → days_before_month y m + days_in_month y m ≤ days_before_month y n
unfolding days_before_month
month_later y m zero h l = absurd (omega arith)
month_later y m (suc zero) h l = absurd (omega arith)
month_later y m (suc (suc n)) h l = elim (le_cases m (suc n) (omega arith)) [
  | inl e ↦ rw e (omega arith)
  | inr lt ↦ let earlier = month_later y m (suc n) h lt in omega (arith, earlier)
]

-- the parts of a date
pub record IsDate (d : Date) : Type 0 where
  pub from_year : 1 ≤ d.year
  pub from_month : 1 ≤ d.month
  pub to_month : d.month ≤ 12
  pub from_day : 1 ≤ d.day
  pub to_day : d.day ≤ days_in_month d.year d.month

pub is_date-IsDate : (d : Date) → is_date d ≡ true → IsDate d
unfolding is_date
is_date-IsDate d h = record {
  from_year = ground (arith, h);
  from_month = ground (arith, h);
  to_month = ground (arith, h);
  from_day = ground (arith, h);
  to_day = ground (arith, h);
}

pub data IsBefore (d e : Date) : Type 0 where
  by_year : d.year < e.year → IsBefore d e
  by_month : d.year ≡ e.year → d.month < e.month → IsBefore d e
  by_day : d.year ≡ e.year → d.month ≡ e.month → d.day < e.day → IsBefore d e

pub ordinal_lt : (d e : Date) → IsDate d → IsDate e → IsBefore d e → ordinal d < ordinal e
unfolding ordinal
ordinal_lt d e p q (by_year l) =
    let year = year_later d.year e.year p.from_year l in
    let month = month_later d.year d.month 13 p.from_month (omega (arith, p.to_month)) in
    let length = year_length d.year in omega (arith, year, month, length, p.to_day, q.from_day)
ordinal_lt d e p q (by_month y l) =
    let month = month_later d.year d.month e.month p.from_month l in
    rw (sym y) (omega (arith, month, p.to_day, q.from_day))
ordinal_lt d e p q (by_day y m l) = rw (sym y, sym m) (omega (arith, l))
