-- ===== src/Options/Expiry/Weekly.antt =====
-- core/option/option_master.py: the day of `calculate_krx_weekly_option_expiry`.
use kospi200_project.Base.{
  ℕ, suc, ◌+◌, ◌-◌, ◌*◌, ◌≤◌, ◌<◌, ◌≡◌, Bool, true, some, ap, subst, ◌∙◌, arith, if◌then◌else◌, ltb,
}
use kospi200_project.Time.Calendar.{is_trading_day}
use kospi200_project.Options.Expiry.{
  is_month, days_in_month, ordinal, date, weekday, first_thursday, IsLastOpen,
  calculate_krx_weekly_option_expiry, last_open-IsLastOpen, last_open_ends, date_in_month,
  ordinal-add,
}

date_of_month :
    (y m d : ℕ)
    → is_month y m ≡ true
    → 1 ≤ d
    → d ≤ days_in_month y m
    → date y m d ≡ some (ordinal y m d)
unfolding date
date_of_month y m d valid low high = ground arith

month_lasts : (y m : ℕ) → 28 ≤ days_in_month y m
unfolding days_in_month
month_lasts y m = ground arith

ordinal_from_first : (y m d : ℕ) → 1 ≤ d → ordinal y m d ≡ ordinal y m 1 + (d - 1)
ordinal_from_first y m d low = ap (ordinal y m) (omega (arith, low)) ∙ ordinal-add y m 1 (d - 1)

-- The Thursday among the days of a month from `7 * week - 6` to `7 * week`, as if the month went on.
pub record IsThursdayOfWeek (y m week t : ℕ) : Type 0 where
  pub thursday : weekday t ≡ 3
  pub from_week : ordinal y m 1 + week * 7 ≤ t + 7
  pub to_week : t < ordinal y m 1 + week * 7

-- The day, or the last day of the month if the day lies after it.
unfoldable pub within_month : ℕ → ℕ → ℕ → ℕ
within_month y m t = let last = ordinal y m (days_in_month y m) in if ltb last t then last else t

-- `min(target_day, max_days)`
abbrev day_within : ℕ → ℕ → ℕ
day_within max_days day = if ltb max_days day then max_days else day

target-IsThursdayOfWeek :
    (y m week : ℕ)
    → 1 ≤ week
    → let first = ordinal y m 1 in
      IsThursdayOfWeek y m week (first + (first_thursday first + week * 7 - 7 - 1))
target-IsThursdayOfWeek y m week some_week = record {
  thursday = omega (arith, some_week);
  from_week = omega (arith, some_week);
  to_week = omega (arith, some_week);
}

within_month_day :
    (y m day : ℕ)
    → 1 ≤ day
    → ordinal y m (day_within (days_in_month y m) day)
      ≡ within_month y m (ordinal y m 1 + (day - 1))
unfolding within_month
within_month_day y m day low = ground (
  arith,
  ordinal_from_first y m day low,
  ordinal_from_first y m (days_in_month y m),
  month_lasts y m,
)

-- In a real month with a trading day on or before its 1st, the expiry of the week number `week` (from
-- 1 on) exists: it is the last trading day up to the Thursday of that week of the month, or up to the
-- last day of the month if that Thursday lies after it.
pub weekly_expiry_lem :
    (is_holiday : ℕ → Bool) (y m week d : ℕ)
    → is_month y m ≡ true
    → 1 ≤ week
    → 1 ≤ d
    → d ≤ ordinal y m 1
    → is_trading_day is_holiday d ≡ true
    → (t : ℕ) × (e : ℕ) × (calculate_krx_weekly_option_expiry is_holiday y m week ≡ some e)
      × IsThursdayOfWeek y m week t
      × IsLastOpen is_holiday (within_month y m t) e
unfolding calculate_krx_weekly_option_expiry
weekly_expiry_lem is_holiday y m week d valid some_week low le open_day =
    let first = ordinal y m 1 in
    let max_days = days_in_month y m in
    let target_day = first_thursday first + week * 7 - 7 in
    let day = day_within max_days target_day in
    let t = first + (target_day - 1) in
    let positive : 1 ≤ target_day = omega (arith, some_week) in
    let real : (1 ≤ day) × (day ≤ max_days) =
      (ground (arith, positive, month_lasts y m), ground arith) in
    let start = date_in_month y m 1 valid (omega arith) (omega arith) in
    let target = date_of_month y m day valid real.0 real.1 in
    let place = ordinal_from_first y m day real.0 in
    let (e, ends) =
      last_open_ends is_holiday (ordinal y m day) d low (omega (arith, le, place)) open_day in
    (
      t,
      e,
      ground (arith, start, target, ends),
      target-IsThursdayOfWeek y m week some_week,
      subst (λ n. IsLastOpen is_holiday n e) (within_month_day y m target_day positive)
          (last_open-IsLastOpen is_holiday (suc (ordinal y m day)) (ordinal y m day) e ends),
    )
