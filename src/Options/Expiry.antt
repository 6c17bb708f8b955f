-- ===== src/Options/Expiry.antt =====
-- core/option/option_master.py: `calculate_krx_monthly_option_expiry` and
-- `calculate_krx_weekly_option_expiry`, over the calendar of infrastructure/kis/trading_calendar.py.
-- A date stands as its ordinal, as in Time.Calendar; the functions give the date whose text the source
-- returns. `none` is an exception: `date` rejects a day, or the calendar runs out of dates.
use kospi200_project.Base.{
  ℕ, zero, suc, ◌+◌, ◌-◌, ◌*◌, ◌/◌, ◌%◌, ◌≤◌, ◌<◌, ◌≡◌, Bool, true, false, not, ◌&&◌, ◌||◌, Option,
  none, some, ap, subst, ◌∙◌, arith, ◌⊎◌, inl, inr, Bool-cases, Option-cases, if◌then◌else◌, ltb,
  leb, eqb,
}
use kospi200_project.Time.Calendar.{
  is_trading_day, prev_trading_day, prev-IsPrevious, prev_trading_day_lem,
}
pub mod Weekly

-- Python's proleptic Gregorian calendar.
abbrev is_leap : ℕ → Bool
is_leap y = eqb (y % 4) 0 && (not (eqb (y % 100) 0) || eqb (y % 400) 0)

unfoldable pub days_in_month : ℕ → ℕ → ℕ
days_in_month y m =
    if eqb m 2
    then (if is_leap y then 29 else 28)
    else if eqb m 4 || eqb m 6 || eqb m 9 || eqb m 11
    then 30
    else 31

-- The days of the year before the month `suc m`.
unfoldable pub days_before : ℕ → ℕ → ℕ
days_before y zero = 0
days_before y (suc m) = days_before y m + days_in_month y (suc m)

-- `date(y, m, d).toordinal()` for a date that exists.
unfoldable pub ordinal : ℕ → ℕ → ℕ → ℕ
ordinal y m d = let p = y - 1 in p * 365 + p / 4 - p / 100 + p / 400 + days_before y (m - 1) + d

abbrev pub is_month : ℕ → ℕ → Bool
is_month y m = leb 1 y && leb y 9999 && leb 1 m && leb m 12

-- `date(y, m, d)`
unfoldable pub date : ℕ → ℕ → ℕ → Option ℕ
date y m d =
    if is_month y m && leb 1 d && leb d (days_in_month y m) then some (ordinal y m d) else none

-- `date.weekday()`: Monday is 0.
abbrev pub weekday : ℕ → ℕ
weekday n = (n + 6) % 7

-- `1 + (3 - first_day.weekday()) % 7`; the ten stands for the sign of Python's remainder.
abbrev pub first_thursday : ℕ → ℕ
first_thursday first_day = 1 + (10 - weekday first_day) % 7

module _ (is_holiday : ℕ → Bool) where
  -- The `while` loop; the fuel is the date itself, since each round goes back by a day at least.
  unfoldable pub last_open : ℕ → ℕ → Option ℕ
  last_open zero target = none
  last_open (suc fuel) target =
      if is_trading_day is_holiday target
      then some target
      else elim (prev_trading_day is_holiday target) [ none ↦ none | some d ↦ last_open fuel d ]

  unfoldable pub calculate_krx_monthly_option_expiry : ℕ → ℕ → Option ℕ
  calculate_krx_monthly_option_expiry year month = elim (date year month 1) [
    | none ↦ none
    | some first_day ↦ elim (date year month (first_thursday first_day + 7)) [
      | none ↦ none
      | some target ↦ last_open (suc target) target
    ]
  ]

  -- `week_num` is one digit of the name; with 0 the day may lie before the month.
  unfoldable pub calculate_krx_weekly_option_expiry : ℕ → ℕ → ℕ → Option ℕ
  calculate_krx_weekly_option_expiry year month week_num = elim (date year month 1) [
    | none ↦ none
    | some first_day ↦
        let target_day = first_thursday first_day + week_num * 7 - 7 in
        let max_days = days_in_month year month in
        elim (date year month (if ltb max_days target_day then max_days else target_day)) [
          | none ↦ none
          | some target ↦ last_open (suc target) target
        ]
  ]

  -- The last day up to `target` on which the market is open.
  pub record IsLastOpen (target d : ℕ) : Type 0 where
    pub not_after : d ≤ target
    pub trading : is_trading_day is_holiday d ≡ true
    pub closed_since : (n : ℕ) → (n ≤ d) ⊎ (target < n) ⊎ (is_trading_day is_holiday n ≡ false)

  last_open-IsLastOpen : (fuel target d : ℕ) → last_open fuel target ≡ some d → IsLastOpen target d
  unfolding last_open
  last_open-IsLastOpen zero target d h = cc
  last_open-IsLastOpen (suc fuel) target d h =
      elim (Bool-cases (is_trading_day is_holiday target)) [
        | inl open_day ↦
            let same : target ≡ d = ground arith in
            rw (← same) (record {
              not_after = omega arith;
              trading = open_day;
              closed_since = λ n. ground arith;
            })
        | inr closed ↦ elim (Option-cases (prev_trading_day is_holiday target)) [
          | inl ended ↦ ground arith
          | inr (e, found) ↦
              let p = prev-IsPrevious is_holiday target e found in
              let q = last_open-IsLastOpen fuel e d (ground arith) in
              record {
                not_after = omega (arith, p.before, q.not_after);
                trading = q.trading;
                closed_since = λ n. ground (arith, p.latest n, q.closed_since n, closed, p.before);
              }
        ]
      ]

  before_closed :
      (d k : ℕ)
      → is_trading_day is_holiday (suc k) ≡ false
      → is_trading_day is_holiday d ≡ true
      → d ≤ suc k
      → d < suc k
  before_closed d k closed open_day le = elim (Bool-cases (eqb d (suc k))) [
    | inl here ↦ let same : d ≡ suc k = ground arith in ground (arith, rw same at open_day)
    | inr below ↦ ground arith
  ]

  -- The fuel suffices, given an open day: the loop ends.
  last_open_ends :
      (target d : ℕ)
      → 1 ≤ d
      → d ≤ target
      → is_trading_day is_holiday d ≡ true
      → (e : ℕ) × (last_open (suc target) target ≡ some e)
  unfolding last_open
  last_open_ends zero d valid le open_day = absurd (omega (arith, valid, le))
  last_open_ends (suc k) d valid le open_day =
      elim (Bool-cases (is_trading_day is_holiday (suc k))) [
        | inl now ↦ (suc k, ground arith)
        | inr closed ↦
            let strict : d < suc k = before_closed d k closed open_day le in
            let (e, found, p, above) =
              prev_trading_day_lem is_holiday (suc k) d valid strict open_day in
            (e, ground (arith, closed, found, p.trading))
      ]

  -- The second Thursday of a month: the target of the monthly expiry.
  second_thursday :
      (first_day : ℕ)
      → let d = first_day + (first_thursday first_day + 6) in
        (weekday d ≡ 3) × (first_day + 7 ≤ d) × (d ≤ first_day + 13)
  second_thursday first_day = (omega arith, omega arith, omega arith)

date-some : (y m d : ℕ) {n : ℕ} → date y m d ≡ some n → n ≡ ordinal y m d
unfolding date
date-some y m d h = ground arith

date_in_month :
    (y m d : ℕ) → is_month y m ≡ true → 1 ≤ d → d ≤ 28 → date y m d ≡ some (ordinal y m d)
unfolding date days_in_month
date_in_month y m d valid low high = ground arith

ordinal-add : (y m d k : ℕ) → ordinal y m (d + k) ≡ ordinal y m d + k
unfolding ordinal
ordinal-add y m d k = omega arith

-- The days of a month between the 8th and the 14th hold its second Thursday.
pub record IsSecondThursday (y m t : ℕ) : Type 0 where
  pub thursday : weekday t ≡ 3
  pub from_eighth : ordinal y m 8 ≤ t
  pub to_fourteenth : t ≤ ordinal y m 14

target-IsSecondThursday :
    (y m : ℕ) → IsSecondThursday y m (ordinal y m (first_thursday (ordinal y m 1) + 7))
target-IsSecondThursday y m =
    let o = ordinal y m 1 in
    let (day, low, high) = second_thursday (λ _. false) o in
    let placed : ordinal y m (first_thursday o + 7) ≡ o + (first_thursday o + 6) =
      ap (ordinal y m) (omega arith) ∙ ordinal-add y m 1 (first_thursday o + 6) in
    record {
      thursday = rw placed day;
      from_eighth = omega (arith, placed, low, ordinal-add y m 1 7);
      to_fourteenth = omega (arith, placed, high, ordinal-add y m 1 13);
    }

-- In a real month with a trading day on or before its 8th, the monthly expiry exists: it is the last
-- trading day up to the second Thursday of the month.
pub monthly_expiry_lem :
    (is_holiday : ℕ → Bool) (y m d : ℕ)
    → is_month y m ≡ true
    → 1 ≤ d
    → d ≤ ordinal y m 8
    → is_trading_day is_holiday d ≡ true
    → (t : ℕ) × (e : ℕ) × (calculate_krx_monthly_option_expiry is_holiday y m ≡ some e)
      × IsSecondThursday y m t
      × IsLastOpen is_holiday t e
unfolding calculate_krx_monthly_option_expiry
monthly_expiry_lem is_holiday y m d valid low le open_day =
    let first = ordinal y m 1 in
    let day = first_thursday first + 7 in
    let t = ordinal y m day in
    let second = target-IsSecondThursday y m in
    let start = date_in_month y m 1 valid (omega arith) (omega arith) in
    let target = date_in_month y m day valid (omega arith) (omega arith) in
    let (e, ends) =
      last_open_ends is_holiday t d low (omega (arith, le, second.from_eighth)) open_day in
    (
      t,
      e,
      ground (arith, start, target, ends),
      second,
      last_open-IsLastOpen is_holiday (suc t) t e ends,
    )
