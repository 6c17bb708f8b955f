-- ===== src/Time/Calendar.antt =====
-- infrastructure/kis/trading_calendar.py: `ProductionTradingCalendar`. A date stands as its ordinal,
-- the number that Python's `date.toordinal()` gives it, from 1 on. Which days are holidays is known to
-- an injected provider, here the function `is_holiday`.
use kospi200_project.Base.{
  ℕ, zero, suc, ◌+◌, ◌-◌, ◌%◌, ◌≤◌, ◌<◌, ◌≡◌, Bool, true, false, not, ◌&&◌, Option, none, some,
  arith, ◌⊎◌, inl, inr, Bool-cases, if◌then◌else◌, ltb, eqb,
}
use kospi200_project.Base.Int.{ℤ, pos, ◌-ℤ◌}

module _ (is_holiday : ℕ → Bool) where
  -- `value.weekday() < 5 and not is_holiday(value)`; the ordinal 1 is a Monday.
  unfoldable pub is_trading_day : ℕ → Bool
  is_trading_day value = ltb ((value + 6) % 7) 5 && not (is_holiday value)

  -- `none` is the `OverflowError` of a date before the first one.
  unfoldable pub prev_trading_day : ℕ → Option ℕ
  prev_trading_day zero = none
  prev_trading_day (suc zero) = none
  prev_trading_day (suc (suc n)) =
      let rest = prev_trading_day (suc n) in if is_trading_day (suc n) then some (suc n) else rest

  -- The loop of `trading_days_between`: the trading days among the next `k` ones.
  unfoldable pub count_days : ℕ → ℕ → ℕ
  count_days current zero = 0
  count_days current (suc k) =
      let rest = count_days (suc current) k in
      if is_trading_day (suc current) then suc rest else rest

  unfoldable pub trading_days_between : ℕ → ℕ → ℤ
  trading_days_between from until =
      if eqb from until
      then pos 0
      else if ltb from until
      then pos (count_days from (until - from))
      else pos 0 -ℤ pos (count_days until (from - until))

  -- The day before which the search starts, and the days that it passes.
  pub record IsPrevious (value d : ℕ) : Type 0 where
    pub before : d < value
    pub valid : 1 ≤ d
    pub trading : is_trading_day d ≡ true
    pub latest : (n : ℕ) → (n ≤ d) ⊎ (value ≤ n) ⊎ (is_trading_day n ≡ false)

  pub prev-IsPrevious : (value d : ℕ) → prev_trading_day value ≡ some d → IsPrevious value d
  unfolding prev_trading_day
  prev-IsPrevious zero d h = cc
  prev-IsPrevious (suc zero) d h = cc
  prev-IsPrevious (suc (suc m)) d h = elim (Bool-cases (is_trading_day (suc m))) [
    | inl open_day ↦
        let same : suc m ≡ d = ground arith in
        rw (← same) (record {
          before = omega arith;
          valid = omega arith;
          trading = open_day;
          latest = λ n. ground arith;
        })
    | inr closed ↦
        let p = prev-IsPrevious (suc m) d (ground arith) in
        record {
          before = omega (arith, p.before);
          valid = p.valid;
          trading = p.trading;
          latest = λ n. elim (p.latest n) [
            | inl low ↦ inl low
            | inr (inr off) ↦ inr (inr off)
            | inr (inl high) ↦ elim (Bool-cases (eqb n (suc m))) [
              | inl here ↦ let same : n ≡ suc m = ground arith in inr (inr (rw same closed))
              | inr above ↦ inr (inl (ground arith))
            ]
          ];
        }
  ]

  prev_exists :
      (value d : ℕ)
      → 1 ≤ d
      → d < value
      → is_trading_day d ≡ true
      → (e : ℕ) × (prev_trading_day value ≡ some e)
  unfolding prev_trading_day
  prev_exists zero d h lt t = absurd (omega (arith, lt))
  prev_exists (suc zero) d h lt t = absurd (omega (arith, h, lt))
  prev_exists (suc (suc m)) d h lt t = elim (Bool-cases (is_trading_day (suc m))) [
    | inl open_day ↦ (suc m, ground arith)
    | inr closed ↦ elim (Bool-cases (eqb d (suc m))) [
      | inl here ↦ let same : d ≡ suc m = ground arith in ground arith
      | inr below ↦ let (e, found) = prev_exists (suc m) d h (ground arith) t in (e, ground arith)
    ]
  ]

  -- If there is a trading day before a date, then the search ends at one, and it is the last of them:
  -- no later day before the date is a trading day.
  pub prev_trading_day_lem :
      (value d : ℕ)
      → 1 ≤ d
      → d < value
      → is_trading_day d ≡ true
      → (e : ℕ) × (prev_trading_day value ≡ some e) × IsPrevious value e × (d ≤ e)
  prev_trading_day_lem value d h lt t =
      let (e, found) = prev_exists value d h lt t in
      let p = prev-IsPrevious value e found in (e, found, p, ground (arith, p.latest d))

  -- The trading days up to a date, the date included.
  unfoldable pub days_until : ℕ → ℕ
  days_until zero = 0
  days_until (suc n) = let rest = days_until n in if is_trading_day (suc n) then suc rest else rest

  days_until-add : (a d b : ℕ) → a + d ≡ b → days_until a + count_days a d ≡ days_until b
  unfolding days_until count_days
  days_until-add a zero b h = let same : a ≡ b = omega (arith, h) in rw same (omega arith)
  days_until-add a (suc d) b h =
      let ih = days_until-add (suc a) d b (omega (arith, h)) in ground (arith, ih)

  -- The count between two dates in either order is the number of trading days up to the second less
  -- the number up to the first. So it is additive along dates and changes its sign with their order.
  pub trading_days_between_lem :
      (from until : ℕ)
      → trading_days_between from until ≡ pos (days_until until) -ℤ pos (days_until from)
  unfolding trading_days_between ◌-ℤ◌
  trading_days_between_lem from until = elim (Bool-cases (eqb from until)) [
    | inl same ↦ let e : from ≡ until = ground arith in rw e (ground arith)
    | inr differ ↦ elim (Bool-cases (ltb from until)) [
      | inl up ↦ ground (arith, days_until-add from (until - from) until (ground arith))
      | inr down ↦ ground (arith, days_until-add until (from - until) from (ground arith))
    ]
  ]
