-- ===== src/Time/Tests.antt =====
-- Runs of the calendar and the clock.
use kospi200_project.Base.{ℕ, ◌+◌, ◌≤◌, ◌≡◌, refl, Bool, false, some, [], ◌∷◌, arith}
use kospi200_project.Base.Int.{negsuc, ◌-ℤ◌}
use kospi200_project.Base.Lists.{All}
use kospi200_project.Time.Calendar.{
  is_trading_day, prev_trading_day, count_days, trading_days_between,
}
use kospi200_project.Time.Clock.{steps, sleep_policy, sleep_policy_lem}

abbrev no_holiday : ℕ → Bool
no_holiday n = false

-- The 8th is a Monday, the 5th the Friday before.
previous_friday : prev_trading_day no_holiday 8 ≡ some 5
unfolding prev_trading_day is_trading_day
previous_friday = refl

backwards : trading_days_between no_holiday 8 4 ≡ negsuc 1
unfolding trading_days_between count_days is_trading_day ◌-ℤ◌
backwards = refl

ticks : steps 750 500 750 ≡ 500 ∷ 250 ∷ []
unfolding steps
ticks = refl

sleep_policy_lem_example :
    (sleep_policy (λ s v. v + s) 500 750 3 ≡ 3 + 750)
    × All (λ s. (1 ≤ s) × (s ≤ 500)) (steps 750 500 750)
sleep_policy_lem_example =
    sleep_policy_lem (λ s v. v + s) (λ v. v) 500 750 3 (omega arith) (λ s v. refl)
