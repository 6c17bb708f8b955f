-- ===== src/Time/Clock.antt =====
-- environments/virtual/clock.py: the loop of `VMSClockProvider.sleep_policy`, in milliseconds. The
-- rounding of the seconds is Python's and stays outside: `milliseconds` is its result. The source of
-- the ticks is injected: `advance_tick` is a function on its state.
use kospi200_project.Base.{
  ℕ, zero, suc, ◌+◌, ◌-◌, ◌≤◌, ◌≡◌, List, [], ◌∷◌, arith, inl, inr, Bool-cases, if◌then◌else◌, leb,
  eqb,
}
use kospi200_project.Base.Lists.{All}

-- `min(tick, remaining)`
abbrev pub step_of : ℕ → ℕ → ℕ
step_of tick remaining = if leb tick remaining then tick else remaining

-- The ticks that the loop asks for, on fuel.
unfoldable pub steps : ℕ → ℕ → ℕ → List ℕ
steps zero tick remaining = []
steps (suc fuel) tick remaining =
    let rest = steps fuel tick (remaining - step_of tick remaining) in
    if eqb remaining 0 then [] else step_of tick remaining ∷ rest

module _ {W : Type 0} (advance_tick : ℕ → W → W) where
  unfoldable pub advance : List ℕ → W → W
  advance [] w = w
  advance (s ∷ ss) w = advance ss (advance_tick s w)

  -- Each round takes at least one millisecond, so the milliseconds are fuel enough.
  unfoldable pub sleep_policy : ℕ → ℕ → W → W
  sleep_policy tick milliseconds w = advance (steps milliseconds tick milliseconds) w

abbrev pub sum : List ℕ → ℕ
sum [] = 0
sum (n ∷ ns) = n + sum ns

steps_lem :
    (fuel tick remaining : ℕ)
    → 1 ≤ tick
    → remaining ≤ fuel
    → (sum (steps fuel tick remaining) ≡ remaining)
      × All (λ s. (1 ≤ s) × (s ≤ tick)) (steps fuel tick remaining)
unfolding steps
steps_lem zero tick remaining some_tick enough = (omega arith, tt)
steps_lem (suc fuel) tick remaining some_tick enough = elim (Bool-cases (eqb remaining 0)) [
  | inl done ↦ (ground arith, ground arith)
  | inr more ↦
      let rest =
        steps_lem fuel tick (remaining - step_of tick remaining) some_tick (ground arith) in
      (ground (arith, rest), ground (arith, rest))
]

-- A clock whose state counts the time, and any other thing that a tick does.
advance-sum :
    {W : Type 0} (advance_tick : ℕ → W → W) (time : W → ℕ) (ss : List ℕ) (w : W)
    → ((s : ℕ) (v : W) → time (advance_tick s v) ≡ time v + s)
    → time (advance advance_tick ss w) ≡ time w + sum ss
unfolding advance
advance-sum advance_tick time [] w h = omega arith
advance-sum advance_tick time (s ∷ ss) w h =
    omega (arith, advance-sum advance_tick time ss (advance_tick s w) h, h s w)

-- The loop ends with the given fuel: it asks only for ticks between one millisecond and the tick
-- size, which add up to the milliseconds of the sleep; so a source whose time each tick advances by
-- its length is later by exactly those.
pub sleep_policy_lem :
    {W : Type 0} (advance_tick : ℕ → W → W) (time : W → ℕ) (tick milliseconds : ℕ) (w : W)
    → 1 ≤ tick
    → ((s : ℕ) (v : W) → time (advance_tick s v) ≡ time v + s)
    → (time (sleep_policy advance_tick tick milliseconds w) ≡ time w + milliseconds)
      × All (λ s. (1 ≤ s) × (s ≤ tick)) (steps milliseconds tick milliseconds)
unfolding sleep_policy
sleep_policy_lem advance_tick time tick milliseconds w some_tick h =
    let (total, each) = steps_lem milliseconds tick milliseconds some_tick (omega arith) in
    (
      omega
          (arith, total, advance-sum advance_tick time (steps milliseconds tick milliseconds) w h),
      each,
    )
