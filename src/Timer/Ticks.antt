-- ===== src/Timer/Ticks.antt =====
-- rv_timer.c: the parameters of the ticks of a counter, from the frequency of the clock and the one
-- wanted for the counter.
pub mod Divisor
pub mod Exact
use mathlib.Core.Option
use core_v_mini_mcu.Base.{
  ℕ, zero, suc, ◌+◌, ◌-◌, ◌*◌, ◌/◌, ◌%◌, ◌^◌, u8, u16, Bool, true, false, not, ltb, ◌==◌, ◌||◌,
  if◌then◌else◌, Option, none, some,
}

-- `RV_TIMER_CFG0_PRESCALE_MASK` and `RV_TIMER_CFG0_STEP_MASK`
abbrev pub prescale_mask : ℕ
prescale_mask = 0xfff

abbrev pub step_mask : ℕ
step_mask = 0xff

-- `rv_timer_tick_params_t`
pub record TickParams : Type 0 where
  pub prescale : ℕ
  pub tick_step : ℕ

-- `rv_timer_approximate_tick_params_result_t`, and what was written to `out`
pub data Ticks : Type 0 where
  ok : TickParams → Ticks
  bad_arg : Ticks
  error : Ticks
  unrepresentable : Ticks

-- The loop of `euclidean_gcd`. `none` means that it still runs after the rounds that it is given.
unfoldable pub gcd_loop : ℕ → ℕ → ℕ → Option ℕ
gcd_loop zero a b = none
gcd_loop (suc rounds) a b = elim (b == 0) [ true ↦ some a | false ↦ gcd_loop rounds b (a % b) ]

unfoldable pub euclidean_gcd : ℕ → ℕ → Option ℕ
unfolding gcd_loop
euclidean_gcd a b = gcd_loop (suc b) a b

-- The parameters for a divisor. The prescaler is of 64 bits before the test.
unfoldable pub ticks_for : ℕ → ℕ → ℕ → Ticks
ticks_for clock_freq counter_freq gcd =
    let prescale = (clock_freq / gcd + (2 ^ 64 - 1)) % 2 ^ 64 in
    let step = counter_freq / gcd in
    if ltb prescale_mask prescale || ltb step_mask step
    then unrepresentable
    else ok (record { prescale = u16 prescale; tick_step = u8 step })

-- The result is `none` where the code divides by zero, or does not return.
unfoldable pub rv_timer_approximate_tick_params : ℕ → ℕ → Bool → Option Ticks
unfolding euclidean_gcd ticks_for
rv_timer_approximate_tick_params clock_freq counter_freq out_there =
    if not out_there
    then some bad_arg
    else Option.bind (euclidean_gcd clock_freq counter_freq)
        (λ (gcd : ℕ). if gcd == 0 then none else some (ticks_for clock_freq counter_freq gcd))
