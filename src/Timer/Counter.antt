-- ===== src/Timer/Counter.antt =====
-- rv_timer.c: the read of the 64-bit counter in two halves. `device` gives the registers at each
-- access, by the number of accesses made so far, since the counter goes on by itself.
pub mod Value
use core_v_mini_mcu.Base.{
  ℕ, zero, suc, ◌+◌, ◌*◌, ◌^◌, Bool, true, false, not, ◌||◌, ◌==◌, if◌then◌else◌, Option, none,
  some,
}
use mathlib.Core.Option
use core_v_mini_mcu.Mmio.{Region, mmio_region_read32}
use core_v_mini_mcu.Timer.Compare.{Config, Result, ok, bad_arg, reg_for_hart, no_hart}

-- `RV_TIMER_TIMER_V_LOWER0_REG_OFFSET` and `RV_TIMER_TIMER_V_UPPER0_REG_OFFSET`
abbrev pub timer_v_lower0 : ℕ
timer_v_lower0 = 0x104

abbrev pub timer_v_upper0 : ℕ
timer_v_upper0 = 0x108

-- The loop. `none` means that it still runs after the rounds that it is given.
unfoldable pub read_loop : (ℕ → Region) → ℕ → ℕ → ℕ → Option ℕ
read_loop device hart_id zero at = none
read_loop device hart_id (suc rounds) at =
    let upper = mmio_region_read32 (device at) (reg_for_hart hart_id timer_v_upper0) in
    let lower = mmio_region_read32 (device (at + 1)) (reg_for_hart hart_id timer_v_lower0) in
    let overflow_check =
      mmio_region_read32 (device (at + 2)) (reg_for_hart hart_id timer_v_upper0) in
    elim (upper == overflow_check) [
      | true ↦ some (upper * 2 ^ 32 + lower)
      | false ↦ read_loop device hart_id rounds (at + 3)
    ]

unfoldable pub rv_timer_counter_read :
    (ℕ → Region) → Bool → Config → ℕ → Bool → ℕ → Option (Result × Option ℕ)
unfolding read_loop
rv_timer_counter_read device timer_there config hart_id out_there rounds =
    if no_hart timer_there config hart_id || not out_there
    then some (bad_arg, none)
    else Option.map (λ (value : ℕ). (ok, some value)) (read_loop device hart_id rounds 0)
