-- ===== src/Examples/Timer.antt =====
-- A timer with two harts and one comparator for each.
use core_v_mini_mcu.Base.{
  ℕ, ◌/◌, ◌%◌, ◌^◌, ◌-◌, ◌<◌, ◌≡◌, arith, refl, true, ltb, ◌==◌, if◌then◌else◌, some,
}
use core_v_mini_mcu.Mmio.{Region}
use core_v_mini_mcu.Timer.Ticks.{Ticks, rv_timer_approximate_tick_params}
use core_v_mini_mcu.Timer.Ticks.Exact.{IsBest, rv_timer_approximate_tick_params-IsBest}
use core_v_mini_mcu.Timer.Compare.{Config, ok, reg_for_hart, perform, arm_writes, rv_timer_arm}
use core_v_mini_mcu.Timer.Compare.Quiet.{compare_value, Throughout, rv_timer_arm-quiet}
use core_v_mini_mcu.Timer.Counter.{rv_timer_counter_read, timer_v_upper0}
use core_v_mini_mcu.Timer.Counter.Value.{Counts, rv_timer_counter_read-counter}

rv_timer_approximate_tick_params-IsBest_example :
    (r : Ticks) × (rv_timer_approximate_tick_params 50000000 1000000 true ≡ some r)
    × IsBest 50000000 1000000 r
rv_timer_approximate_tick_params-IsBest_example =
    rv_timer_approximate_tick_params-IsBest 50000000 1000000 (omega arith) (omega arith)

abbrev two_harts : Config
two_harts = record { hart_count = 2; comparator_count = 1 }

-- The comparators as a reset leaves them.
abbrev reset_registers : Region
reset_registers i = 2 ^ 32 - 1

rv_timer_arm-quiet_example :
    let after = perform (arm_writes 1 0 1000) reset_registers in
    (rv_timer_arm reset_registers true two_harts 1 0 1000 ≡ (after, ok))
    × (compare_value after 1 0 ≡ 1000)
    × Throughout (λ s. 5 < compare_value s 1 0) (arm_writes 1 0 1000) reset_registers
rv_timer_arm-quiet_example =
    rv_timer_arm-quiet reset_registers two_harts 1 0 1000 5 refl (omega arith) (omega arith)
      (omega arith) (omega arith)

-- The lower half of the counter passes its end between the second access and the third.
abbrev passing : ℕ → ℕ
passing i = if ltb i 2 then 2 ^ 32 - 1 else 2 ^ 32

abbrev device : ℕ → Region
device i offset = if offset == timer_v_upper0 / 4 then passing i / 2 ^ 32 else passing i % 2 ^ 32

device-Counts : Counts device 0 passing
unfolding reg_for_hart
device-Counts = record {
  upper = λ i. refl;
  lower = λ i. refl;
  word = λ i. ground arith;
  later = λ i j le. ground (arith, le);
}

rv_timer_counter_read-counter_example :
    (i : ℕ) × (rv_timer_counter_read device true two_harts 0 true (2 ^ 32)
      ≡ some (ok, some (passing i)))
rv_timer_counter_read-counter_example =
    rv_timer_counter_read-counter device 0 passing device-Counts two_harts (2 ^ 32) refl
      (omega arith)
