-- ===== src/Timer/Compare.antt =====
-- rv_timer.c: the comparators of a timer, and the writes that arm one, in their order.
pub mod Quiet
use core_v_mini_mcu.Base.{
  ℕ, ◌+◌, ◌*◌, ◌/◌, ◌%◌, ◌^◌, u32, Bool, not, ◌||◌, leb, if◌then◌else◌, List, [], ◌∷◌,
}
use core_v_mini_mcu.Mmio.{Region, uint32_max, mmio_region_read32, mmio_region_write32}

-- `rv_timer_result_t`
pub data Result : Type 0 where
  ok bad_arg error : Result

-- `rv_timer_config_t`
pub record Config : Type 0 where
  pub hart_count : ℕ
  pub comparator_count : ℕ

-- The offset of a register of the hart, with `kHartRegisterSpacing`, in 32 bits.
unfoldable pub reg_for_hart : ℕ → ℕ → ℕ
reg_for_hart hart reg_offset = u32 (0x100 * hart + reg_offset)

-- `RV_TIMER_COMPARE_LOWER0_0_REG_OFFSET` and `RV_TIMER_COMPARE_UPPER0_0_REG_OFFSET`
abbrev pub compare_lower0 : ℕ
compare_lower0 = 0x10c

abbrev pub compare_upper0 : ℕ
compare_upper0 = 0x110

unfoldable pub lower_reg : ℕ → ℕ → ℕ
unfolding reg_for_hart
lower_reg hart_id comp_id = u32 (reg_for_hart hart_id compare_lower0 + 8 * comp_id)

unfoldable pub upper_reg : ℕ → ℕ → ℕ
unfolding reg_for_hart
upper_reg hart_id comp_id = u32 (reg_for_hart hart_id compare_upper0 + 8 * comp_id)

-- The guards on the hart and on the comparator.
abbrev pub no_hart : Bool → Config → ℕ → Bool
no_hart timer_there config hart_id = not timer_there || leb config.hart_count hart_id

abbrev pub no_comparator : Bool → Config → ℕ → ℕ → Bool
no_comparator timer_there config hart_id comp_id =
    no_hart timer_there config hart_id || leb config.comparator_count comp_id

-- The writes of the offset and the value, in the order in which they are made.
abbrev pub perform : List (ℕ × ℕ) → Region → Region
perform [] r = r
perform ((offset, value) ∷ writes) r = perform writes (mmio_region_write32 r offset value)

unfoldable pub arm_writes : ℕ → ℕ → ℕ → List (ℕ × ℕ)
unfolding lower_reg upper_reg
arm_writes hart_id comp_id threshold =
    (upper_reg hart_id comp_id, uint32_max)
    ∷ (lower_reg hart_id comp_id, u32 threshold)
    ∷ (upper_reg hart_id comp_id, u32 (threshold / 2 ^ 32))
    ∷ []

unfoldable pub rv_timer_arm : Region → Bool → Config → ℕ → ℕ → ℕ → Region × Result
unfolding arm_writes
rv_timer_arm r timer_there config hart_id comp_id threshold =
    if no_comparator timer_there config hart_id comp_id
    then (r, bad_arg)
    else (perform (arm_writes hart_id comp_id threshold) r, ok)
