-- ===== src/Timer.antt =====
-- sw/device/lib/drivers/rv_timer: the driver of the timer. The registers are a region of mmio.h's
-- kind. A pointer argument that the code compares with NULL is the Boolean `there`, and what the
-- code writes through a pointer is a result. The parameters of the ticks are in Timer/Ticks.antt,
-- the read of the counter and the comparators in modules of their own.
pub mod Ticks
pub mod Counter
pub mod Compare
use core_v_mini_mcu.Base.{
  ℕ, zero, suc, ◌+◌, ◌*◌, u32, sub32, shl32, Bool, true, false, not, ◌||◌, leb, ltb, ◌==◌, ◌^◌, ◌-◌,
  if◌then◌else◌, Option, none, some,
}
use core_v_mini_mcu.Bitfield.{Field, bitfield_field32_write}
use core_v_mini_mcu.Mmio.{
  Region, uint32_max, mmio_region_read32, mmio_region_write32, mmio_region_get_bit32,
  mmio_region_nonatomic_set_bit32, mmio_region_nonatomic_clear_bit32,
}
use core_v_mini_mcu.Timer.Counter.{timer_v_lower0, timer_v_upper0}
use core_v_mini_mcu.Timer.Ticks.{TickParams, prescale_mask, step_mask}
use core_v_mini_mcu.Timer.Compare.{
  reg_for_hart, rv_timer_arm, Config, Result, ok, bad_arg, error, no_hart, no_comparator,
}

-- The offsets of the registers, in bytes.
abbrev pub ctrl : ℕ
ctrl = 0x0

abbrev pub cfg0 : ℕ
cfg0 = 0x100

abbrev pub intr_enable0 : ℕ
intr_enable0 = 0x114

abbrev pub intr_state0 : ℕ
intr_state0 = 0x118

abbrev pub intr_test0 : ℕ
intr_test0 = 0x11c

abbrev pub timer_enabled : ℕ
timer_enabled = 1

abbrev pub timer_disabled : ℕ
timer_disabled = 0

unfoldable pub rv_timer_set_tick_params : Region → Bool → Config → ℕ → TickParams → Region × Result
unfolding reg_for_hart bitfield_field32_write
rv_timer_set_tick_params r timer_there config hart_id params =
    if no_hart timer_there config hart_id
    then (r, bad_arg)
    else (let prescaled =
          bitfield_field32_write 0 (record { mask = prescale_mask; index = 0 }) params.prescale in
        let config_value =
          bitfield_field32_write prescaled (record { mask = step_mask; index = 16 })
            params.tick_step in
        (mmio_region_write32 r (reg_for_hart hart_id cfg0) config_value, ok))

-- One bit of a register set or cleared; any other value of the state is refused.
unfoldable pub set_bit : Region → ℕ → ℕ → ℕ → Region × Result
unfolding mmio_region_nonatomic_set_bit32 mmio_region_nonatomic_clear_bit32
set_bit r offset bit state =
    if state == timer_enabled
    then (mmio_region_nonatomic_set_bit32 r offset bit, ok)
    else if state == timer_disabled
    then (mmio_region_nonatomic_clear_bit32 r offset bit, ok)
    else (r, bad_arg)

unfoldable pub rv_timer_counter_set_enabled : Region → Bool → Config → ℕ → ℕ → Region × Result
unfolding set_bit
rv_timer_counter_set_enabled r timer_there config hart_id state =
    if no_hart timer_there config hart_id then (r, bad_arg) else set_bit r ctrl hart_id state

-- With `kComparatorsInReggenHeader`, which is 1, in 32 bits.
unfoldable pub irq_reg_for_hart : ℕ → ℕ → ℕ → ℕ
unfolding reg_for_hart
irq_reg_for_hart hart_id comparators reg_offset =
    u32 (reg_for_hart hart_id reg_offset + u32 (8 * sub32 comparators 1))

unfoldable pub rv_timer_irq_enable : Region → Bool → Config → ℕ → ℕ → ℕ → Region × Result
unfolding irq_reg_for_hart set_bit
rv_timer_irq_enable r timer_there config hart_id comp_id state =
    if no_comparator timer_there config hart_id comp_id
    then (r, bad_arg)
    else set_bit r (irq_reg_for_hart hart_id config.comparator_count intr_enable0) comp_id state

unfoldable pub rv_timer_irq_get : Region → Bool → Config → ℕ → ℕ → Bool → Result × Option Bool
unfolding irq_reg_for_hart mmio_region_get_bit32
rv_timer_irq_get r timer_there config hart_id comp_id flag_there =
    if no_comparator timer_there config hart_id comp_id || not flag_there
    then (bad_arg, none)
    else (let reg = irq_reg_for_hart hart_id config.comparator_count intr_state0 in
        (ok, some (mmio_region_get_bit32 r reg comp_id)))

-- What the write of a 1 does to the register itself is the hardware's.
unfoldable pub rv_timer_irq_clear : Region → Bool → Config → ℕ → ℕ → Region × Result
unfolding irq_reg_for_hart
rv_timer_irq_clear r timer_there config hart_id comp_id =
    if no_comparator timer_there config hart_id comp_id
    then (r, bad_arg)
    else (let reg = irq_reg_for_hart hart_id config.comparator_count intr_state0 in
        (mmio_region_write32 r reg (shl32 1 comp_id), ok))

-- The third part is what is written to `state`, where there is one.
unfoldable pub rv_timer_irq_disable : Region → Bool → Config → ℕ → Bool → Region × Result × Option ℕ
unfolding irq_reg_for_hart
rv_timer_irq_disable r timer_there config hart_id state_there =
    if no_hart timer_there config hart_id
    then (r, bad_arg, none)
    else (let reg = irq_reg_for_hart hart_id config.comparator_count intr_enable0 in
        let state = if state_there then some (mmio_region_read32 r reg) else none in
        (mmio_region_write32 r reg 0, ok, state))

unfoldable pub rv_timer_irq_restore : Region → Bool → Config → ℕ → ℕ → Region × Result
unfolding irq_reg_for_hart
rv_timer_irq_restore r timer_there config hart_id state =
    if no_hart timer_there config hart_id
    then (r, bad_arg)
    else (let reg = irq_reg_for_hart hart_id config.comparator_count intr_enable0 in
        (mmio_region_write32 r reg state, ok))

unfoldable pub rv_timer_irq_force : Region → Bool → Config → ℕ → ℕ → Region × Result
unfolding irq_reg_for_hart
rv_timer_irq_force r timer_there config hart_id comp_id =
    if no_comparator timer_there config hart_id comp_id
    then (r, bad_arg)
    else (let reg = irq_reg_for_hart hart_id config.comparator_count intr_test0 in
        (mmio_region_write32 r reg (shl32 1 comp_id), ok))

-- The loop over the comparators of a hart, with the number of those left.
unfoldable pub reset_comparators : Config → ℕ → ℕ → ℕ → Region → Region × Result
unfolding rv_timer_arm
reset_comparators config hart_id zero comp_id r = (r, ok)
reset_comparators config hart_id (suc left) comp_id r =
    let (armed, result) = rv_timer_arm r true config hart_id comp_id (2 ^ 64 - 1) in
    let rest = reset_comparators config hart_id left (comp_id + 1) armed in
    elim result [ ok ↦ rest | bad_arg ↦ (armed, bad_arg) | error ↦ (armed, error) ]

-- The loop over the harts.
unfoldable pub reset_harts : Config → ℕ → ℕ → Region → Region × Result
unfolding reg_for_hart irq_reg_for_hart reset_comparators
reset_harts config zero hart_id r = (r, ok)
reset_harts config (suc left) hart_id r =
    let irq_status = irq_reg_for_hart hart_id config.comparator_count intr_state0 in
    let irq_enable = irq_reg_for_hart hart_id config.comparator_count intr_enable0 in
    let disabled = mmio_region_write32 r irq_enable 0 in
    let cleared = mmio_region_write32 disabled irq_status uint32_max in
    let (armed, result) = reset_comparators config hart_id config.comparator_count 0 cleared in
    let lower = mmio_region_write32 armed (reg_for_hart hart_id timer_v_lower0) 0 in
    let upper = mmio_region_write32 lower (reg_for_hart hart_id timer_v_upper0) 0 in
    let rest = reset_harts config left (hart_id + 1) upper in
    elim result [ ok ↦ rest | bad_arg ↦ (armed, bad_arg) | error ↦ (armed, error) ]

unfoldable pub rv_timer_reset : Region → Bool → Config → Region × Result
unfolding reset_harts
rv_timer_reset r timer_there config =
    if not timer_there
    then (r, bad_arg)
    else reset_harts config config.hart_count 0 (mmio_region_write32 r ctrl 0)

-- The third part is the configuration that is stored in the timer.
unfoldable pub rv_timer_init : Region → Config → Bool → Region × Result × Option Config
unfolding rv_timer_reset
rv_timer_init r config timer_there =
    if not timer_there || ltb config.hart_count 1 || ltb config.comparator_count 1
    then (r, bad_arg, none)
    else (let (reset, result) = rv_timer_reset r true config in (reset, result, some config))
