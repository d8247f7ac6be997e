-- ===== src/Plic.antt =====
-- sw/device/lib/drivers/rv_plic: the driver of the interrupt controller. The registers are a region
-- of mmio.h's kind, the array of handlers is a function from the interrupt to its handler. The
-- interrupt numbers of the generated core_v_mini_mcu.h are the record `Numbers`. A pointer argument
-- that the code compares with NULL is the Boolean `given`, and what the code writes through a
-- pointer is a result.
pub mod Enable
pub mod Handlers
use core_v_mini_mcu.Base.{
  ℕ, zero, suc, ◌+◌, ◌-◌, ◌*◌, ◌/◌, ◌%◌, Bool, true, false, not, ◌&&◌, ◌||◌, leb, ltb, ◌==◌,
  if◌then◌else◌, Option, none, some,
}
use core_v_mini_mcu.Bitfield.{bitfield_read, bitfield_write}
use core_v_mini_mcu.Mmio.{Region, update, mmio_region_read32, mmio_region_write32}

-- `plic_result_t`
pub data Result : Type 0 where
  ok error bad_arg : Result

-- `plic_toggle_t`
abbrev pub toggle_disabled : ℕ
toggle_disabled = 0

abbrev pub toggle_enabled : ℕ
toggle_enabled = 1

-- `RV_PLIC_PARAM_NUM_SRC` and `RV_PLIC_PARAM_REG_WIDTH`
abbrev pub num_src : ℕ
num_src = 64

abbrev pub reg_width : ℕ
reg_width = 32

-- `plicMaxPriority`
abbrev pub max_priority : ℕ
max_priority = 7

-- The offsets of the registers, in bytes.
abbrev pub ip0 : ℕ
ip0 = 0x0

abbrev pub le0 : ℕ
le0 = 0x8

abbrev pub prio0 : ℕ
prio0 = 0x10

abbrev pub ie00 : ℕ
ie00 = 0x200

abbrev pub threshold0 : ℕ
threshold0 = 0x208

abbrev pub cc0 : ℕ
cc0 = 0x20c

abbrev pub msip0 : ℕ
msip0 = 0x210

-- `(&rv_plic_peri->NAME)[index]`
abbrev pub element : ℕ → ℕ → ℕ
element offset index = offset + 4 * index

unfoldable pub plic_offset_from_reg0 : ℕ → ℕ
plic_offset_from_reg0 irq = irq / reg_width

unfoldable pub plic_irq_bit_index : ℕ → ℕ
plic_irq_bit_index irq = irq % reg_width

unfoldable pub plic_irq_set_enabled : Region → ℕ → ℕ → Region × Result
unfolding plic_offset_from_reg0 plic_irq_bit_index
plic_irq_set_enabled r irq state =
    if leb num_src irq
    then (r, bad_arg)
    else if not (state == toggle_enabled) && not (state == toggle_disabled)
    then (r, bad_arg)
    else (let register = element ie00 (plic_offset_from_reg0 irq) in
        let word = mmio_region_read32 r register in
        (mmio_region_write32 r register (bitfield_write word 1 (plic_irq_bit_index irq) state), ok))

unfoldable pub plic_irq_get_enabled : Region → ℕ → Result × Option ℕ
unfolding plic_offset_from_reg0 plic_irq_bit_index
plic_irq_get_enabled r irq =
    if leb num_src irq
    then (bad_arg, none)
    else (let register = element ie00 (plic_offset_from_reg0 irq) in
        (ok, some (bitfield_read (mmio_region_read32 r register) 1 (plic_irq_bit_index irq))))

unfoldable pub plic_irq_set_trigger : Region → ℕ → ℕ → Region × Result
unfolding plic_offset_from_reg0 plic_irq_bit_index
plic_irq_set_trigger r irq trigger =
    if leb num_src irq
    then (r, bad_arg)
    else (let register = element le0 (plic_offset_from_reg0 irq) in
        let word = mmio_region_read32 r register in
        (
          mmio_region_write32 r register (bitfield_write word 1 (plic_irq_bit_index irq) trigger),
          ok,
        ))

unfoldable pub plic_irq_set_priority : Region → ℕ → ℕ → Region × Result
plic_irq_set_priority r irq priority =
    if leb num_src irq || ltb max_priority priority
    then (r, bad_arg)
    else (mmio_region_write32 r (element prio0 irq) priority, ok)

unfoldable pub plic_target_set_threshold : Region → ℕ → Region × Result
plic_target_set_threshold r threshold =
    if ltb max_priority threshold
    then (r, bad_arg)
    else (mmio_region_write32 r threshold0 threshold, ok)

unfoldable pub plic_irq_is_pending : Region → ℕ → Bool → Result × Option ℕ
unfolding plic_offset_from_reg0 plic_irq_bit_index
plic_irq_is_pending r irq given =
    if leb num_src irq || not given
    then (bad_arg, none)
    else (let register = element ip0 (plic_offset_from_reg0 irq) in
        (ok, some (bitfield_read (mmio_region_read32 r register) 1 (plic_irq_bit_index irq))))

unfoldable pub plic_irq_claim : Region → Bool → Result × Option ℕ
plic_irq_claim r given =
    if not given then (bad_arg, none) else (ok, some (mmio_region_read32 r cc0))

-- The argument is what `complete_data` points to, `none` for NULL.
unfoldable pub plic_irq_complete : Region → Option ℕ → Region × Result
plic_irq_complete r none = (r, bad_arg)
plic_irq_complete r (some complete_data) = (mmio_region_write32 r cc0 complete_data, ok)

unfoldable pub plic_software_irq_force : Region → Region
plic_software_irq_force r = mmio_region_write32 r msip0 1

unfoldable pub plic_software_irq_acknowledge : Region → Region
plic_software_irq_acknowledge r = mmio_region_write32 r msip0 0

unfoldable pub plic_software_irq_is_pending : Region → ℕ
plic_software_irq_is_pending r = mmio_region_read32 r msip0

-- The handlers of the drivers, and one that the application assigns.
pub data Handler : Type 0 where
  handler_irq_dummy handler_irq_uart handler_irq_gpio handler_irq_i2c : Handler
  handler_irq_spi handler_irq_i2s handler_irq_dma : Handler
  assigned : ℕ → Handler

pub record Numbers : Type 0 where
  pub uart_id_end : ℕ
  pub gpio_id_end : ℕ
  pub i2c_id_end : ℕ
  pub spi_id : ℕ
  pub i2s_id : ℕ
  pub dma_id : ℕ
  pub ext_irq_start : ℕ
  pub qty_intr : ℕ

-- The handler that the chain of tests gives an interrupt.
unfoldable pub handler_of : Numbers → ℕ → Handler
handler_of n i =
    if leb i n.uart_id_end
    then handler_irq_uart
    else if leb i n.gpio_id_end
    then handler_irq_gpio
    else if leb i n.i2c_id_end
    then handler_irq_i2c
    else if i == n.spi_id
    then handler_irq_spi
    else if i == n.i2s_id
    then handler_irq_i2s
    else if i == n.dma_id
    then handler_irq_dma
    else handler_irq_dummy

-- The loop from `i` on, with the number of interrupts left. Its counter has 8 bits in the code, so
-- `qty_intr` is at most 255.
unfoldable pub reset_loop : Numbers → ℕ → ℕ → (ℕ → Handler) → ℕ → Handler
unfolding handler_of
reset_loop n zero i handlers = handlers
reset_loop n (suc left) i handlers = reset_loop n left (i + 1) (update handlers i (handler_of n i))

unfoldable pub plic_reset_handlers_list : Numbers → (ℕ → Handler) → ℕ → Handler
unfolding reset_loop
plic_reset_handlers_list n handlers =
    reset_loop n (n.qty_intr - 1) 1 (update handlers 0 handler_irq_dummy)

unfoldable pub plic_assign_external_irq_handler :
    Numbers → (ℕ → Handler) → ℕ → ℕ → (ℕ → Handler) × Result
plic_assign_external_irq_handler n handlers id handler =
    if leb n.ext_irq_start id && leb id n.qty_intr
    then (update handlers id (assigned handler), ok)
    else (handlers, bad_arg)

-- The registers from `index` on, `left` of them, are set to 0.
unfoldable pub clear : ℕ → ℕ → ℕ → Region → Region
clear offset zero index r = r
clear offset (suc left) index r =
    clear offset left (index + 1) (mmio_region_write32 r (element offset index) 0)

-- `device` is what the controller makes of its registers after a write that is read back.
unfoldable pub plic_init :
    Numbers → (Region → Region) → Region → (ℕ → Handler) → (Region × (ℕ → Handler)) × Result
unfolding clear
plic_init n device r handlers =
    let r1 = clear ie00 2 0 (clear prio0 num_src 0 (clear le0 2 0 r)) in
    let r2 = device (mmio_region_write32 r1 threshold0 0) in
    let r3 = device (mmio_region_write32 r2 msip0 0) in
    if not (mmio_region_read32 r2 threshold0 == 0)
    then ((r2, handlers), error)
    else if not (mmio_region_read32 r3 msip0 == 0)
    then ((r3, handlers), error)
    else ((r3, plic_reset_handlers_list n handlers), ok)

-- `handler_irq_external`: the handler that is called with the claimed interrupt, and the registers
-- after the completion. `run` is what a handler does to the registers.
unfoldable pub handler_irq_external :
    (Handler → ℕ → Region → Region) → (ℕ → Handler) → Region → Region × (Handler × ℕ)
handler_irq_external run handlers r =
    let int_id = mmio_region_read32 r cc0 in
    let called = handlers int_id in
    let served = run called int_id r in
    ((plic_irq_complete served (some int_id)).0, (called, int_id))
