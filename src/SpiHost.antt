-- ===== src/SpiHost.antt =====
-- sw/device/lib/drivers/spi_host: the driver of the SPI host. The word written to TXDATA or COMMAND is
-- taken by the device, so these are the lists of the words written, in order; RXDATA gives the
-- words that the device received, in order, and `taken` counts those that were read. What the device
-- does to its other registers after such an access is the parameter `device`. The instances of the
-- driver are fixed addresses; a NULL instance is not modelled.
pub mod Reg
pub mod Flag
pub mod Word
pub mod Encoding
pub mod Reset
use core_v_mini_mcu.Base.{
  ℕ, zero, suc, ◌+◌, ◌-◌, ◌*◌, ◌/◌, ◌^◌, bit_and, bit_or, not32, Bool, true, false, not, ◌&&◌, ◌||◌,
  ltb, leb, ◌==◌, if◌then◌else◌, Option, none, some, List, [], ◌∷◌, ◌++◌,
}
use core_v_mini_mcu.Bitfield.{bitfield_read, bitfield_write}
use core_v_mini_mcu.Mmio.{Region, update, mmio_region_read32, mmio_region_write32}
use core_v_mini_mcu.SpiHost.Flag
use core_v_mini_mcu.SpiHost.Reg
use core_v_mini_mcu.SpiHost.Word.{spi_validate_cmd, to_bit}

pub record Host : Type 0 where
  pub regs : Region
  pub sent : List ℕ
  pub issued : List ℕ
  pub incoming : ℕ → ℕ
  pub taken : ℕ

-- The registers that the device leaves after an access.
abbrev pub Device : Type 0
Device = Host → Region

abbrev pub settle : Device → Host → Host
settle device h = record h { regs = device h }

-- `SPI_EVENT_ALL` and `SPI_ERROR_IRQALL`
abbrev pub event_all : ℕ
event_all = 0x3f

abbrev pub error_irqall : ℕ
error_irqall = 0x1f

abbrev pub error_all : ℕ
error_all = 0x3f

abbrev pub get : ℕ → Host → ℕ
get offset h = mmio_region_read32 h.regs offset

abbrev pub set : ℕ → ℕ → Host → Host
set offset value h = record h { regs = mmio_region_write32 h.regs offset value }

-- A field of a register is written in place.
abbrev pub put : ℕ → ℕ → ℕ → ℕ → Host → Host
put offset mask index value h = set offset (bitfield_write (get offset h) mask index value) h

-- The fields of the status word, `spi_status_t`.
abbrev pub txqd : ℕ → ℕ
txqd status = bitfield_read status 0xff 0

abbrev pub rxqd : ℕ → ℕ
rxqd status = bitfield_read status 0xff 8

abbrev pub status_bit : ℕ → ℕ → Bool
status_bit index status = not (bitfield_read status 1 index == 0)

abbrev pub is_active : ℕ → Bool
is_active status = status_bit 30 status

abbrev pub is_ready : ℕ → Bool
is_ready status = status_bit 31 status

unfoldable pub spi_get_status : Host → ℕ
spi_get_status h = get Reg.status h

unfoldable pub spi_get_events_enabled : Host → ℕ
spi_get_events_enabled h = bitfield_read (get Reg.event_enable h) event_all 0

unfoldable pub spi_set_events_enabled : ℕ → Bool → Host → Host × ℕ
spi_set_events_enabled events enable h = if ltb event_all events then (h, Flag.event_invalid) else (
  if enable
      then set Reg.event_enable (bit_or (get Reg.event_enable h) events) h
      else set Reg.event_enable (bit_and (get Reg.event_enable h) (not32 events)) h,
  Flag.ok,
)

unfoldable pub spi_get_errors_enabled : Host → ℕ
spi_get_errors_enabled h = bitfield_read (get Reg.error_enable h) error_irqall 0

unfoldable pub spi_set_errors_enabled : ℕ → Bool → Host → Host × ℕ
spi_set_errors_enabled errors enable h =
    if ltb error_irqall errors then (h, Flag.error_invalid) else (
      if enable
          then set Reg.error_enable (bit_or (get Reg.error_enable h) errors) h
          else set Reg.error_enable (bit_and (get Reg.error_enable h) (not32 errors)) h,
      Flag.ok,
    )

unfoldable pub spi_get_errors : Host → ℕ
spi_get_errors h = bitfield_read (get Reg.error_status h) error_all 0

unfoldable pub spi_acknowledge_errors : Host → Host
spi_acknowledge_errors h = put Reg.intr_state 1 0 1 (put Reg.error_status error_all 0 error_all h)

unfoldable pub spi_enable_error_intr_test : Bool → Host → Host
spi_enable_error_intr_test enable h = put Reg.intr_test 1 0 (to_bit enable) h

unfoldable pub spi_enable_evt_intr_test : Bool → Host → Host
spi_enable_evt_intr_test enable h = put Reg.intr_test 1 1 (to_bit enable) h

unfoldable pub spi_alert_test_fatal_fault_trigger : Host → Host
spi_alert_test_fatal_fault_trigger h = put Reg.alert_test 1 0 1 h

unfoldable pub spi_get_tx_queue_depth : Host → ℕ
unfolding spi_get_status
spi_get_tx_queue_depth h = txqd (spi_get_status h)

unfoldable pub spi_get_rx_queue_depth : Host → ℕ
unfolding spi_get_status
spi_get_rx_queue_depth h = rxqd (spi_get_status h)

unfoldable pub spi_get_csid : Host → ℕ
spi_get_csid h = get Reg.csid h

-- The status is read once, into a local variable that the loop tests in every round; `none` means
-- that the loop still runs.
unfoldable pub reset_wait : ℕ → ℕ → Option (Unit {0})
reset_wait zero status = none
reset_wait (suc rounds) status =
    elim (is_active status || not (txqd status == 0) || not (rxqd status == 0)) [
      | true ↦ reset_wait rounds status
      | false ↦ some tt
    ]

unfoldable pub spi_sw_reset : Device → ℕ → Host → Option Host
unfolding spi_get_status
spi_sw_reset device rounds h =
    let asserted = settle device (put Reg.control 1 30 1 h) in
    elim (reset_wait rounds (spi_get_status asserted)) [
      | none ↦ none
      | some u ↦ some (put Reg.control 1 30 0 asserted)
    ]

unfoldable pub spi_set_enable : Bool → Host → Host
spi_set_enable enable h = put Reg.control 1 31 (to_bit enable) h

unfoldable pub spi_output_enable : Bool → Host → Host
spi_output_enable enable h = put Reg.control 1 29 (to_bit enable) h

unfoldable pub spi_set_tx_watermark : ℕ → Host → Host × ℕ
spi_set_tx_watermark watermark h =
    if ltb Reg.tx_depth watermark
    then (h, Flag.watermark_exceeds)
    else (put Reg.control 0xff 8 watermark h, Flag.ok)

unfoldable pub spi_set_rx_watermark : ℕ → Host → Host × ℕ
spi_set_rx_watermark watermark h =
    if ltb Reg.rx_depth watermark
    then (h, Flag.watermark_exceeds)
    else (put Reg.control 0xff 0 watermark h, Flag.ok)

-- `SPI_CONFIGOPTS_ADDR`: the pointer to CONFIGOPTS0 advances by `csid * sizeof(uint32_t)` words.
abbrev pub configopts_addr : ℕ → ℕ
configopts_addr csid = Reg.configopts0 + 4 * (csid * 4)

unfoldable pub spi_set_configopts : ℕ → ℕ → Host → Host × ℕ
spi_set_configopts csid conf_reg h =
    if leb Reg.num_c_s csid
    then (h, Flag.csid_invalid)
    else (set (configopts_addr csid) conf_reg h, Flag.ok)

unfoldable pub spi_get_configopts : ℕ → Host → Option ℕ × ℕ
spi_get_configopts csid h =
    if leb Reg.num_c_s csid
    then (none, Flag.csid_invalid)
    else (some (get (configopts_addr csid) h), Flag.ok)

unfoldable pub spi_set_csid : ℕ → Host → Host × ℕ
spi_set_csid csid h =
    if leb Reg.num_c_s csid then (h, Flag.csid_invalid) else (set Reg.csid csid h, Flag.ok)

unfoldable pub spi_set_command : Device → ℕ → Host → Host × ℕ
unfolding spi_get_status spi_validate_cmd
spi_set_command device cmd_reg h =
    let speed = bitfield_read cmd_reg 3 25 in
    let direction = bitfield_read cmd_reg 3 27 in
    let invalid = if spi_validate_cmd direction speed then Flag.ok else Flag.speed_invalid in
    let flags = if is_ready (spi_get_status h) then invalid else bit_or invalid Flag.not_ready in
    if not (flags == 0)
    then (h, flags)
    else (settle device (record h { issued = h.issued ++ cmd_reg ∷ [] }), Flag.ok)

unfoldable pub spi_write_word : Device → ℕ → Host → Host × ℕ
unfolding spi_get_tx_queue_depth
spi_write_word device wdata h =
    if leb Reg.tx_depth (spi_get_tx_queue_depth h)
    then (h, Flag.tx_queue_full)
    else (settle device (record h { sent = h.sent ++ wdata ∷ [] }), Flag.ok)

-- The word that is read, if there is one.
unfoldable pub spi_read_word : Device → Host → (Host × Option ℕ) × ℕ
unfolding spi_get_rx_queue_depth
spi_read_word device h =
    if spi_get_rx_queue_depth h == 0
    then ((h, none), Flag.rx_queue_empty)
    else ((settle device (record h { taken = h.taken + 1 }), some (h.incoming h.taken)), Flag.ok)

unfoldable pub spi_enable_evt_intr : Bool → Host → Host
spi_enable_evt_intr enable h = put Reg.intr_enable 1 1 (to_bit enable) h

unfoldable pub spi_enable_error_intr : Bool → Host → Host
spi_enable_error_intr enable h = put Reg.intr_enable 1 0 (to_bit enable) h

-- `spi_wait_for_ready`, with what the device does between two reads of the status.
unfoldable pub spi_wait_for_ready : Device → ℕ → Host → Option Host
unfolding spi_get_status
spi_wait_for_ready device zero h = none
spi_wait_for_ready device (suc rounds) h = elim (is_ready (spi_get_status h)) [
  | true ↦ some h
  | false ↦ spi_wait_for_ready device rounds (settle device h)
]

-- The events that the status word tells of.
unfoldable pub spi_get_events : ℕ → Host → ℕ
unfolding spi_get_status
spi_get_events events h =
    let status = spi_get_status h in
    let field = λ (index : ℕ). bitfield_read status 1 index in
    let e1 = bitfield_write events 1 0 (field 25) in
    let e2 = bitfield_write e1 1 1 (field 28) in
    let e3 = bitfield_write e2 1 2 (field 20) in
    let e4 = bitfield_write e3 1 3 (field 26) in
    let e5 = bitfield_write e4 1 4 (field 31) in bitfield_write e5 1 5 (not32 (field 30))

unfoldable pub spi_acknowledge_event : Host → Host
spi_acknowledge_event h = put Reg.intr_state 1 1 1 h

-- `handler_irq_spi`, `fic_irq_spi` and `fic_irq_spi_flash`: the errors are passed to one handler, or
-- else the events to the other. `garbage` is what the local variable of the events holds at first.
pub data Interrupt : Type 0 where
  on_error on_event : ℕ → Interrupt

unfoldable pub irq_spi : ℕ → Host → Host × Interrupt
unfolding spi_get_errors spi_get_events spi_acknowledge_event
irq_spi garbage h =
    let errors = spi_get_errors h in
    if not (errors == 0)
    then (h, on_error errors)
    else (let acknowledged = spi_acknowledge_event h in
        (acknowledged, on_event (spi_get_events garbage acknowledged)))
