-- ===== src/Flash/Init.antt =====
-- w25q.c: the initialisation of the driver. TARGET_SIM is not defined, so the quad enable bit of the
-- flash is set.
pub mod Divider
pub mod Enable
use mathlib.Core.Option
use core_v_mini_mcu.Base.{
  ℕ, ◌+◌, ◌-◌, ◌*◌, ◌/◌, ◌%◌, bit_or, bit_and, u16, sub32, Bool, true, false, ltb, ◌==◌,
  if◌then◌else◌, Option, none, some, [], ◌∷◌,
}
use core_v_mini_mcu.Flash.{
  Setup, Step, run, send, issue, wait_for_rx_watermark, flash_write_enable, flash_power_up,
  flash_ok, flash_error,
}
use core_v_mini_mcu.Flash.Erase.{flash_wait, response}
use core_v_mini_mcu.Mmio.{Region, mmio_region_read32}
use core_v_mini_mcu.SocCtrl.{
  exit_valid, use_spimemio, system_frequency_hz, soc_ctrl_select_spi_host,
}
use core_v_mini_mcu.SpiHost.{
  Host, spi_set_enable, spi_output_enable, spi_set_configopts, spi_set_csid, spi_set_rx_watermark,
  spi_read_word,
}
use core_v_mini_mcu.SpiHost.Word.{dir_rx_only, dir_tx_only, speed_standard, spi_create_configopts}

abbrev pub fc_rsr2 : ℕ
fc_rsr2 = 0x35

abbrev pub fc_wsr2 : ℕ
fc_wsr2 = 0x31

abbrev pub flash_clk_max_hz : ℕ
flash_clk_max_hz = 133000000

-- `clk_div` in `configure_spi`, in 16 bits
unfoldable pub flash_clk_div : ℕ → ℕ
flash_clk_div core_clk =
    if ltb flash_clk_max_hz (core_clk / 2)
    then (let clk_div = u16 (sub32 (core_clk / flash_clk_max_hz) 2 / 2) in
        if ltb flash_clk_max_hz (core_clk / (2 + 2 * clk_div)) then u16 (clk_div + 1) else clk_div)
    else 0

unfoldable pub configure_spi : ℕ → Host → Host
unfolding flash_clk_div
configure_spi core_clk h =
    (spi_set_configopts 0
      (spi_create_configopts (record {
        clkdiv = flash_clk_div core_clk;
        csnidle = 0xf;
        csntrail = 0xf;
        csnlead = 0xf;
        fullcyc = 0;
        cpha = 0;
        cpol = 0;
      }))
      h).0

-- The commands that read the second status register, up to the wait for its word.
unfoldable pub ask_status2 : Setup → Step
unfolding run
ask_status2 setup = run (
    send setup fc_rsr2
    ∷ issue setup 0 true speed_standard dir_tx_only
    ∷ issue setup 0 false speed_standard dir_rx_only
    ∷ wait_for_rx_watermark setup
    ∷ [])

-- The new host and the word; `kept` is what the variable holds if the queue is empty.
unfoldable pub read_status2 : Setup → ℕ → Host → Option (Host × ℕ)
unfolding ask_status2
read_status2 setup kept h =
    Option.map
      (λ (asked : Host).
        let ((h1, word), flag) = spi_read_word setup.device asked in (h1, response word kept))
      (ask_status2 setup h)

unfoldable pub write_status2 : Setup → ℕ → Step
unfolding run flash_write_enable flash_wait
write_status2 setup value = run (
    flash_write_enable setup
    ∷ send setup fc_wsr2
    ∷ issue setup 0 true speed_standard dir_tx_only
    ∷ send setup value
    ∷ issue setup 0 false speed_standard dir_tx_only
    ∷ flash_wait setup
    ∷ [])

-- `garbage` is what the variable of the first read holds at first.
unfoldable pub set_qe_bit : Setup → ℕ → Host → Option (Host × ℕ)
unfolding read_status2 write_status2
set_qe_bit setup garbage h =
    Option.bind (read_status2 setup garbage (spi_set_rx_watermark 1 h).0) (λ (r : Host × ℕ).
      Option.bind (write_status2 setup (bit_or r.1 2) r.0) (λ (h1 : Host).
        Option.map (λ (c : Host × ℕ). (c.0, (if bit_and c.1 2 == 0 then flash_error else flash_ok)))
          (read_status2 setup 0 h1)))

-- The memory, the host and the code. `soc_ctrl_peri` is the address of the registers of the system
-- controller; the call of soc_ctrl_select_spi_host casts it to a `soc_ctrl_t *`, whose base address
-- is then the first of these registers.
unfoldable pub w25q128jw_init : Setup → ℕ → ℕ → Region → Host → Option ((Region × Host) × ℕ)
unfolding soc_ctrl_select_spi_host configure_spi flash_power_up set_qe_bit
w25q128jw_init setup garbage soc_ctrl_peri memory h =
    if mmio_region_read32 memory (soc_ctrl_peri + use_spimemio) == 1
    then some ((memory, h), flash_error)
    else (let base_addr = mmio_region_read32 memory (soc_ctrl_peri + exit_valid) in
        let selected = soc_ctrl_select_spi_host base_addr memory in
        let core_clk = mmio_region_read32 selected (soc_ctrl_peri + system_frequency_hz) in
        let enabled = spi_output_enable true (spi_set_enable true h) in
        let configured = (spi_set_csid 0 (configure_spi core_clk enabled)).0 in
        Option.bind (flash_power_up setup configured) (λ (h1 : Host).
          Option.map (λ (r : Host × ℕ). ((selected, r.0), r.1)) (set_qe_bit setup garbage h1)))
