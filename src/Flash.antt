-- ===== src/Flash.antt =====
-- sw/device/bsp/w25q: the driver of the flash memory over the SPI host. A buffer of bytes is the
-- function from an index to a byte. `none` means that a loop on the status of the host, on that of
-- the flash or on that of the DMA still runs. TARGET_SIM is not defined, so the flash is waited for.
pub mod Erase
pub mod Write
pub mod Pages
pub mod Range
pub mod Update
pub mod Read
pub mod Init
pub mod Variants
pub mod Dma
use mathlib.Core.Option
use core_v_mini_mcu.Base.{
  ℕ, zero, suc, ◌+◌, ◌-◌, ◌*◌, ◌/◌, ◌%◌, ◌^◌, bit_or, bit_and, u8, u32, sub32, Bool, true, false,
  not, ◌||◌, ltb, ◌==◌, if◌then◌else◌, Option, none, some, List, [], ◌∷◌,
}
use core_v_mini_mcu.SpiHost.{
  Host, Device, settle, status_bit, spi_get_status, spi_write_word, spi_read_word, spi_set_command,
  spi_wait_for_ready, spi_set_rx_watermark,
}
use core_v_mini_mcu.SpiHost.Word.{
  spi_create_command, dir_tx_only, dir_rx_only, speed_standard, speed_quad,
}

-- The commands of the flash
abbrev pub fc_we : ℕ
fc_we = 0x06

abbrev pub fc_rpd : ℕ
fc_rpd = 0xab

abbrev pub fc_pp : ℕ
fc_pp = 0x02

abbrev pub fc_ppq : ℕ
fc_ppq = 0x32

abbrev pub fc_se : ℕ
fc_se = 0x20

abbrev pub fc_be32 : ℕ
fc_be32 = 0x52

abbrev pub fc_be64 : ℕ
fc_be64 = 0xd8

abbrev pub fc_ce : ℕ
fc_ce = 0xc7

abbrev pub fc_rsr1 : ℕ
fc_rsr1 = 0x05

abbrev pub fc_pd : ℕ
fc_pd = 0xb9

abbrev pub fc_ereset : ℕ
fc_ereset = 0x66

abbrev pub fc_reset : ℕ
fc_reset = 0x99

-- `FLASH_OK` and `FLASH_ERROR`
abbrev pub flash_ok : ℕ
flash_ok = 0

abbrev pub flash_error : ℕ
flash_error = 1

abbrev pub flash_page_size : ℕ
flash_page_size = 256

abbrev pub max_flash_addr : ℕ
max_flash_addr = 0x00ffffff

-- What the driver runs on: the device, the rounds that are given to each loop on a status, and the
-- compiler's byte swap of a 32-bit word.
pub record Setup : Type 0 where
  pub device : Device
  pub rounds : ℕ
  pub byteswap32 : ℕ → ℕ

-- The driver's steps on the host, in order.
abbrev pub Step : Type 0
Step = Host → Option Host

unfoldable pub run : List Step → Host → Option Host
run [] h = some h
run (step ∷ steps) h = Option.bind (step h) (run steps)

-- `spi_write_word` without a look at its result
abbrev pub send : Setup → ℕ → Step
send setup word h = some (spi_write_word setup.device word h).0

abbrev pub wait_for_ready : Setup → Step
wait_for_ready setup h = spi_wait_for_ready setup.device setup.rounds h

-- A command of `len + 1` bytes, and the wait for the host after it.
abbrev pub issue : Setup → ℕ → Bool → ℕ → ℕ → Step
issue setup len csaat speed direction h =
    wait_for_ready setup
      (spi_set_command setup.device
        (spi_create_command
          (record { len = len % 2 ^ 24; csaat = csaat; speed = speed; direction = direction }))
        h).0

-- `spi_wait_for_rx_watermark` and `spi_wait_for_tx_not_full`, with what the device does between two
-- reads of the status.
unfoldable pub status_wait : Device → (ℕ → Bool) → ℕ → Step
unfolding spi_get_status
status_wait device is_met zero h = none
status_wait device is_met (suc rounds) h = elim (is_met (spi_get_status h)) [
  | true ↦ some h
  | false ↦ status_wait device is_met rounds (settle device h)
]

abbrev pub wait_for_rx_watermark : Setup → Step
wait_for_rx_watermark setup = status_wait setup.device (status_bit 20) setup.rounds

abbrev pub wait_for_tx_not_full : Setup → Step
wait_for_tx_not_full setup =
    status_wait setup.device (λ status. not (status_bit 29 status)) setup.rounds

-- `REVERT_24b_ADDR`
abbrev pub revert_24b_addr : Setup → ℕ → ℕ
revert_24b_addr setup addr = setup.byteswap32 addr / 2 ^ 8

-- The word of a command with an address.
abbrev pub with_addr : Setup → ℕ → ℕ → ℕ
with_addr setup addr command =
    bit_or (u32 (revert_24b_addr setup (bit_and addr 0x00ffffff) * 2 ^ 8)) command

unfoldable pub flash_write_enable : Setup → Step
unfolding run
flash_write_enable setup =
    run (send setup fc_we ∷ issue setup 0 false speed_standard dir_tx_only ∷ [])

unfoldable pub flash_power_up : Setup → Step
unfolding run
flash_power_up setup =
    run (
      send setup fc_rpd
      ∷ wait_for_ready setup
      ∷ issue setup 0 false speed_standard dir_tx_only
      ∷ [])

unfoldable pub flash_reset : Setup → Step
unfolding run
flash_reset setup = run (
    send setup fc_ereset
    ∷ send setup fc_reset
    ∷ wait_for_ready setup
    ∷ issue setup 0 false speed_standard dir_tx_only
    ∷ issue setup 0 false speed_standard dir_tx_only
    ∷ [])

unfoldable pub w25q128jw_power_down : Setup → Step
unfolding run
w25q128jw_power_down setup =
    run (send setup fc_pd ∷ issue setup 0 false speed_standard dir_tx_only ∷ [])
