-- ===== src/SocCtrl.antt =====
-- sw/device/lib/drivers/soc_ctrl: the driver of the system controller. `soc_ctrl_t` holds the base
-- address of its registers, which is all that is left of it here; the memory is the region of all
-- addresses, in words.
use core_v_mini_mcu.Base.{ℕ, ◌+◌, u8}
use core_v_mini_mcu.Mmio.{Region, mmio_region_read32, mmio_region_write8, mmio_region_write32}

abbrev pub exit_valid : ℕ
exit_valid = 0x0

abbrev pub exit_value : ℕ
exit_value = 0x4

abbrev pub use_spimemio : ℕ
use_spimemio = 0x14

abbrev pub enable_spi_sel : ℕ
enable_spi_sel = 0x18

abbrev pub system_frequency_hz : ℕ
system_frequency_hz = 0x1c

-- `SOC_CTRL_SPI_FLASH_MODE_SPIMEMIO` and `SOC_CTRL_SPI_FLASH_MODE_SPIHOST`
abbrev pub mode_spimemio : ℕ
mode_spimemio = 1

abbrev pub mode_spihost : ℕ
mode_spihost = 0

unfoldable pub soc_ctrl_set_valid : ℕ → ℕ → Region → Region
unfolding mmio_region_write8
soc_ctrl_set_valid base_addr valid memory =
    mmio_region_write8 memory (base_addr + exit_valid) (u8 valid)

unfoldable pub soc_ctrl_set_exit_value : ℕ → ℕ → Region → Region
soc_ctrl_set_exit_value base_addr value memory =
    mmio_region_write32 memory (base_addr + exit_value) value

unfoldable pub soc_ctrl_get_frequency : ℕ → Region → ℕ
soc_ctrl_get_frequency base_addr memory =
    mmio_region_read32 memory (base_addr + system_frequency_hz)

unfoldable pub soc_ctrl_set_frequency : ℕ → ℕ → Region → Region
soc_ctrl_set_frequency base_addr frequency memory =
    mmio_region_write32 memory (base_addr + system_frequency_hz) frequency

unfoldable pub soc_ctrl_select_spi_memio : ℕ → Region → Region
soc_ctrl_select_spi_memio base_addr memory =
    mmio_region_write32 (mmio_region_write32 memory (base_addr + enable_spi_sel) 1)
      (base_addr + use_spimemio) mode_spimemio

unfoldable pub soc_ctrl_select_spi_host : ℕ → Region → Region
soc_ctrl_select_spi_host base_addr memory =
    mmio_region_write32 (mmio_region_write32 memory (base_addr + enable_spi_sel) 1)
      (base_addr + use_spimemio) mode_spihost

unfoldable pub get_spi_flash_mode : ℕ → Region → ℕ
get_spi_flash_mode base_addr memory = mmio_region_read32 memory (base_addr + use_spimemio)
