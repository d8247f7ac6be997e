-- ===== src/SpiSdk/Slave.antt =====
-- spi_sdk.c: the slave of a transfer and the frequency of its clock.
pub mod Freq
use core_v_mini_mcu.Base.{
  ℕ, ◌+◌, ◌-◌, ◌*◌, ◌/◌, bit_or, u16, sub32, Bool, not, ltb, leb, ◌==◌, if◌then◌else◌,
}
use core_v_mini_mcu.Bitfield.{bitfield_read}
use core_v_mini_mcu.SpiHost.{spi_set_configopts, spi_set_csid}
use core_v_mini_mcu.SpiHost.Reg
use core_v_mini_mcu.SpiHost.Word.{ConfigOpts, spi_create_configopts}
use core_v_mini_mcu.SpiSdk.Code
use core_v_mini_mcu.SpiSdk.Types.{Slave, SpiT, Peri}

-- `SPI_MIN_FREQ`
abbrev pub min_freq : ℕ → ℕ
min_freq sys_freq = sys_freq / (2 * 65535 + 2)

unfoldable pub spi_validate_slave : ℕ → Slave → ℕ
spi_validate_slave sys_freq slave =
    let e1 = if leb Reg.num_c_s slave.csid then Code.slave_csid_inval else Code.ok in
    if ltb slave.freq (min_freq sys_freq) then bit_or e1 Code.slave_freq_inval else e1

-- The divider, which is kept in 16 bits.
unfoldable pub clk_div : ℕ → ℕ → ℕ
clk_div sys_freq freq =
    if ltb freq (sys_freq / 2)
    then (let div = u16 (sub32 (sys_freq / freq) 2 / 2) in
        if ltb freq (sys_freq / (2 * div + 2)) then u16 (div + 1) else div)
    else 0

unfoldable pub spi_true_slave_freq : ℕ → ℕ → ℕ
unfolding clk_div
spi_true_slave_freq sys_freq freq = sys_freq / (2 * clk_div sys_freq freq + 2)

-- The new peripheral and the code.
unfoldable pub spi_set_slave : ℕ → SpiT → Peri → Peri × ℕ
unfolding clk_div spi_set_configopts
spi_set_slave sys_freq spi p =
    let slave = spi.slave in
    let config : ConfigOpts = record {
      clkdiv = clk_div sys_freq slave.freq;
      csnidle = slave.csn_idle;
      csntrail = slave.csn_trail;
      csnlead = slave.csn_lead;
      fullcyc = slave.full_cycle;
      cpha = bitfield_read slave.data_mode 1 0;
      cpol = bitfield_read slave.data_mode 1 1;
    } in
    let (h1, config_error) = spi_set_configopts slave.csid (spi_create_configopts config) p.host in
    if not (config_error == 0)
    then (record p { host = h1 }, Code.slave_inval)
    else (record p { host = (spi_set_csid slave.csid h1).0 }, Code.ok)
