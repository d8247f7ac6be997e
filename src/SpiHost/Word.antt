-- ===== src/SpiHost/Word.antt =====
-- spi_host.h: the words of the registers that the driver builds, a command and the options of a slave.
use core_v_mini_mcu.Base.{ℕ, Bool, true, false, not, ◌&&◌, ◌||◌, ltb, ◌==◌, if◌then◌else◌}
use core_v_mini_mcu.Bitfield.{bitfield_read, bitfield_write}

-- `spi_dir_e`
abbrev pub dir_dummy : ℕ
dir_dummy = 0

abbrev pub dir_rx_only : ℕ
dir_rx_only = 1

abbrev pub dir_tx_only : ℕ
dir_tx_only = 2

abbrev pub dir_bidir : ℕ
dir_bidir = 3

-- `spi_speed_e`
abbrev pub speed_standard : ℕ
speed_standard = 0

abbrev pub speed_quad : ℕ
speed_quad = 2

-- `spi_command_t`
pub record Command : Type 0 where
  pub len : ℕ
  pub csaat : Bool
  pub speed : ℕ
  pub direction : ℕ

-- `spi_configopts_t`
pub record ConfigOpts : Type 0 where
  pub clkdiv : ℕ
  pub csnidle : ℕ
  pub csntrail : ℕ
  pub csnlead : ℕ
  pub fullcyc : ℕ
  pub cpha : ℕ
  pub cpol : ℕ

-- The conversion of a `bool`.
abbrev pub to_bit : Bool → ℕ
to_bit true = 1
to_bit false = 0

unfoldable pub spi_validate_cmd : ℕ → ℕ → Bool
spi_validate_cmd direction speed =
    if ltb speed_quad speed
      || ltb dir_bidir direction
      || direction == dir_bidir && not (speed == speed_standard)
    then false
    else true

unfoldable pub spi_create_command : Command → ℕ
spi_create_command command =
    let r1 = bitfield_write 0 0xffffff 0 command.len in
    let r2 = bitfield_write r1 1 24 (to_bit command.csaat) in
    let r3 = bitfield_write r2 3 25 command.speed in bitfield_write r3 3 27 command.direction

unfoldable pub spi_create_configopts : ConfigOpts → ℕ
spi_create_configopts configopts =
    let r1 = bitfield_write 0 0xffff 0 configopts.clkdiv in
    let r2 = bitfield_write r1 0xf 16 configopts.csnidle in
    let r3 = bitfield_write r2 0xf 20 configopts.csntrail in
    let r4 = bitfield_write r3 0xf 24 configopts.csnlead in
    let r5 = bitfield_write r4 1 29 configopts.fullcyc in
    let r6 = bitfield_write r5 1 30 configopts.cpha in bitfield_write r6 1 31 configopts.cpol

unfoldable pub spi_create_configopts_structure : ℕ → ConfigOpts
spi_create_configopts_structure config_reg = record {
  clkdiv = bitfield_read config_reg 0xffff 0;
  csnidle = bitfield_read config_reg 0xf 16;
  csntrail = bitfield_read config_reg 0xf 20;
  csnlead = bitfield_read config_reg 0xf 24;
  fullcyc = bitfield_read config_reg 1 29;
  cpha = bitfield_read config_reg 1 30;
  cpol = bitfield_read config_reg 1 31;
}
