-- ===== src/SpiHost/Reg.antt =====
-- spi_host_regs.h: the offsets of the registers of an SPI host, in bytes, and its parameters.
use core_v_mini_mcu.Base.{ℕ}

abbrev pub intr_state : ℕ
intr_state = 0x0

abbrev pub intr_enable : ℕ
intr_enable = 0x4

abbrev pub intr_test : ℕ
intr_test = 0x8

abbrev pub alert_test : ℕ
alert_test = 0xc

abbrev pub control : ℕ
control = 0x10

abbrev pub status : ℕ
status = 0x14

abbrev pub configopts0 : ℕ
configopts0 = 0x18

abbrev pub csid : ℕ
csid = 0x20

abbrev pub error_enable : ℕ
error_enable = 0x30

abbrev pub error_status : ℕ
error_status = 0x34

abbrev pub event_enable : ℕ
event_enable = 0x38

abbrev pub num_c_s : ℕ
num_c_s = 2

abbrev pub tx_depth : ℕ
tx_depth = 72

abbrev pub rx_depth : ℕ
rx_depth = 64
