-- ===== src/SpiHost/Flag.antt =====
-- `spi_return_flags_e` of spi_host.h.
use core_v_mini_mcu.Base.{ℕ}

abbrev pub ok : ℕ
ok = 0x0

abbrev pub watermark_exceeds : ℕ
watermark_exceeds = 0x2

abbrev pub csid_invalid : ℕ
csid_invalid = 0x4

abbrev pub speed_invalid : ℕ
speed_invalid = 0x10

abbrev pub tx_queue_full : ℕ
tx_queue_full = 0x20

abbrev pub rx_queue_empty : ℕ
rx_queue_empty = 0x40

abbrev pub not_ready : ℕ
not_ready = 0x80

abbrev pub event_invalid : ℕ
event_invalid = 0x100

abbrev pub error_invalid : ℕ
error_invalid = 0x200
