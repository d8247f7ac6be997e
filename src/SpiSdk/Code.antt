-- ===== src/SpiSdk/Code.antt =====
-- `spi_codes_e` of spi_sdk.h.
use core_v_mini_mcu.Base.{ℕ}

abbrev pub ok : ℕ
ok = 0x0

abbrev pub idx_inval : ℕ
idx_inval = 0x2

abbrev pub wm_exceeds : ℕ
wm_exceeds = 0x4

abbrev pub not_init : ℕ
not_init = 0x8

abbrev pub slave_csid_inval : ℕ
slave_csid_inval = 0x10

abbrev pub slave_freq_inval : ℕ
slave_freq_inval = 0x20

abbrev pub not_idle : ℕ
not_idle = 0x40

abbrev pub slave_inval : ℕ
slave_inval = 0x80

abbrev pub segment_inval : ℕ
segment_inval = 0x100

abbrev pub is_busy : ℕ
is_busy = 0x200

abbrev pub txn_len_inval : ℕ
txn_len_inval = 0x400
