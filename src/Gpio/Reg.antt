-- ===== src/Gpio/Reg.antt =====
-- gpio_regs.h: the offsets of the registers of a GPIO peripheral, in bytes.
use core_v_mini_mcu.Base.{ℕ}

abbrev pub cfg : ℕ
cfg = 0x4

abbrev pub gpio_mode0 : ℕ
gpio_mode0 = 0x8

abbrev pub gpio_mode1 : ℕ
gpio_mode1 = 0xc

abbrev pub gpio_en0 : ℕ
gpio_en0 = 0x80

abbrev pub gpio_in0 : ℕ
gpio_in0 = 0x100

abbrev pub gpio_out0 : ℕ
gpio_out0 = 0x180

abbrev pub gpio_set0 : ℕ
gpio_set0 = 0x200

abbrev pub gpio_clear0 : ℕ
gpio_clear0 = 0x280

abbrev pub gpio_toggle0 : ℕ
gpio_toggle0 = 0x300

abbrev pub intrpt_rise_en0 : ℕ
intrpt_rise_en0 = 0x380

abbrev pub intrpt_fall_en0 : ℕ
intrpt_fall_en0 = 0x400

abbrev pub intrpt_lvl_high_en0 : ℕ
intrpt_lvl_high_en0 = 0x480

abbrev pub intrpt_lvl_low_en0 : ℕ
intrpt_lvl_low_en0 = 0x500

abbrev pub intrpt_status0 : ℕ
intrpt_status0 = 0x580

abbrev pub intrpt_rise_status0 : ℕ
intrpt_rise_status0 = 0x600

abbrev pub intrpt_fall_status0 : ℕ
intrpt_fall_status0 = 0x680

abbrev pub intrpt_lvl_high_status0 : ℕ
intrpt_lvl_high_status0 = 0x700

abbrev pub intrpt_lvl_low_status0 : ℕ
intrpt_lvl_low_status0 = 0x780
