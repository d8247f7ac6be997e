-- ===== src/Dma/Reg.antt =====
-- dma_regs.h: the offsets of the registers of a DMA channel, in bytes.
use core_v_mini_mcu.Base.{ℕ}

abbrev pub src_ptr : ℕ
src_ptr = 0x0

abbrev pub dst_ptr : ℕ
dst_ptr = 0x4

abbrev pub addr_ptr : ℕ
addr_ptr = 0x8

abbrev pub size_d1 : ℕ
size_d1 = 0xc

abbrev pub size_d2 : ℕ
size_d2 = 0x10

abbrev pub status : ℕ
status = 0x14

abbrev pub src_ptr_inc_d1 : ℕ
src_ptr_inc_d1 = 0x18

abbrev pub src_ptr_inc_d2 : ℕ
src_ptr_inc_d2 = 0x1c

abbrev pub dst_ptr_inc_d1 : ℕ
dst_ptr_inc_d1 = 0x20

abbrev pub dst_ptr_inc_d2 : ℕ
dst_ptr_inc_d2 = 0x24

abbrev pub slot : ℕ
slot = 0x28

abbrev pub src_data_type : ℕ
src_data_type = 0x2c

abbrev pub dst_data_type : ℕ
dst_data_type = 0x30

abbrev pub sign_ext : ℕ
sign_ext = 0x34

abbrev pub mode : ℕ
mode = 0x38

abbrev pub dim_config : ℕ
dim_config = 0x3c

abbrev pub dim_inv : ℕ
dim_inv = 0x40

abbrev pub pad_top : ℕ
pad_top = 0x44

abbrev pub pad_bottom : ℕ
pad_bottom = 0x48

abbrev pub pad_right : ℕ
pad_right = 0x4c

abbrev pub pad_left : ℕ
pad_left = 0x50

abbrev pub window_size : ℕ
window_size = 0x54

abbrev pub window_count : ℕ
window_count = 0x58

abbrev pub interrupt_en : ℕ
interrupt_en = 0x5c

abbrev pub transaction_ifr : ℕ
transaction_ifr = 0x60

abbrev pub window_ifr : ℕ
window_ifr = 0x64
